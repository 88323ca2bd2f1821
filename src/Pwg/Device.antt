-- ===== src/Pwg/Device.antt =====
-- tocnpwg/src/main.c, `cups_write_fd` and `cups_raster_io`: bytes on their way to a file.
pub mod Laws
use cnijfilter.Common.{
  ℕ, zero, suc, ◌+◌, ◌-◌, min, Bool, List, [], ◌∷◌, ◌++◌, take, drop, length, ℤ, pos, negsuc,
}
use cnijfilter.Pwg.PackBits.{Bytes}

-- What `write (2)` answers: it takes at most so many bytes, or fails with EINTR, with EAGAIN, or
-- with another error.
pub data Answer : Type 0 where
  taken : ℕ → Answer
  interrupted : Answer
  again : Answer
  refused : Answer

-- A file with the answers of the calls to come (past their end each call takes all its bytes),
-- and whether `malloc` grants a size.
pub record Device : Type 0 where
  pub bytes : Bytes
  pub answers : List Answer
  pub grant : ℕ → Bool

-- `while ((count = write (...)) < 0) if (errno != EINTR && errno != EAGAIN) return (-1);`
unfoldable pub write_retry : List Answer → Device → Bytes → ℤ × Device
write_retry [] d buf = (pos (length buf), record d { bytes = d.bytes ++ buf; answers = [] })
write_retry (taken n ∷ more) d buf =
    let count = min n (length buf) in
    (pos count, record d { bytes = d.bytes ++ take count buf; answers = more })
write_retry (interrupted ∷ more) d buf = write_retry more d buf
write_retry (again ∷ more) d buf = write_retry more d buf
write_retry (refused ∷ more) d buf = (negsuc 0, record d { answers = more })

unfoldable pub write_fd : Device → Bytes → ℤ × Device
unfolding write_retry
write_fd d buf = write_retry d.answers d buf

-- The loop of `cups_raster_io`. Each round that does not return takes a byte at least, so the
-- length of the buffer is enough fuel; -2 stands for a loop that ran out of it.
unfoldable pub io_loop : ℕ → Device → ℕ → Bytes → ℤ × Device
io_loop fuel d total [] = (pos total, d)
io_loop zero d total (b ∷ buf) = (negsuc 1, d)
io_loop (suc fuel) d total (b ∷ buf) =
    let (count, d') = write_fd d (b ∷ buf) in
    elim count [
      | pos zero ↦ (pos 0, d')
      | pos (suc n) ↦ io_loop fuel d' (total + suc n) (drop (suc n) (b ∷ buf))
      | negsuc n ↦ (negsuc 0, d')
    ]

unfoldable pub raster_io : Device → Bytes → ℤ × Device
raster_io d buf = io_loop (length buf) d 0 buf
