-- ===== src/Pwg/Device/Laws.antt =====
-- A device that answers no error takes every byte, however it splits them.
use cnijfilter.Common.{
  ℕ, zero, suc, ◌+◌, ◌≤◌, min, ◌≡◌, refl, sym, ap, ◌∙◌, true, List, [], ◌∷◌, ◌++◌, take, drop,
  length, take-append-drop, take-length, length-drop, append_assoc, append-nil, All, ℤ, pos, arith,
}
use cnijfilter.Pwg.PackBits.{Bytes}
use cnijfilter.Pwg.Device.{
  Answer, taken, interrupted, again, refused, Device, write_retry, write_fd, io_loop, raster_io,
}

-- An answer that lets the writer go on.
abbrev pub IsMild : Answer → Type 0
IsMild (taken n) = 1 ≤ n
IsMild interrupted = Unit
IsMild again = Unit
IsMild refused = ⊥

pub record IsSound (d : Device) : Type 0 where
  pub mild : All IsMild d.answers
  pub roomy : (n : ℕ) → d.grant n ≡ true

-- What a successful write has done.
pub record Wrote (d : Device) (buf : Bytes) (d' : Device) : Type 0 where
  pub sound : IsSound d'
  pub bytes : d'.bytes ≡ d.bytes ++ buf

-- A write of a part of the buffer, not empty.
record WrotePart (d : Device) (buf : Bytes) (r : ℤ × Device) : Type 0 where
  part : ℕ
  count : r.0 ≡ pos (suc part)
  inside : suc part ≤ length buf
  wrote : Wrote d (take (suc part) buf) r.1

write_retry-WrotePart :
    (answers : List Answer) (d : Device) (b : ℕ) (buf : Bytes)
    → All IsMild answers
    → ((n : ℕ) → d.grant n ≡ true)
    → WrotePart d (b ∷ buf) (write_retry answers d (b ∷ buf))
unfolding write_retry
write_retry-WrotePart [] d b buf m g = record {
  part = length buf;
  count = refl;
  inside = omega arith;
  wrote = record { sound = record { mild = tt; roomy = g }; bytes = rw take-length };
}
write_retry-WrotePart (taken zero ∷ more) d b buf m g = absurd (omega arith)
write_retry-WrotePart (taken (suc n) ∷ more) d b buf m g =
    let e : min (suc n) (suc (length buf)) ≡ suc (min n (length buf)) = omega arith in
    rw e (record {
      part = min n (length buf);
      count = refl;
      inside = omega arith;
      wrote = record { sound = record { mild = m.1; roomy = g }; bytes = refl };
    })
write_retry-WrotePart (interrupted ∷ more) d b buf m g = write_retry-WrotePart more d b buf m.1 g
write_retry-WrotePart (again ∷ more) d b buf m g = write_retry-WrotePart more d b buf m.1 g
write_retry-WrotePart (refused ∷ more) d b buf m g = absurd m.0

write_fd-WrotePart :
    (d : Device) (b : ℕ) (buf : Bytes) → IsSound d → WrotePart d (b ∷ buf) (write_fd d (b ∷ buf))
unfolding write_fd
write_fd-WrotePart d b buf s = write_retry-WrotePart d.answers d b buf s.mild s.roomy

-- The whole buffer went out after `total` bytes before it.
pub record Sent (d : Device) (total : ℕ) (buf : Bytes) (r : ℤ × Device) : Type 0 where
  pub count : r.0 ≡ pos (total + length buf)
  pub wrote : Wrote d buf r.1

Sent-join :
    (d d' : Device) (total n : ℕ) (buf : Bytes) (r : ℤ × Device)
    → n ≤ length buf
    → Wrote d (take n buf) d'
    → Sent d' (total + n) (drop n buf) r
    → Sent d total buf r
Sent-join d d' total n buf r h w k = record {
  count = k.count ∙ ap pos (omega (arith, length-drop n buf));
  wrote = record {
    sound = k.wrote.sound;
    bytes =
        k.wrote.bytes
        ∙ ap (λ x. x ++ drop n buf) w.bytes
        ∙ append_assoc d.bytes (take n buf) (drop n buf)
        ∙ ap (λ x. d.bytes ++ x) (take-append-drop n buf);
  };
}

io_loop-Sent :
    (fuel : ℕ) (d : Device) (total : ℕ) (buf : Bytes)
    → IsSound d
    → length buf ≤ fuel
    → Sent d total buf (io_loop fuel d total buf)
unfolding io_loop
io_loop-Sent zero d total [] s h = record {
  count = ap pos (omega arith);
  wrote = record { sound = s; bytes = sym (append-nil _) };
}
io_loop-Sent (suc fuel) d total [] s h = record {
  count = ap pos (omega arith);
  wrote = record { sound = s; bytes = sym (append-nil _) };
}
io_loop-Sent zero d total (b ∷ buf) s h = absurd (omega arith)
io_loop-Sent (suc fuel) d total (b ∷ buf) s h =
    rw (p.count, io_loop)
      (Sent-join d d' total (suc p.part) (b ∷ buf) _ p.inside p.wrote (
        io_loop-Sent fuel d' (total + suc p.part) (drop (suc p.part) (b ∷ buf)) p.wrote.sound
          (omega (arith, length-drop (suc p.part) (b ∷ buf)))))
  where
    p : WrotePart d (b ∷ buf) (write_fd d (b ∷ buf))
    p = write_fd-WrotePart d b buf s

    d' : Device
    d' = (write_fd d (b ∷ buf)).1

-- On a device that answers no error, `cups_raster_io` reports the number of bytes, has appended
-- exactly these bytes, and leaves such a device: short writes and interruptions do not show.
pub raster_io-Sent : (d : Device) (buf : Bytes) → IsSound d → Sent d 0 buf (raster_io d buf)
unfolding raster_io
raster_io-Sent d buf s = io_loop-Sent (length buf) d 0 buf s (omega arith)
