-- ===== src/Posix.antt =====
-- read (2) and write (2) as the copy loops of the filters call them.
use cnijfilter.Common.{ℕ, min, List, [], ◌∷◌, ◌++◌, take, drop, length}
use cnijfilter.Pwg.PackBits.{Bytes}
use cnijfilter.Pwg.Device.{Device, taken, interrupted, again, refused}

-- What one call of write (2) comes back with: a count, EINTR, or another error.
pub data WriteResult : Type 0 where
  wrote : ℕ → WriteResult
  write_eintr : WriteResult
  write_error : WriteResult

-- One call. Past the answers that are listed, a call takes all its bytes.
unfoldable pub write_once : Device → Bytes → WriteResult × Device
write_once d buf = elim d.answers [
  | [] ↦ (wrote (length buf), record d { bytes = d.bytes ++ buf })
  | a ∷ more ↦ elim a [
    | taken n ↦ (
      wrote (min n (length buf)),
      record d { bytes = d.bytes ++ take (min n (length buf)) buf; answers = more },
    )
    | interrupted ↦ (write_eintr, record d { answers = more })
    | again ↦ (write_error, record d { answers = more })
    | refused ↦ (write_error, record d { answers = more })
  ]
]

-- What read (2) answers: it has at most so many bytes, or fails.
pub data ReadAnswer : Type 0 where
  offers : ℕ → ReadAnswer
  read_interrupted : ReadAnswer
  read_refused : ReadAnswer

-- A file or a pipe that is read: the bytes that are left, and the answers of the calls to come
-- (past their end each call gets all it asks for).
pub record Source : Type 0 where
  pub bytes : Bytes
  pub answers : List ReadAnswer

pub data ReadResult : Type 0 where
  got : Bytes → ReadResult
  read_eintr : ReadResult
  read_error : ReadResult

unfoldable pub read_once : Source → ℕ → ReadResult × Source
read_once s n = elim s.answers [
  | [] ↦ (got (take n s.bytes), record s { bytes = drop n s.bytes })
  | a ∷ more ↦ elim a [
    | offers k ↦
        (got (take (min k n) s.bytes), record { bytes = drop (min k n) s.bytes; answers = more })
    | read_interrupted ↦ (read_eintr, record s { answers = more })
    | read_refused ↦ (read_error, record s { answers = more })
  ]
]
