-- ===== src/Maintenance/ReadLine.antt =====
-- cmdtocanonij2/filter/cmdtocanonij.c, `read_line`: the lines of the command file.
pub mod Lines
use cnijfilter.Common.{
  ℕ, zero, suc, ◌*◌, Bool, ◌||◌, Option, none, some, List, [], ◌∷◌, ◌==◌, if◌then◌else◌,
}
use cnijfilter.Pwg.PackBits.{Bytes}
use cnijfilter.Posix.{ReadResult, Source, got, read_eintr, read_error, read_once}

-- DATA_BUF_SIZE
abbrev pub read_buf_size : ℕ
read_buf_size = 1024

-- IS_RETURN
unfoldable pub is_return : ℕ → Bool
is_return c = c == 13 || c == 10

-- `buf_bytes` with what is left of `read_buf`: it is negative after a read that failed.
pub data Held : Type 0 where
  holding : Bytes → Held
  no_bytes : Held

-- The static variables of `read_line`, and the file behind them.
pub record Reader : Type 0 where
  pub held : Held
  pub input : Source

-- After a call of read (2).
unfoldable pub filled : ReadResult × Source → Reader
filled (got bytes, input) = record { held = holding bytes; input = input }
filled (read_eintr, input) = record { held = no_bytes; input = input }
filled (read_error, input) = record { held = no_bytes; input = input }

-- `if (buf_bytes == 0 && fd != -1) { ... }`, where the file is open.
unfoldable pub fill : Reader → Reader
fill r = elim r.held [
  | no_bytes ↦ r
  | holding held ↦ elim held [ [] ↦ filled (read_once r.input read_buf_size) | b ∷ more ↦ r ]
]

unfoldable pub put_before : ℕ → Option (Bytes × Reader) → Option (Bytes × Reader)
put_before b none = none
put_before b (some (line, r)) = some (b ∷ line, r)

-- `while (bytes > 0)`, with the rounds left: the bytes of the line, or none where the rounds are
-- used up. A negative `buf_bytes` stays, whatever errno says.
unfoldable pub read_text_line : ℕ → ℕ → Reader → Option (Bytes × Reader)
read_text_line zero bytes r = none
read_text_line (suc fuel) zero r = some ([], r)
read_text_line (suc fuel) (suc bytes) r = elim (fill r).held [
  | no_bytes ↦ read_text_line fuel (suc bytes) (fill r)
  | holding held ↦ elim held [
    | [] ↦ some ([], fill r)
    | b ∷ more ↦
        let r' : Reader = record { held = holding more; input = (fill r).input } in
        let later = put_before b (read_text_line fuel bytes r') in
        if is_return b then some (b ∷ [], r') else later
  ]
]
