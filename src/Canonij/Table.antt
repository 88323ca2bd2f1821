-- ===== src/Canonij/Table.antt =====
-- rastertocanonij/src/canonopt.c: the tables that the PPD file holds in its comments.
pub mod Lines
pub mod Entries
use cnijfilter.Common.{
  ℕ, zero, suc, ◌+◌, ◌-◌, ◌*◌, Bool, true, false, ◌&&◌, ◌||◌, Option, none, some, List, [], ◌∷◌,
  ◌++◌, if◌then◌else◌, ltb, ◌==◌, length, get_or,
}
use cnijfilter.Text.{Text, same_text}

-- The loop of `read_line`, after `i` bytes; with the end of the file, the bytes stored and what is
-- left of the file. A byte past `buf_size - 1` is dropped.
pub record Line : Type 0 where
  pub at_end : Bool
  pub bytes : Text
  pub after : Text

pub read_bytes : ℕ → ℕ → Text → Line
read_bytes room i [] = record { at_end = true; bytes = []; after = [] }
read_bytes room i (cc ∷ file) =
    let kept = read_bytes room (i + 1) file in
    let dropped = read_bytes room i file in
    if cc == 13 || cc == 10
    then record { at_end = false; bytes = []; after = file }
    else if ltb i room
    then record kept { bytes = cc ∷ kept.bytes }
    else dropped

-- LINE_BUF_SIZE
abbrev pub line_buf_size : ℕ
line_buf_size = 1024

-- `read_line (fp, line_buf, LINE_BUF_SIZE)`
pub read_line : Text → Line
read_line file = read_bytes (line_buf_size - 1) 0 file

-- The lines that `while (read_line (...) >= 0)` sees. Each takes a byte of the file at least, so
-- the length of the file is enough fuel.
pub read_lines : ℕ → Text → List Text
read_lines zero file = []
read_lines (suc fuel) file =
    let line = read_line file in
    let more = read_lines fuel line.after in if line.at_end then [] else line.bytes ∷ more

unfoldable pub file_lines : Text → List Text
file_lines file = read_lines (length file) file

-- A buffer as a C string ends before its first zero.
unfoldable pub c_string : Text → Text
c_string [] = []
c_string (c ∷ s) = if c == 0 then [] else c ∷ c_string s

-- `strtok (s, " ")`: the token, if there is one, and what is left for the next call.
pub skip_spaces : Text → Text
skip_spaces [] = []
skip_spaces (c ∷ s) = let more = skip_spaces s in if c == 32 then more else c ∷ s

pub token : Text → Text × Text
token [] = ([], [])
token (c ∷ s) = let (word, more) = token s in if c == 32 then ([], s) else (c ∷ word, more)

pub strtok : Text → Option Text × Text
strtok s = elim (skip_spaces s) [
  | [] ↦ (none, [])
  | c ∷ more ↦ let (word, rest) = token (c ∷ more) in (some word, rest)
]

-- `line_buf[0] == '*' && line_buf[1] == '%'`
unfoldable pub is_comment : Text → Bool
is_comment line = get_or line 0 0 == 42 && get_or line 1 0 == 37

-- "*%CNPpdToOptKey"
abbrev pub ppd_to_opt_mark : Text
ppd_to_opt_mark =
    b'*' ∷ b'%' ∷ b'C' ∷ b'N' ∷ b'P' ∷ b'p' ∷ b'd' ∷ b'T' ∷ b'o' ∷ b'O' ∷ b'p' ∷ b't' ∷ b'K' ∷ b'e'
    ∷ b'y' ∷ []

-- A line is a comment whose first token is `mark`.
unfoldable pub has_mark : Text → Text → Bool
has_mark mark line =
    is_comment line
    && elim (strtok (c_string line)).0 [ none ↦ false | some word ↦ same_text word mark ]

-- The first pass: `opt_num`.
unfoldable pub count_marks : Text → List Text → ℕ
count_marks mark [] = 0
count_marks mark (line ∷ lines) =
    let more = count_marks mark lines in if has_mark mark line then more + 1 else more

-- `PpdToOptKey`
pub record PpdToOptKey : Type 0 where
  pub ppd_key : Text
  pub opt_key : Text

-- `strtok (NULL, " ")` twice, after the mark.
pub two_tokens : Text → Option PpdToOptKey
two_tokens line =
    let after_mark = (strtok (c_string line)).1 in
    let (ppd_key, more) = strtok after_mark in
    let (opt_key, end) = strtok more in
    elim ppd_key [
      | none ↦ none
      | some p ↦ elim opt_key [ none ↦ none | some o ↦ some (record { ppd_key = p; opt_key = o }) ]
    ]

-- The second pass: the entries in the order of the file; `malloc` grants a size or not.
pub table_entries : (ℕ → Bool) → List Text → List PpdToOptKey
table_entries grant [] = []
table_entries grant (line ∷ lines) =
    let more = table_entries grant lines in
    if has_mark ppd_to_opt_mark line
    then elim (two_tokens line) [
      | none ↦ more
      | some e ↦ if grant ((length e.ppd_key + 1) + (length e.opt_key + 1)) then e ∷ more else more
    ]
    else more

-- `alloc_opt_key_table` for the contents of the file, if it can be opened: the number of places
-- that were allocated, and the entries before the one that ends the table.
pub alloc_opt_key_table : (ℕ → Bool) → Option Text → Option (ℕ × List PpdToOptKey)
alloc_opt_key_table grant none = none
alloc_opt_key_table grant (some file) =
    let opt_num = count_marks ppd_to_opt_mark (file_lines file) in
    if grant (16 * (opt_num + 1))
    then some (opt_num + 1, table_entries grant (file_lines file))
    else none

-- `ppd_to_opt_key`
pub ppd_to_opt_key : List PpdToOptKey → Text → Option Text
ppd_to_opt_key [] ppd_key = none
ppd_to_opt_key (e ∷ table) ppd_key =
    let more = ppd_to_opt_key table ppd_key in
    if same_text e.ppd_key ppd_key then some e.opt_key else more
