-- ===== src/Canonij/Table/Lines.antt =====
-- The tables are as long as was allocated, and hold what the file says.
use cnijfilter.Common.{
  ℕ, zero, suc, ◌+◌, ◌-◌, ◌*◌, ◌≤◌, ◌<◌, ◌≡◌, refl, Bool, true, false, Bool-cases, inl, inr, Option,
  none, some, List, [], ◌∷◌, ◌++◌, if◌then◌else◌, ◌||◌, ltb, ◌==◌, length, All, length-append,
  arith,
}
use cnijfilter.Text.{Text}
use cnijfilter.Canonij.Table.{
  read_bytes, line_buf_size, read_line, read_lines, file_lines, has_mark, count_marks,
  ppd_to_opt_mark, PpdToOptKey, two_tokens, table_entries, alloc_opt_key_table,
}

-- Each entry has a mark, so the table holds at most `opt_num` of them.
table_entries-le :
    (grant : ℕ → Bool) (lines : List Text)
    → length (table_entries grant lines) ≤ count_marks ppd_to_opt_mark lines
unfolding table_entries count_marks
table_entries-le grant [] = omega arith
table_entries-le grant (line ∷ lines) = elim (Bool-cases (has_mark ppd_to_opt_mark line)) [
  | inl h ↦ rw h (marked (two_tokens line) (table_entries-le grant lines))
  | inr h ↦ rw h (table_entries-le grant lines)
]
  where
    marked :
        (o : Option PpdToOptKey)
        → length (table_entries grant lines) ≤ count_marks ppd_to_opt_mark lines
        → length (elim o as (λ x. List PpdToOptKey) [
          | none ↦ table_entries grant lines
          | some e ↦
              if grant ((length e.ppd_key + 1) + (length e.opt_key + 1))
              then e ∷ table_entries grant lines
              else table_entries grant lines
        ])
          ≤ count_marks ppd_to_opt_mark lines + 1
    marked none k = omega arith
    marked (some e) k =
        elim (Bool-cases (grant ((length e.ppd_key + 1) + (length e.opt_key + 1)))) [
          | inl g ↦ rw g (omega arith)
          | inr g ↦ rw g (omega arith)
        ]

-- The bytes of lines, each with a line feed.
unfoldable pub joined_lines : List Text → Text
joined_lines [] = []
joined_lines (l ∷ ls) = l ++ (10 ∷ joined_lines ls)

-- A byte that does not end a line.
abbrev pub IsInner : ℕ → Type 0
IsInner c = (c == 13 || c == 10) ≡ false

read_bytes-line :
    (room i : ℕ) (line after : Text)
    → All IsInner line
    → i + length line ≤ room
    → read_bytes room i (line ++ (10 ∷ after))
      ≡ record { at_end = false; bytes = line; after = after }
unfolding read_bytes
read_bytes-line room i [] after h l = refl
read_bytes-line room i (c ∷ line) after h l =
    let e : ltb i room ≡ true = ground arith in
    let more = read_bytes-line room (i + 1) line after h.1 (omega arith) in rw (h.0, e, more) refl

read_lines-joined_lines :
    (fuel : ℕ) (ls : List Text)
    → All (λ l. All IsInner l × (length l < line_buf_size)) ls
    → length (joined_lines ls) ≤ fuel
    → read_lines fuel (joined_lines ls) ≡ ls
unfolding read_lines joined_lines read_line read_bytes
read_lines-joined_lines zero [] h k = refl
read_lines-joined_lines zero (l ∷ ls) h k =
    absurd (omega (arith, length-append l (10 ∷ joined_lines ls)))
read_lines-joined_lines (suc fuel) [] h k = refl
read_lines-joined_lines (suc fuel) (l ∷ ls) h k =
    let line : read_line (l ++ (10 ∷ joined_lines ls))
        ≡ record { at_end = false; bytes = l; after = joined_lines ls } =
      read_bytes-line (line_buf_size - 1) 0 l (joined_lines ls) h.0.0 (omega (arith, h.0.1)) in
    let more =
      read_lines-joined_lines fuel ls h.1 (omega (arith, length-append l (10 ∷ joined_lines ls))) in
    rw (line, more) refl

-- Lines that fit the buffer read back as they were written.
pub file_lines-joined_lines :
    (ls : List Text)
    → All (λ l. All IsInner l × (length l < line_buf_size)) ls
    → file_lines (joined_lines ls) ≡ ls
unfolding file_lines
file_lines-joined_lines ls h = read_lines-joined_lines (length (joined_lines ls)) ls h (omega arith)

-- The entries and the one that ends the table have places.
abbrev pub IsWithin : Option (ℕ × List PpdToOptKey) → Type 0
IsWithin none = Unit
IsWithin (some t) = length t.1 < t.0

-- For any file, and whatever memory is granted, the table that is made has room for its entries and
-- for the end mark.
pub alloc_opt_key_table-IsWithin :
    (grant : ℕ → Bool) (file : Text) → IsWithin (alloc_opt_key_table grant (some file))
unfolding alloc_opt_key_table
alloc_opt_key_table-IsWithin grant file =
    elim (Bool-cases (grant (16 * (count_marks ppd_to_opt_mark (file_lines file) + 1)))) [
      | inl g ↦ rw g (omega (arith, table_entries-le grant (file_lines file)))
      | inr g ↦ rw g tt
    ]
