-- ===== src/Canonij/Table/Entries.antt =====
-- The table that is read from a PPD file holds the entries that were written into it.
use cnijfilter.Common.{
  ◌+◌, ◌≤◌, ◌<◌, ◌≡◌, refl, false, some, List, [], ◌∷◌, ◌++◌, ◌==◌, length, All, arith,
}
use cnijfilter.Text.{Text}
use cnijfilter.Canonij.Table.{
  line_buf_size, strtok, skip_spaces, token, c_string, has_mark, ppd_to_opt_mark, PpdToOptKey,
}
use cnijfilter.Canonij.Table.Lines.{IsInner}

-- A line of the file: an entry, or another line.
pub data PpdLine : Type 0 where
  entry : PpdToOptKey → PpdLine
  other : Text → PpdLine

unfoldable pub render : PpdLine → Text
render (entry e) = ppd_to_opt_mark ++ (32 ∷ (e.ppd_key ++ (32 ∷ e.opt_key)))
render (other line) = line

-- A word: not empty, and without spaces and control characters.
pub record IsWord (w : Text) : Type 0 where
  pub some_byte : 0 < length w
  pub bytes : All (λ c. 32 < c) w

-- A line that fits the buffer; an entry of two words, or a line without the mark.
abbrev pub IsLine : PpdLine → Type 0
IsLine (entry e) =
    IsWord e.ppd_key × IsWord e.opt_key × (17 + length e.ppd_key + length e.opt_key < line_buf_size)
IsLine (other line) =
    All IsInner line × (length line < line_buf_size) × (has_mark ppd_to_opt_mark line ≡ false)

unfoldable pub entries_of : List PpdLine → List PpdToOptKey
entries_of [] = []
entries_of (entry e ∷ ls) = e ∷ entries_of ls
entries_of (other line ∷ ls) = entries_of ls

token-word : (w rest : Text) → All (λ c. 32 < c) w → token (w ++ (32 ∷ rest)) ≡ (w, rest)
unfolding token
token-word [] rest h = refl
token-word (c ∷ w) rest h =
    let e : (c == 32) ≡ false = ground arith in rw (e, token-word w rest h.1) refl

token-last : (w : Text) → All (λ c. 32 < c) w → token w ≡ (w, [])
unfolding token
token-last [] h = refl
token-last (c ∷ w) h = let e : (c == 32) ≡ false = ground arith in rw (e, token-last w h.1) refl

pub strtok-word : (w rest : Text) → IsWord w → strtok (w ++ (32 ∷ rest)) ≡ (some w, rest)
unfolding strtok skip_spaces
strtok-word [] rest h = absurd (omega (arith, h.some_byte))
strtok-word (c ∷ w) rest h =
    let e : (c == 32) ≡ false = ground (arith, h.bytes) in
    rw (e, strtok, token-word (c ∷ w) rest h.bytes) refl

pub strtok-last : (w : Text) → IsWord w → strtok w ≡ (some w, [])
unfolding strtok skip_spaces
strtok-last [] h = absurd (omega (arith, h.some_byte))
strtok-last (c ∷ w) h =
    let e : (c == 32) ≡ false = ground (arith, h.bytes) in
    rw (e, strtok, token-last (c ∷ w) h.bytes) refl

pub c_string-whole : (s : Text) → All (λ c. 32 ≤ c) s → c_string s ≡ s
unfolding c_string
c_string-whole [] h = refl
c_string-whole (c ∷ s) h =
    let e : (c == 0) ≡ false = ground arith in rw (e, c_string-whole s h.1) refl

pub printed : (w : Text) → All (λ c. 32 < c) w → All (λ c. 32 ≤ c) w
printed [] h = tt
printed (c ∷ w) h = (omega arith, printed w h.1)

pub inner : (s : Text) → All (λ c. 32 ≤ c) s → All IsInner s
inner [] h = tt
inner (c ∷ s) h = (ground arith, inner s h.1)
