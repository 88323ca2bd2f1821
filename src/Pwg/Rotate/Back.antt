-- ===== src/Pwg/Rotate/Back.antt =====
-- What the loop that reads the temporary file back writes: the first lines, from the last to the
-- first.
use cnijfilter.Common.{
  ℕ, zero, suc, ◌*◌, ◌≤◌, ◌≡◌, refl, sym, ap, ◌∙◌, List, [], ◌∷◌, ◌++◌, reverse, append_assoc,
  append-nil, take, drop, length, All, take-append_length, drop-append_length, take-append-drop,
  length-take, All-take, All-split, subst, nil_of_length, length-drop, arith,
}
use mathlib.Core.List.{reverse-append}
use cnijfilter.Pwg.PackBits.{Bytes}
use cnijfilter.Pwg.Device.{Device}
use cnijfilter.Pwg.Raster.{Raster, write_pixels}
use cnijfilter.Pwg.Raster.Write.{write_all, joined}
use cnijfilter.Pwg.Raster.Lines.{joined-append, length-joined}
use cnijfilter.Pwg.Rotate.{read_at, print_back}

-- A line of the file that has the length of the buffer fills it.
read_at_line :
    (fd : Device) (before line behind out_ptr : Bytes)
    → fd.bytes ≡ before ++ (line ++ behind)
    → length line ≡ length out_ptr
    → read_at fd (length before) out_ptr ≡ line
unfolding read_at
read_at_line fd before line behind out_ptr e l =
    rw
      (
        e,
        drop-append_length (length before) before (line ++ behind) refl,
        take-append_length (length out_ptr) line behind l,
        nil_of_length (drop (length line) out_ptr)
            (length-drop (length line) out_ptr ∙ omega (arith, l)),
      )
      (append-nil line)

-- A list of `suc n` lines and its last one.
record Snoc (n : ℕ) (xs : List Bytes) : Type 0 where
  front : List Bytes
  last : Bytes
  split : xs ≡ front ++ (last ∷ [])
  count : length front ≡ n

split_last : (n : ℕ) (xs : List Bytes) → length xs ≡ suc n → Snoc n xs
split_last n [] h = absurd (omega arith)
split_last zero (x ∷ []) h = record { front = []; last = x; split = refl; count = refl }
split_last zero (x ∷ (y ∷ xs)) h = absurd (omega arith)
split_last (suc n) (x ∷ xs) h =
    let s = split_last n xs (omega arith) in
    record {
      front = x ∷ s.front;
      last = s.last;
      split = ap (λ t. x ∷ t) s.split;
      count = ap suc s.count;
    }

module _ (size : ℕ) (fd : Device) where
  print_back-reverse :
      (n : ℕ) (lines : List Bytes) (behind out_ptr : Bytes) (r : Raster)
      → length lines ≡ n
      → All (λ x. length x ≡ size) lines
      → length out_ptr ≡ size
      → fd.bytes ≡ joined lines ++ behind
      → print_back size n fd out_ptr r ≡ write_all r (reverse lines)
  unfolding print_back write_all joined
  print_back-reverse zero lines behind out_ptr r c a o e =
      ap (λ ls. write_all r (reverse ls)) (sym (nil_of_length lines c))
  print_back-reverse (suc n) lines behind out_ptr r c a o e =
      let s = split_last n lines c in
      let all =
        All-split (λ x. length x ≡ size) s.front (s.last ∷ [])
          (subst (All (λ x. length x ≡ size)) s.split a) in
      let bytes : fd.bytes ≡ joined s.front ++ (s.last ++ behind) =
        e
        ∙ ap (λ ls. joined ls ++ behind) s.split
        ∙ ap (λ b. b ++ behind)
            (joined-append s.front (s.last ∷ [])
              ∙ ap (λ b. joined s.front ++ b) (append-nil s.last))
        ∙ append_assoc (joined s.front) s.last behind in
      let place : length (joined s.front) ≡ n * size =
        length-joined size s.front all.0 ∙ ap (λ k. k * size) s.count in
      let line : read_at fd (n * size) out_ptr ≡ s.last =
        ap (λ k. read_at fd k out_ptr) (sym place)
        ∙ read_at_line fd (joined s.front) s.last behind out_ptr bytes (all.1.0 ∙ sym o) in
      rw (line, print_back)
        (print_back-reverse n s.front (s.last ++ behind) s.last (write_pixels r s.last).1 s.count
            all.0 all.1.0 bytes
          ∙ ap (write_all r) (sym (ap reverse s.split ∙ reverse-append s.front (s.last ∷ []))))

  -- The first `n` lines of a file of lines go out from the last of them to the first.
  pub print_back-take :
      (n : ℕ) (lines : List Bytes) (out_ptr : Bytes) (r : Raster)
      → n ≤ length lines
      → All (λ x. length x ≡ size) lines
      → length out_ptr ≡ size
      → fd.bytes ≡ joined lines
      → print_back size n fd out_ptr r ≡ write_all r (reverse (take n lines))
  print_back-take n lines out_ptr r h a o e =
      print_back-reverse n (take n lines) (joined (drop n lines)) out_ptr r
        (omega (arith, length-take n lines)) (All-take _ n lines a) o
        (e
          ∙ ap joined (sym (take-append-drop n lines))
          ∙ joined-append (take n lines) (drop n lines))
