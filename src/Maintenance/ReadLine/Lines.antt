-- ===== src/Maintenance/ReadLine/Lines.antt =====
-- The lines that are read are those of the file, however its bytes come; and a signal stops it.
use cnijfilter.Common.{
  ℕ, zero, suc, ◌<◌, ◌≡◌, refl, sym, ap, ◌∙◌, subst, min, false, Bool-cases, inl, inr, Option, none,
  some, List, [], ◌∷◌, ◌++◌, take, drop, length, All, take-append-drop, if◌then◌else◌, arith,
}
use cnijfilter.Pwg.PackBits.{Bytes}
use cnijfilter.Posix.{Source, ReadAnswer, offers, read_interrupted, read_refused, read_once}
use cnijfilter.Maintenance.ReadLine.{
  read_buf_size, is_return, Held, holding, no_bytes, Reader, filled, fill, put_before,
  read_text_line,
}

-- The bytes of a text up to a return, at most so many.
unfoldable pub line_of : ℕ → Bytes → Bytes
line_of zero text = []
line_of (suc n) [] = []
line_of (suc n) (b ∷ text) = let more = line_of n text in if is_return b then b ∷ [] else b ∷ more

-- A read that brings a byte at least, and is not interrupted.
abbrev pub IsByteOffer : ReadAnswer → Type 0
IsByteOffer (offers n) = 0 < n
IsByteOffer read_interrupted = ⊥
IsByteOffer read_refused = ⊥

-- What is left to read.
abbrev pub rest_of : Reader → Bytes
rest_of r = elim r.held [ holding held ↦ held ++ r.input.bytes | no_bytes ↦ r.input.bytes ]

-- The buffer is in order and each read brings a byte at least, if there is one.
abbrev pub IsOffering : Reader → Type 0
IsOffering r =
    (elim r.held [ holding held ↦ Unit | no_bytes ↦ ⊥ ]) × All IsByteOffer r.input.answers

-- A buffer that is filled has a byte, or there is none left.
pub record Filled (all : Bytes) (r : Reader) : Type 0 where
  pub bytes : Bytes
  pub held : r.held ≡ holding bytes
  pub joined : bytes ++ r.input.bytes ≡ all
  pub offering : All IsByteOffer r.input.answers
  pub empty : bytes ≡ [] → all ≡ []

none_taken : (n : ℕ) (text : Bytes) → 0 < n → take n text ≡ [] → text ≡ []
none_taken zero text p h = absurd (omega arith)
none_taken (suc n) [] p h = refl
none_taken (suc n) (b ∷ text) p h = cc

read-Filled :
    (bytes : Bytes) (answers : List ReadAnswer)
    → All IsByteOffer answers
    → Filled bytes (filled (read_once (record { bytes = bytes; answers = answers }) read_buf_size))
unfolding read_once filled
read-Filled bytes [] a = record {
  bytes = take read_buf_size bytes;
  held = refl;
  joined = take-append-drop read_buf_size bytes;
  offering = tt;
  empty = none_taken read_buf_size bytes (omega arith);
}
read-Filled bytes (offers k ∷ more) a = record {
  bytes = take (min k read_buf_size) bytes;
  held = refl;
  joined = take-append-drop (min k read_buf_size) bytes;
  offering = a.1;
  empty = none_taken (min k read_buf_size) bytes (omega (arith, a.0));
}
read-Filled bytes (read_interrupted ∷ more) a = absurd a.0
read-Filled bytes (read_refused ∷ more) a = absurd a.0

fill-Filled : (r : Reader) → IsOffering r → Filled (rest_of r) (fill r)
unfolding fill
fill-Filled r h = by_held r.held h.0
  where
    by_held :
        (x : Held)
        → (elim x as (λ y. Type 0) [ holding held ↦ Unit | no_bytes ↦ ⊥ ])
        → Filled
            (rest_of (record { held = x; input = r.input }))
            (fill (record { held = x; input = r.input }))
    by_held no_bytes g = absurd g
    by_held (holding []) g = unfold fill in read-Filled r.input.bytes r.input.answers h.1
    by_held (holding (b ∷ more)) g =
        unfold fill in
        record { bytes = b ∷ more; held = refl; joined = refl; offering = h.1; empty = λ e. cc }

-- A line was read, and what is left is what stood behind it.
pub record Line (bytes : ℕ) (all : Bytes) (o : Option (Bytes × Reader)) : Type 0 where
  pub after : Reader
  pub is_line : o ≡ some (line_of bytes all, after)
  pub left : rest_of after ≡ drop (length (line_of bytes all)) all
  pub offering : IsOffering after

-- A round of the loop, with the buffer as it is after `fill`.
abbrev after_fill : ℕ → ℕ → Source → Held → Option (Bytes × Reader)
after_fill fuel n input x = elim x as (λ y. Option (Bytes × Reader)) [
  | no_bytes ↦ read_text_line fuel (suc n) (record { held = x; input = input })
  | holding held ↦ elim held as (λ y. Option (Bytes × Reader)) [
    | [] ↦ some ([], record { held = x; input = input })
    | b ∷ more ↦
        let r' : Reader = record { held = holding more; input = input } in
        let later = put_before b (read_text_line fuel n r') in
        if is_return b then some (b ∷ [], r') else later
  ]
]

Line-put_before :
    (n b : ℕ) (all : Bytes) (o : Option (Bytes × Reader))
    → is_return b ≡ false
    → Line n all o
    → Line (suc n) (b ∷ all) (put_before b o)
unfolding put_before line_of
Line-put_before n b all o h l =
    let e : line_of (suc n) (b ∷ all) ≡ b ∷ line_of n all = rw (h, line_of) refl in
    record {
      after = l.after;
      is_line = ap (put_before b) l.is_line ∙ ap (λ t. some (t, l.after)) (sym e);
      left = l.left ∙ ap (λ t. drop (length t) (b ∷ all)) (sym e);
      offering = l.offering;
    }

after_fill-Line :
    (fuel n : ℕ) (input : Source) (bs : Bytes)
    → (bs ≡ [] → bs ++ input.bytes ≡ [])
    → All IsByteOffer input.answers
    → ((r : Reader) → IsOffering r → Line n (rest_of r) (read_text_line fuel n r))
    → Line (suc n) (bs ++ input.bytes) (after_fill fuel n input (holding bs))
unfolding line_of
after_fill-Line fuel n input [] k o ih =
    let none_left : input.bytes ≡ [] = k refl in
    subst (λ a. Line (suc n) a (after_fill fuel n input (holding []))) (sym none_left)
      (record {
        after = record { held = holding []; input = input };
        is_line = refl;
        left = none_left;
        offering = (tt, o);
      })
after_fill-Line fuel n input (b ∷ more) k o ih =
    let r' : Reader = record { held = holding more; input = input } in
    elim (Bool-cases (is_return b)) [
      | inl t ↦
          let e : line_of (suc n) (b ∷ (more ++ input.bytes)) ≡ b ∷ [] = rw (t, line_of) refl in
          rw t (record {
            after = r';
            is_line = ap (λ l. some (l, r')) (sym e);
            left = ap (λ l. drop (length l) (b ∷ (more ++ input.bytes))) (sym e);
            offering = (tt, o);
          })
      | inr t ↦
          let goal =
            Line-put_before n b (more ++ input.bytes) (read_text_line fuel n r') t
              (ih r' (tt, o)) in
          rw t goal
    ]

-- Where the buffer is in order, and each read brings a byte at least, if there is one: with a round
-- for each byte asked for and one more, the bytes that come are those of the next line of the file,
-- or as many as are asked for, however the reads split them; and the rest of the file is left.
pub read_text_line-Line :
    (fuel bytes : ℕ) (r : Reader)
    → bytes < fuel
    → IsOffering r
    → Line bytes (rest_of r) (read_text_line fuel bytes r)
unfolding read_text_line line_of
read_text_line-Line zero bytes r h o = absurd (omega arith)
read_text_line-Line (suc fuel) zero r h o = record {
  after = r;
  is_line = refl;
  left = refl;
  offering = o;
}
read_text_line-Line (suc fuel) (suc n) r h o =
    let f = fill-Filled r o in
    subst (λ a. Line (suc n) a (read_text_line (suc fuel) (suc n) r)) f.joined
      (subst
        (λ x. Line (suc n) (f.bytes ++ (fill r).input.bytes) (after_fill fuel n (fill r).input x))
        (sym f.held)
        (after_fill-Line fuel n (fill r).input f.bytes (λ e. f.joined ∙ f.empty e) f.offering
          (λ r' o'. read_text_line-Line fuel n r' (omega (arith, h)) o')))

-- The bytes are gone: the loop goes on for ever.
no_bytes_stuck :
    (fuel n : ℕ) (input : Source)
    → read_text_line fuel (suc n) (record { held = no_bytes; input = input }) ≡ none
unfolding read_text_line fill
no_bytes_stuck zero n input = refl
no_bytes_stuck (suc fuel) n input = no_bytes_stuck fuel n input

-- A read that a signal interrupts, where the buffer is empty and a byte is asked for: the loop has
-- not ended after any number of rounds.
pub read_text_line_interrupted :
    (fuel n : ℕ) (bytes : Bytes) (more : List ReadAnswer)
    → read_text_line fuel (suc n) (record {
      held = holding [];
      input = record { bytes = bytes; answers = read_interrupted ∷ more };
    })
      ≡ none
unfolding read_text_line fill filled read_once
read_text_line_interrupted zero n bytes more = refl
read_text_line_interrupted (suc fuel) n bytes more = no_bytes_stuck fuel n _
