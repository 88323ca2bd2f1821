-- ===== src/Pwg/PackBits/RoundTrip.antt =====
-- A row that `cups_raster_write` compressed reads back as the row.
use cnijfilter.Common.{
  ℕ, zero, suc, ◌+◌, ◌-◌, ◌%◌, ◌≤◌, ◌<◌, ◌≡◌, refl, sym, ap, ◌∙◌, subst, Bool, true, ◌&&◌, not, inl,
  inr, List, [], ◌∷◌, ◌++◌, some, ltb, Bool-cases, take, drop, length, replicate, append_assoc,
  length-append, length-take, length-drop, drop-suc, take-append-drop, length-replicate, All,
  All-drop, All-take, arith, ltb→lt,
}
use cnijfilter.Pwg.PackBits.{
  Bytes, Pixel, Run, same_bytes, concat, repeat_run, literal_run, literal_end, encode_loop,
  encode_row,
}
use cnijfilter.Pwg.PackBits.Decode.{
  decode_row, decode_row-zero, HasSize, read_group-repeat, read_group-copy, decode_row-group,
}

pub same_bytes→eq : (xs ys : Bytes) → same_bytes xs ys ≡ true → xs ≡ ys
unfolding same_bytes
same_bytes→eq [] [] h = refl
same_bytes→eq [] (y ∷ ys) h = cc
same_bytes→eq (x ∷ xs) [] h = cc
same_bytes→eq (x ∷ xs) (y ∷ ys) h = ground (arith, same_bytes→eq xs ys)

and_true : (a b : Bool) → (a && b) ≡ true → (a ≡ true) × (b ≡ true)
and_true a b h = ground arith

-- What the run loops leave: how many pixels they passed, and that these equal the first one.
pub record Repeats (count : ℕ) (here : Pixel) (after : List Pixel) (r : Run) : Type 0 where
  pub passed : ℕ
  pub counted : r.count ≡ count + passed
  pub same : r.here ≡ here
  pub bound : r.count ≤ 128
  pub split : here ∷ after ≡ replicate (suc passed) here ++ r.after
  pub rest : r.after ≡ drop (suc passed) (here ∷ after)

module _ (count : ℕ) (here next : Pixel) (after : List Pixel) (r : Run) where
  Repeats-next :
      ltb count 128 && same_bytes here next ≡ true
      → Repeats (count + 1) next after r
      → Repeats count here (next ∷ after) r
  Repeats-next t ih = record {
    passed = suc ih.passed;
    counted = omega (arith, ih.counted);
    same = ih.same ∙ sym here_next;
    bound = ih.bound;
    split =
        ap (λ q. here ∷ q)
          (subst (λ x. next ∷ after ≡ replicate (suc ih.passed) x ++ r.after) (sym here_next)
            ih.split);
    rest = ih.rest;
  }
    where
      here_next : here ≡ next
      here_next = same_bytes→eq here next (and_true (ltb count 128) (same_bytes here next) t).1

pub repeat_run-Repeats :
    (count : ℕ) (here : Pixel) (after : List Pixel)
    → count ≤ 128
    → Repeats count here after (repeat_run count here after)
unfolding repeat_run
repeat_run-Repeats count here [] h = record {
  passed = 0;
  counted = omega arith;
  same = refl;
  bound = h;
  split = refl;
  rest = refl;
}
repeat_run-Repeats count here (next ∷ after) h =
    elim (Bool-cases (ltb count 128 && same_bytes here next)) [
      | inl t ↦ rw t (
          Repeats-next count here next after _ t (
            repeat_run-Repeats (count + 1) next after
              (omega (arith, ltb→lt count 128 (and_true _ _ t).0))))
      | inr f ↦ rw f (record {
        passed = 0;
        counted = omega arith;
        same = refl;
        bound = h;
        split = refl;
        rest = refl;
      })
    ]

pub record Copies (count : ℕ) (here : Pixel) (after : List Pixel) (r : Run) : Type 0 where
  pub passed : ℕ
  pub counted : r.count ≡ count + passed
  pub bound : r.count ≤ 128
  pub rest : r.here ∷ r.after ≡ drop passed (here ∷ after)
  pub inside : passed ≤ length after

Copies-next :
    (count : ℕ) (here next : Pixel) (after : List Pixel) (r : Run)
    → Copies (count + 1) next after r
    → Copies count here (next ∷ after) r
Copies-next count here next after r ih = record {
  passed = suc ih.passed;
  counted = omega (arith, ih.counted);
  bound = ih.bound;
  rest = ih.rest;
  inside = omega (arith, ih.inside);
}

pub literal_run-Copies :
    (count : ℕ) (here : Pixel) (after : List Pixel)
    → count ≤ 128
    → Copies count here after (literal_run count here after)
unfolding literal_run
literal_run-Copies count here [] h = record {
  passed = 0;
  counted = omega arith;
  bound = h;
  rest = refl;
  inside = omega arith;
}
literal_run-Copies count here (next ∷ after) h =
    elim (Bool-cases (ltb count 128 && not (same_bytes here next))) [
      | inl t ↦ rw t (
          Copies-next count here next after _ (
            literal_run-Copies (count + 1) next after
              (omega (arith, ltb→lt count 128 (and_true _ _ t).0))))
      | inr f ↦ rw f (record {
        passed = 0;
        counted = omega arith;
        bound = h;
        rest = refl;
        inside = omega arith;
      })
    ]

-- `literal_end` gives a count of 1 to 128 pixels of the row, and `ptr` stands behind them.
pub record Taken (row : List Pixel) (c : ℕ × List Pixel) : Type 0 where
  pub some_pixel : 1 ≤ c.0
  pub bound : c.0 ≤ 128
  pub inside : c.0 ≤ length row
  pub rest : c.1 ≡ drop c.0 row

pub literal_end-Taken :
    (start next here : Pixel) (after rest : List Pixel) (p count : ℕ)
    → count ≡ suc p
    → count ≤ 128
    → p ≤ length after
    → here ∷ rest ≡ drop p (next ∷ after)
    → Taken (start ∷ next ∷ after) (literal_end count here rest)
unfolding literal_end
literal_end-Taken start next here after (x ∷ rest) p count e b i d = record {
  some_pixel = omega arith;
  bound = b;
  inside = omega arith;
  rest = rw e d;
}
literal_end-Taken start next here after [] p count e b i d = elim (Bool-cases (ltb count 128)) [
  | inl t ↦ rw t (record {
    some_pixel = omega arith;
    bound = omega (arith, ltb→lt count 128 t);
    inside = omega arith;
    rest = rw two (ap (drop 1) d ∙ sym (drop-suc p (next ∷ after)));
  })
  | inr f ↦
      rw f (record { some_pixel = omega arith; bound = b; inside = omega arith; rest = rw e d })
]
  where
    two : count + 1 ≡ suc (suc p)
    two = omega arith

-- What stands behind the first pixel is shorter than the row, and its pixels are the row's.
pub shorter :
    (n f : ℕ) (p : Pixel) (row ptr : List Pixel)
    → ptr ≡ drop n (p ∷ row)
    → 1 ≤ n
    → length (p ∷ row) ≤ suc f
    → length ptr ≤ f
shorter n f p row ptr e h l = omega (arith, ap length e, length-drop n (p ∷ row))

module _ (bpp fd : ℕ) (p q : Pixel) (row : List Pixel) (more rest : Bytes) where
  -- A code and a pixel stand for a run of that pixel.
  repeat_step :
      (r : Run)
      → p ≡ q
      → Repeats 2 q row r
      → length p ≡ bpp
      → decode_row fd bpp (length r.after) (more ++ rest) ≡ some (r.after, rest)
      → decode_row
          (suc fd)
          bpp
          (length (p ∷ q ∷ row))
          ((((r.count - 1) % 256 ∷ r.here) ++ more) ++ rest)
        ≡ some (p ∷ q ∷ row, rest)
  repeat_step r e k s ih =
      rw (code, append_assoc r.here more rest)
        (decode_row-group fd bpp _ (suc k.passed) (replicate (suc k.passed + 1) r.here) r.after _
            (more ++ rest) rest
            (read_group-repeat bpp (suc k.passed) r.here (more ++ rest) small (ap length first ∙ s))
            ih (omega (arith, long)) (omega (arith, long, total))
          ∙ rw (one_more, first) (ap (λ x. some (x, rest)) (sym whole)))
    where
      code : (r.count - 1) % 256 ≡ suc k.passed
      code = omega (arith, k.counted, k.bound)

      small : suc k.passed < 128
      small = omega (arith, k.counted, k.bound)

      first : r.here ≡ p
      first = k.same ∙ sym e

      one_more : suc k.passed + 1 ≡ suc (suc k.passed)
      one_more = omega arith

      long : length (replicate (suc k.passed + 1) r.here) ≡ suc k.passed + 1
      long = length-replicate _ r.here

      whole : p ∷ q ∷ row ≡ replicate (suc (suc k.passed)) p ++ r.after
      whole = ap (λ x. p ∷ x) (k.split ∙ rw e)

      total : length (p ∷ q ∷ row) ≡ suc (suc k.passed) + length r.after
      total =
          ap length whole
          ∙ length-append (replicate (suc (suc k.passed)) p) r.after
          ∙ ap (λ x. x + length r.after) (length-replicate (suc (suc k.passed)) p)

  -- A code and some pixels stand for these pixels.
  copy_step :
      (n : ℕ) (ptr : List Pixel)
      → Taken (p ∷ q ∷ row) (n, ptr)
      → All (HasSize bpp) (p ∷ q ∷ row)
      → decode_row fd bpp (length ptr) (more ++ rest) ≡ some (ptr, rest)
      → decode_row
          (suc fd)
          bpp
          (length (p ∷ q ∷ row))
          ((((257 - n) % 256 ∷ concat (take n (p ∷ q ∷ row))) ++ more) ++ rest)
        ≡ some (p ∷ q ∷ row, rest)
  copy_step n ptr k s ih = rw (append_assoc (concat (take n (p ∷ q ∷ row))) more rest) (
      decode_row-group fd bpp _ ((257 - n) % 256) (take n (p ∷ q ∷ row)) ptr _ (more ++ rest) rest
        (read_group-copy bpp n (take n (p ∷ q ∷ row)) (more ++ rest) k.bound k.some_pixel
          (All-take (HasSize bpp) n _ s) long)
        ih (omega (arith, long, k.some_pixel)) (omega (arith, long, left, k.inside))
      ∙ ap (λ x. some (take n (p ∷ q ∷ row) ++ x, rest)) k.rest
      ∙ ap (λ x. some (x, rest)) (take-append-drop n (p ∷ q ∷ row)))
    where
      long : length (take n (p ∷ q ∷ row)) ≡ n
      long = omega (arith, length-take n (p ∷ q ∷ row), k.inside)

      left : length ptr ≡ length (p ∷ q ∷ row) - n
      left = ap length k.rest ∙ length-drop n (p ∷ q ∷ row)

module _ (bpp : ℕ) where
  -- The loop's output reads back as the row, whatever follows it.
  decode_row-encode_loop :
      (fe fd : ℕ) (row : List Pixel) (rest : Bytes)
      → All (HasSize bpp) row
      → length row ≤ fe
      → length row ≤ fd
      → decode_row fd bpp (length row) (encode_loop fe row ++ rest) ≡ some (row, rest)
  unfolding encode_loop
  decode_row-encode_loop fe fd [] rest s he hd = decode_row-zero fd bpp rest
  decode_row-encode_loop zero fd (p ∷ row) rest s he hd = absurd (omega arith)
  decode_row-encode_loop (suc fe) zero (p ∷ row) rest s he hd = absurd (omega arith)
  decode_row-encode_loop (suc fe) (suc fd) (p ∷ []) rest s he hd =
      decode_row-group fd bpp 1 0 (p ∷ []) [] (p ++ rest) rest rest
        (read_group-repeat bpp 0 p rest (omega arith) s.0) (decode_row-zero fd bpp rest)
        (omega arith) refl
  decode_row-encode_loop (suc fe) (suc fd) (p ∷ q ∷ row) rest s he hd =
      elim (Bool-cases (same_bytes p q)) [
        | inl t ↦ rw t (
            let run = repeat_run 2 q row in
            let k = repeat_run-Repeats 2 q row (omega arith) in
            let e = same_bytes→eq p q t in
            repeat_step bpp fd p q row (encode_loop fe run.after) rest run e k s.0 (
              decode_row-encode_loop fe fd run.after rest
                (subst (All (HasSize bpp)) (sym k.rest)
                  (All-drop (HasSize bpp) (suc k.passed) (q ∷ row) s.1))
                (shorter (suc (suc k.passed)) fe p (q ∷ row) run.after k.rest (omega arith) he)
                (shorter (suc (suc k.passed)) fd p (q ∷ row) run.after k.rest (omega arith) hd)))
        | inr f ↦ rw f (
            let lit = literal_run 1 q row in
            let c = literal_run-Copies 1 q row (omega arith) in
            let end = literal_end lit.count lit.here lit.after in
            let k =
              literal_end-Taken p q lit.here row lit.after c.passed lit.count
                (omega (arith, c.counted)) c.bound c.inside c.rest in
            copy_step bpp fd p q row (encode_loop fe end.1) rest end.0 end.1 k s (
              decode_row-encode_loop fe fd end.1 rest
                (subst (All (HasSize bpp)) (sym k.rest)
                  (All-drop (HasSize bpp) end.0 (p ∷ q ∷ row) s))
                (shorter end.0 fe p (q ∷ row) end.1 k.rest k.some_pixel he)
                (shorter end.0 fd p (q ∷ row) end.1 k.rest k.some_pixel hd)))
      ]

-- The compressed row reads back as the row, whatever follows it, for every row whose pixels have
-- `bpp` bytes.
pub decode_row-encode_row :
    (bpp : ℕ) (row : List Pixel) (rest : Bytes)
    → All (HasSize bpp) row
    → decode_row (length row) bpp (length row) (encode_row row ++ rest) ≡ some (row, rest)
unfolding encode_row
decode_row-encode_row bpp row rest s =
    decode_row-encode_loop bpp (length row) (length row) row rest s (omega arith) (omega arith)
