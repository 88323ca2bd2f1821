-- ===== src/Pwg/PackBits/Size.antt =====
-- How many bytes a compressed row has.
use cnijfilter.Common.{
  ℕ, zero, suc, ◌+◌, ◌*◌, ◌-◌, ◌%◌, ◌≤◌, ◌<◌, ◌≡◌, sym, ap, ◌∙◌, subst, inl, inr, List, [], ◌∷◌,
  ◌++◌, leb, Bool-cases, replicate, length-replicate, take, length, length-append, length-take,
  length-drop, All, All-drop, All-take, arith,
}
use cnijfilter.Pwg.PackBits.{
  Bytes, Pixel, same_bytes, concat, repeat_run, literal_run, literal_end, encode_loop, encode_row,
}
use cnijfilter.Pwg.PackBits.Decode.{HasSize}
use cnijfilter.Pwg.PackBits.Pixels.{length-concat}
use cnijfilter.Pwg.PackBits.RoundTrip.{
  repeat_run-Repeats, literal_run-Copies, Taken, literal_end-Taken, shorter,
}

-- A single pixel that is copied has two behind it.
literal_end_lone :
    (count : ℕ) (here : Pixel) (rest : List Pixel)
    → 1 ≤ count
    → (literal_end count here rest).0 ≡ 1
    → 2 ≤ length (literal_end count here rest).1
unfolding literal_end
literal_end_lone count here [] h e = ground arith
literal_end_lone count here (x ∷ rest) h e = omega arith

-- What the code of some pixels may have: twice their bytes, less one, but for a single byte.
abbrev Fits : ℕ → ℕ → Bytes → Type 0
Fits bpp n code = (length code ≤ 2 * (n * bpp)) × (2 ≤ n * bpp → 1 + length code ≤ 2 * (n * bpp))

module _ (bpp : ℕ) (positive : 0 < bpp) where
  strong_Fits : (n : ℕ) (code : Bytes) → 1 + length code ≤ 2 * (n * bpp) → Fits bpp n code
  strong_Fits n code h = (omega (arith, h), λ k. h)

  repeat_Fits :
      (n passed left : ℕ) (here : Pixel) (code : ℕ) (more : Bytes)
      → n ≡ 2 + passed + left
      → length here ≡ bpp
      → length more ≤ 2 * (left * bpp)
      → Fits bpp n ((code ∷ here) ++ more)
  repeat_Fits n passed left here code more e s h =
      strong_Fits n ((code ∷ here) ++ more)
        (omega (arith, s, h, positive, length-append here more, ap (λ k. k * bpp) e))

  copy_Fits :
      (n count left code : ℕ) (copied more : Bytes)
      → n ≡ 2 + count + left
      → length copied ≡ (2 + count) * bpp
      → length more ≤ 2 * (left * bpp)
      → Fits bpp n ((code ∷ copied) ++ more)
  copy_Fits n count left code copied more e s h =
      strong_Fits n ((code ∷ copied) ++ more)
        (omega (arith, s, h, positive, length-append copied more, ap (λ k. k * bpp) e))

  lone_Fits :
      (n left code : ℕ) (copied more : Bytes)
      → n ≡ 3 + left
      → length copied ≡ bpp
      → 1 + length more ≤ 2 * ((2 + left) * bpp)
      → Fits bpp n ((code ∷ copied) ++ more)
  lone_Fits n left code copied more e s h =
      strong_Fits n ((code ∷ copied) ++ more)
        (omega (arith, s, h, positive, length-append copied more, ap (λ k. k * bpp) e))

  two_pixels : (n : ℕ) → 2 ≤ n → 2 ≤ n * bpp
  two_pixels n h = omega (arith, positive, ap (λ k. k * bpp) (two n h))
    where
      two : (m : ℕ) → 2 ≤ m → m ≡ 2 + (m - 2)
      two m l = omega arith

  length-copied :
      (n : ℕ) (row : List Pixel)
      → All (HasSize bpp) row
      → n ≤ length row
      → length (concat (take n row)) ≡ n * bpp
  length-copied n row s h =
      length-concat bpp (take n row) (All-take (HasSize bpp) n row s)
      ∙ ap (λ k. k * bpp) (length-take n row ∙ omega (arith, h))

  literal_Fits :
      (p q : Pixel) (row ptr : List Pixel) (count code : ℕ) (more : Bytes)
      → All (HasSize bpp) (p ∷ q ∷ row)
      → Taken (p ∷ q ∷ row) (count, ptr)
      → (count ≡ 1 → 2 ≤ length ptr)
      → Fits bpp (length ptr) more
      → Fits bpp (length (p ∷ q ∷ row)) ((code ∷ concat (take count (p ∷ q ∷ row))) ++ more)
  literal_Fits p q row ptr count code more s k lone ih = elim (Bool-cases (leb 2 count)) [
    | inl t ↦
        copy_Fits (length (p ∷ q ∷ row)) (count - 2) (length ptr) code
          (concat (take count (p ∷ q ∷ row))) more (ground (arith, t, left, k.inside))
          (copied ∙ ap (λ n. n * bpp) (ground (arith, t))) ih.0
    | inr f ↦
        let one : count ≡ 1 = ground (arith, f, k.some_pixel) in
        lone_Fits (length (p ∷ q ∷ row)) (length ptr - 2) code (concat (take count (p ∷ q ∷ row)))
          more (omega (arith, lone one, left, one, k.inside))
          (copied ∙ ap (λ n. n * bpp) one ∙ omega arith)
          (subst (λ n. 1 + length more ≤ 2 * (n * bpp)) (omega (arith, lone one))
            (ih.1 (two_pixels (length ptr) (lone one))))
  ]
    where
      left : length ptr ≡ length (p ∷ q ∷ row) - count
      left = ap length k.rest ∙ length-drop count (p ∷ q ∷ row)

      copied : length (concat (take count (p ∷ q ∷ row))) ≡ count * bpp
      copied = length-copied count (p ∷ q ∷ row) s k.inside

  encode_loop-Fits :
      (fuel : ℕ) (row : List Pixel)
      → All (HasSize bpp) row
      → length row ≤ fuel
      → Fits bpp (length row) (encode_loop fuel row)
  unfolding encode_loop
  encode_loop-Fits fuel [] s h = (omega arith, λ k. omega arith)
  encode_loop-Fits zero (p ∷ row) s h = absurd (omega arith)
  encode_loop-Fits (suc fuel) (p ∷ []) s h =
      (omega (arith, s.0, positive), λ k. omega (arith, s.0, k))
  encode_loop-Fits (suc fuel) (p ∷ q ∷ row) s h = elim (Bool-cases (same_bytes p q)) [
    | inl t ↦
        let run = repeat_run 2 q row in
        let k = repeat_run-Repeats 2 q row (omega arith) in
        let ih =
          encode_loop-Fits fuel run.after
            (subst (All (HasSize bpp)) (sym k.rest)
              (All-drop (HasSize bpp) (suc k.passed) (q ∷ row) s.1))
            (shorter (suc (suc k.passed)) fuel p (q ∷ row) run.after k.rest (omega arith) h) in
        rw t (
          repeat_Fits (length (p ∷ q ∷ row)) k.passed (length run.after) run.here
            ((run.count - 1) % 256) (encode_loop fuel run.after)
            (omega (
              arith,
              ap length k.split,
              length-append (replicate (suc k.passed) q) run.after,
              length-replicate (suc k.passed) q,
            ))
            (ap length k.same ∙ s.1.0) ih.0)
    | inr f ↦
        let lit = literal_run 1 q row in
        let c = literal_run-Copies 1 q row (omega arith) in
        let end = literal_end lit.count lit.here lit.after in
        let k =
          literal_end-Taken p q lit.here row lit.after c.passed lit.count (omega (arith, c.counted))
            c.bound c.inside c.rest in
        let ih =
          encode_loop-Fits fuel end.1
            (subst (All (HasSize bpp)) (sym k.rest) (All-drop (HasSize bpp) end.0 (p ∷ q ∷ row) s))
            (shorter end.0 fuel p (q ∷ row) end.1 k.rest k.some_pixel h) in
        rw f (
          literal_Fits p q row end.1 end.0 ((257 - end.0) % 256) (encode_loop fuel end.1) s k
            (literal_end_lone lit.count lit.here lit.after (omega (arith, c.counted))) ih)
  ]

  -- A row of two bytes at least: its code and the count before it fit twice its bytes.
  pub encode_row_fits :
      (row : List Pixel)
      → All (HasSize bpp) row
      → 2 ≤ length row * bpp
      → 1 + length (encode_row row) ≤ 2 * (length row * bpp)
  unfolding encode_row
  encode_row_fits row s h = (encode_loop-Fits (length row) row s (omega arith)).1 h
