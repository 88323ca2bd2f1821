-- ===== src/Pwg/Raster/Pages.antt =====
-- What the file of a page holds in terms of its rows: groups of equal rows, and how a reader of
-- the format gets the rows back.
use cnijfilter.Common.{
  ℕ, zero, suc, ◌+◌, ◌*◌, ◌%◌, ◌≤◌, ◌<◌, ◌≡◌, refl, sym, ap, ◌∙◌, subst, List, [], ◌∷◌, ◌++◌, some,
  length, replicate, append_assoc, append-nil, length-append, length-replicate, All, arith,
}
use cnijfilter.Pwg.PackBits.{Bytes, Pixel, concat, encode_row}
use cnijfilter.Pwg.PackBits.Decode.{
  HasSize, decode_row, decode_page, decode_page-group, decode_page-zero,
}
use cnijfilter.Pwg.PackBits.Pixels.{length-concat}
use cnijfilter.Pwg.PackBits.Size.{encode_row_fits}
use cnijfilter.Pwg.PackBits.RoundTrip.{decode_row-encode_row}

-- The bytes of some rows, one after the other, and those of `n` equal rows.
unfoldable pub flat : List (List Pixel) → Bytes
flat [] = []
flat (row ∷ rows) = concat row ++ flat rows

pub repeated : ℕ → Bytes → Bytes
repeated zero bytes = []
repeated (suc n) bytes = bytes ++ repeated n bytes

pub repeated-zero : (bytes : Bytes) → repeated 0 bytes ≡ []
unfolding repeated
repeated-zero bytes = refl

pub repeated_none : {n : ℕ} (bytes : Bytes) → n ≡ 0 → repeated n bytes ≡ []
repeated_none bytes e = ap (λ k. repeated k bytes) e ∙ repeated-zero bytes

pub flat-append : (xs ys : List (List Pixel)) → flat (xs ++ ys) ≡ flat xs ++ flat ys
unfolding flat
flat-append [] ys = refl
flat-append (x ∷ xs) ys = simp (flat-append xs ys, append_assoc)

pub flat-replicate : (n : ℕ) (row : List Pixel) → flat (replicate n row) ≡ repeated n (concat row)
unfolding flat repeated
flat-replicate zero row = refl
flat-replicate (suc n) row = ap (λ x. concat row ++ x) (flat-replicate n row)

-- `n` copies, then one more.
pub repeated-suc : (n : ℕ) (bytes : Bytes) → repeated (suc n) bytes ≡ repeated n bytes ++ bytes
unfolding repeated
repeated-suc zero bytes = append-nil bytes
repeated-suc (suc n) bytes =
    ap (λ x. bytes ++ x) (repeated-suc n bytes) ∙ sym (append_assoc bytes (repeated n bytes) bytes)

-- Equal rows that go out together.
pub record Group : Type 0 where
  pub copies : ℕ
  pub row : List Pixel

pub record IsGroup (bpp width : ℕ) (g : Group) : Type 0 where
  pub some_copy : 1 ≤ g.copies
  pub bound : g.copies ≤ 256
  pub wide : length g.row ≡ width
  pub sizes : All (HasSize bpp) g.row

unfoldable pub group_code : List Group → Bytes
group_code [] = []
group_code (g ∷ gs) = (((g.copies + 255) % 256) ∷ encode_row g.row) ++ group_code gs

unfoldable pub expand : List Group → List (List Pixel)
expand [] = []
expand (g ∷ gs) = replicate g.copies g.row ++ expand gs

pub group_code-append :
    (gs hs : List Group) → group_code (gs ++ hs) ≡ group_code gs ++ group_code hs
unfolding group_code
group_code-append [] hs = refl
group_code-append (g ∷ gs) hs = simp (group_code-append gs hs, append_assoc)

pub expand-append : (gs hs : List Group) → expand (gs ++ hs) ≡ expand gs ++ expand hs
unfolding expand
expand-append [] hs = refl
expand-append (g ∷ gs) hs = simp (expand-append gs hs, append_assoc)

pub length-group :
    (g : Group) (gs : List Group)
    → length (replicate g.copies g.row ++ expand gs) ≡ g.copies + length (expand gs)
length-group g gs =
    length-append (replicate g.copies g.row) (expand gs)
    ∙ ap (λ n. n + length (expand gs)) (length-replicate g.copies g.row)

-- A row of the page, whose code fits the buffer, which is twice as large as the row.
pub record IsFitting (bpp width : ℕ) (row : List Pixel) : Type 0 where
  pub wide : length row ≡ width
  pub sizes : All (HasSize bpp) row
  pub fits : 1 + length (encode_row row) ≤ 2 * (width * bpp)

repeated-IsFitting :
    (bpp width n : ℕ) (row : List Pixel) (rows : List (List Pixel))
    → IsFitting bpp width row
    → All (IsFitting bpp width) rows
    → All (IsFitting bpp width) (replicate n row ++ rows)
repeated-IsFitting bpp width zero row rows h a = a
repeated-IsFitting bpp width (suc n) row rows h a = (h, repeated-IsFitting bpp width n row rows h a)

pub expand-IsFitting :
    (bpp width : ℕ) (gs : List Group)
    → 0 < bpp
    → 2 ≤ width * bpp
    → All (IsGroup bpp width) gs
    → All (IsFitting bpp width) (expand gs)
unfolding expand
expand-IsFitting bpp width [] pb h a = tt
expand-IsFitting bpp width (g ∷ gs) pb h a =
    repeated-IsFitting bpp width g.copies g.row (expand gs)
      (record {
        wide = a.0.wide;
        sizes = a.0.sizes;
        fits =
            subst (λ w. 1 + length (encode_row g.row) ≤ 2 * (w * bpp)) a.0.wide
              (encode_row_fits bpp pb g.row a.0.sizes (subst (λ w. 2 ≤ w * bpp) (sym a.0.wide) h));
      })
      (expand-IsFitting bpp width gs pb h a.1)

module _ (bpp width : ℕ) where
  -- The code of the groups reads back as the rows that they stand for.
  pub decode_page-group_code :
      (fuel : ℕ) (gs : List Group) (rest : Bytes)
      → All (IsGroup bpp width) gs
      → length (expand gs) ≤ fuel
      → decode_page fuel bpp width (length (expand gs)) (group_code gs ++ rest)
        ≡ some (expand gs, rest)
  unfolding group_code expand
  decode_page-group_code fuel [] rest v h = decode_page-zero fuel bpp width rest
  decode_page-group_code zero (g ∷ gs) rest v h =
      absurd (omega (arith, v.0.some_copy, length-group g gs))
  decode_page-group_code (suc fuel) (g ∷ gs) rest v h =
      rw (append_assoc (encode_row g.row) (group_code gs) rest) (
        decode_page-group fuel bpp width _ ((g.copies + 255) % 256) g.row (expand gs) _
          (group_code gs ++ rest) rest
          (subst
            (λ w.
              decode_row w bpp w (encode_row g.row ++ (group_code gs ++ rest))
              ≡ some (g.row, group_code gs ++ rest))
            v.0.wide (decode_row-encode_row bpp g.row (group_code gs ++ rest) v.0.sizes))
          (decode_page-group_code fuel gs rest v.1
            (omega (arith, length-group g gs, v.0.some_copy)))
          (omega (arith, length-group g gs, back))
        ∙ ap (λ n. some (replicate n g.row ++ expand gs, rest)) back)
    where
      back : (g.copies + 255) % 256 + 1 ≡ g.copies
      back = omega (arith, v.0.some_copy, v.0.bound)

-- One group more.
pub group_code-snoc :
    (gs : List Group) (g : Group)
    → group_code (gs ++ (g ∷ [])) ≡ group_code gs ++ (((g.copies + 255) % 256) ∷ encode_row g.row)
unfolding group_code
group_code-snoc gs g =
    group_code-append gs (g ∷ [])
    ∙ ap (λ x. group_code gs ++ (((g.copies + 255) % 256) ∷ x)) (append-nil (encode_row g.row))

expand-snoc :
    (gs : List Group) (g : Group) → expand (gs ++ (g ∷ [])) ≡ expand gs ++ replicate g.copies g.row
unfolding expand
expand-snoc gs g =
    expand-append gs (g ∷ []) ∙ ap (λ x. expand gs ++ x) (append-nil (replicate g.copies g.row))

pub length-expand_snoc :
    (gs : List Group) (g : Group) → length (expand (gs ++ (g ∷ []))) ≡ length (expand gs) + g.copies
length-expand_snoc gs g =
    ap length (expand-snoc gs g)
    ∙ length-append (expand gs) (replicate g.copies g.row)
    ∙ ap (λ n. length (expand gs) + n) (length-replicate g.copies g.row)

pub flat-expand_snoc :
    (gs : List Group) (g : Group)
    → flat (expand (gs ++ (g ∷ []))) ≡ flat (expand gs) ++ repeated g.copies (concat g.row)
flat-expand_snoc gs g =
    ap flat (expand-snoc gs g)
    ∙ flat-append (expand gs) (replicate g.copies g.row)
    ∙ ap (λ x. flat (expand gs) ++ x) (flat-replicate g.copies g.row)

-- How many bytes the rows have.
pub length-repeated : (n : ℕ) (bytes : Bytes) → length (repeated n bytes) ≡ n * length bytes
unfolding repeated
length-repeated zero bytes = omega arith
length-repeated (suc n) bytes =
    omega (arith, length-append bytes (repeated n bytes), length-repeated n bytes)

pub length-flat-expand :
    (bpp width : ℕ) (gs : List Group)
    → All (IsGroup bpp width) gs
    → length (flat (expand gs)) ≡ length (expand gs) * (width * bpp)
unfolding expand flat
length-flat-expand bpp width [] v = omega arith
length-flat-expand bpp width (g ∷ gs) v = omega (
  arith,
  ap length (flat-append (replicate g.copies g.row) (expand gs)),
  length-append (flat (replicate g.copies g.row)) (flat (expand gs)),
  ap length (flat-replicate g.copies g.row),
  length-repeated g.copies (concat g.row),
  ap (λ n. g.copies * n) row_long,
  length-group g gs,
  ap (λ n. n * (width * bpp)) (length-group g gs),
  length-flat-expand bpp width gs v.1,
)
  where
    row_long : length (concat g.row) ≡ width * bpp
    row_long = length-concat bpp g.row v.0.sizes ∙ ap (λ n. n * bpp) v.0.wide
