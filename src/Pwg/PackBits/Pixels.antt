-- ===== src/Pwg/PackBits/Pixels.antt =====
-- A row of bytes and its pixels.
use cnijfilter.Common.{
  ℕ, zero, suc, ◌*◌, ◌≤◌, ◌≡◌, refl, ap, ap₂, ◌∙◌, List, [], ◌∷◌, ◌++◌, take, drop, length,
  length-append, length-drop, length-take, take-append-drop, take-append_le, drop-append_le, All,
  arith,
}
use cnijfilter.Pwg.PackBits.{Bytes, Pixel, concat, pixels_of}
use cnijfilter.Pwg.PackBits.Decode.{HasSize}

-- The pixels of a row make up its bytes again.
pub concat-pixels_of :
    (bpp n : ℕ) (bytes : Bytes) → length bytes ≡ n * bpp → concat (pixels_of bpp n bytes) ≡ bytes
unfolding concat pixels_of
concat-pixels_of bpp zero [] h = refl
concat-pixels_of bpp zero (b ∷ bytes) h = absurd (omega arith)
concat-pixels_of bpp (suc n) bytes h =
    ap (λ x. take bpp bytes ++ x)
      (concat-pixels_of bpp n (drop bpp bytes) (omega (arith, length-drop bpp bytes)))
    ∙ take-append-drop bpp bytes

pub pixels_of-HasSize :
    (bpp n : ℕ) (bytes : Bytes)
    → length bytes ≡ n * bpp
    → All (HasSize bpp) (pixels_of bpp n bytes) × (length (pixels_of bpp n bytes) ≡ n)
unfolding pixels_of
pixels_of-HasSize bpp zero bytes h = (tt, refl)
pixels_of-HasSize bpp (suc n) bytes h =
    let (sizes, long) =
      pixels_of-HasSize bpp n (drop bpp bytes) (omega (arith, length-drop bpp bytes)) in
    ((omega (arith, length-take bpp bytes), sizes), ap suc long)

pub length-concat :
    (bpp : ℕ) (ps : List Pixel) → All (HasSize bpp) ps → length (concat ps) ≡ length ps * bpp
unfolding concat
length-concat bpp [] h = omega arith
length-concat bpp (p ∷ ps) h =
    omega (arith, length-append p (concat ps), length-concat bpp ps h.1, h.0)

-- The pixels of a row are those of any block that begins with it.
pub pixels_of-append :
    (bpp n : ℕ) (row behind : Bytes)
    → n * bpp ≤ length row
    → pixels_of bpp n (row ++ behind) ≡ pixels_of bpp n row
unfolding pixels_of
pixels_of-append bpp zero row behind h = refl
pixels_of-append bpp (suc n) row behind h = ap₂ ◌∷◌ (take-append_le bpp row behind (omega arith)) (
    ap (pixels_of bpp n) (drop-append_le bpp row behind (omega arith))
    ∙ pixels_of-append bpp n (drop bpp row) behind (omega (arith, length-drop bpp row)))
