-- ===== src/Pwg/Mirror/Laws.antt =====
-- `mirror_raster` reverses the row.
use cnijfilter.Common.{
  ℕ, zero, suc, ◌+◌, ◌-◌, ◌*◌, ◌/◌, ◌≤◌, ◌<◌, ◌≡◌, refl, sym, ◌∙◌, Bool, ◌&&◌, ◌||◌, List, [], ◌++◌,
  ltb, leb, ◌==◌, if◌then◌else◌, length, length-set, get_or, set, get_or-set, get_or_ext,
  get_or-reverse, length-reverse, reverse, drop-append_length, pos, negsuc, arith,
}
use cnijfilter.Pwg.PackBits.{Bytes, Pixel, pixels_of, concat}
use cnijfilter.Pwg.PackBits.Pixels.{pixels_of-HasSize, pixels_of-append}
use cnijfilter.Pwg.Mirror.{swap_ends, mirror_loop, mirror_raster}

length-swap_ends : (w i : ℕ) (px : List Pixel) → length (swap_ends w i px) ≡ length px
unfolding swap_ends
length-swap_ends w i px = length-set (set px i _) (w - 1 - i) _ ∙ length-set px i _

get_or-swap_ends :
    (w i k : ℕ) (px : List Pixel)
    → length px ≡ w
    → i < w
    → get_or (swap_ends w i px) k [] ≡ (
        if w - 1 - i == k
        then get_or px i []
        else if i == k
        then get_or px (w - 1 - i) []
        else get_or px k [])
unfolding swap_ends
get_or-swap_ends w i k px e h = ground (
  arith,
  length-set px i (get_or px (w - 1 - i) []),
  get_or-set (set px i (get_or px (w - 1 - i) [])) (w - 1 - i) k (get_or px i []) [],
  get_or-set px i k (get_or px (w - 1 - i) []) [],
)

-- The places that `n` rounds from `i` on exchange.
abbrev touched : ℕ → ℕ → ℕ → ℕ → Bool
touched n i w k = (leb i k && ltb k (i + n)) || (leb (w - i - n) k && ltb k (w - i))

mirror_loop_get :
    (n i w k : ℕ) (px : List Pixel)
    → length px ≡ w
    → 2 * (i + n) ≤ w
    → k < w
    → get_or (mirror_loop n i w px) k []
      ≡ (if touched n i w k then get_or px (w - 1 - k) [] else get_or px k [])
unfolding mirror_loop
mirror_loop_get zero i w k px e h l = ground arith
mirror_loop_get (suc n) i w k px e h l = ground (
  arith,
  length-swap_ends w i px,
  mirror_loop_get n (i + 1) w k (swap_ends w i px),
  get_or-swap_ends w i k px,
  get_or-swap_ends w i (w - 1 - k) px,
)

length-mirror_loop : (n i w : ℕ) (px : List Pixel) → length (mirror_loop n i w px) ≡ length px
unfolding mirror_loop
length-mirror_loop zero i w px = refl
length-mirror_loop (suc n) i w px =
    length-mirror_loop n (i + 1) w (swap_ends w i px) ∙ length-swap_ends w i px

-- `width >> 1` rounds exchange all the pixels but the middle one.
mirror_loop-reverse :
    (w : ℕ) (px : List Pixel) → length px ≡ w → mirror_loop (w / 2) 0 w px ≡ reverse px
mirror_loop-reverse w px e =
    get_or_ext _ (reverse px) [] (length-mirror_loop (w / 2) 0 w px ∙ sym (length-reverse px))
      (λ k h.
        let inside : k < w = omega (arith, length-mirror_loop (w / 2) 0 w px) in
        mirror_loop_get (w / 2) 0 w k px e (omega arith) inside
        ∙ middle k inside
        ∙ sym (get_or-reverse px k [] (omega arith)))
  where
    middle :
        (k : ℕ)
        → k < w
        → (if touched (w / 2) 0 w k then get_or px (w - 1 - k) [] else get_or px k [])
          ≡ get_or px (length px - 1 - k) []
    middle k h = rw e (ground arith)

-- For a row of `width` pixels of at most four bytes the call succeeds, and the row holds its
-- pixels in the opposite order; what stands behind the row is kept.
pub mirror_raster-reverse :
    (row behind : Bytes) (width bpp : ℕ)
    → bpp ≤ 4
    → length row ≡ width * bpp
    → mirror_raster (row ++ behind) width bpp
      ≡ (pos 0, concat (reverse (pixels_of bpp width row)) ++ behind)
unfolding mirror_raster
mirror_raster-reverse row behind width bpp h e =
    rw
      (
        pixels_of-append bpp width row behind (omega arith),
        drop-append_length (width * bpp) row behind e,
        mirror_loop-reverse width (pixels_of bpp width row) (pixels_of-HasSize bpp width row e).1,
      )
      (ground arith)

-- More bytes a pixel than the buffer for one pixel has are refused, and nothing is changed.
pub mirror_raster_refuses :
    (buf : Bytes) (width bpp : ℕ) → 4 < bpp → mirror_raster buf width bpp ≡ (negsuc 0, buf)
unfolding mirror_raster
mirror_raster_refuses buf width bpp h = ground arith
