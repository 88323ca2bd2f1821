-- ===== src/Pwg/Mirror.antt =====
-- tocnpwg/src/main.c, `mirror_raster`: the pixels of a row in the opposite order, in place.
pub mod Laws
use cnijfilter.Common.{
  ℕ, zero, suc, ◌+◌, ◌-◌, ◌*◌, ◌/◌, List, [], ◌∷◌, ◌++◌, ltb, if◌then◌else◌, drop, get_or, set, ℤ,
  pos, negsuc,
}
use cnijfilter.Pwg.PackBits.{Bytes, Pixel, pixels_of, concat}

-- The pixels at `topbuf` and `tailbuf` change places, `topbuf` being pixel `i` of `width`.
pub swap_ends : ℕ → ℕ → List Pixel → List Pixel
swap_ends width i px =
    let top = get_or px i [] in
    let tail = get_or px (width - 1 - i) [] in set (set px i tail) (width - 1 - i) top

-- The loop over `i`, with the rounds left.
pub mirror_loop : ℕ → ℕ → ℕ → List Pixel → List Pixel
mirror_loop zero i width px = px
mirror_loop (suc n) i width px = mirror_loop n (i + 1) width (swap_ends width i px)

-- `mirror_raster` on a buffer that is there, with the buffer after the call; `width >> 1` rounds.
pub mirror_raster : Bytes → ℕ → ℕ → ℤ × Bytes
mirror_raster buf width bpp = if ltb 4 bpp then (negsuc 0, buf) else (
  pos 0,
  concat (mirror_loop (width / 2) 0 width (pixels_of bpp width buf)) ++ drop (width * bpp) buf,
)
