-- ===== src/Pwg/Rotate/Print.antt =====
-- The page that the rotated print of `CreatePWGPageData` leaves in the file.
use cnijfilter.Common.{ℕ, suc, ◌*◌, ◌≤◌, ◌<◌, ◌≡◌, List, ◌++◌, length, replicate}
use cnijfilter.Pwg.PackBits.{Bytes}
use cnijfilter.Pwg.Device.{Device}
use cnijfilter.Pwg.Raster.{Raster}
use cnijfilter.Pwg.Page.{Sizes}
use cnijfilter.Pwg.Page.Lines.{IsSized}
use cnijfilter.Pwg.Rotate.Lines.{mirrored_lines}

-- The lines of the temporary file: white lines, the image with its lines mirrored, white lines.
unfoldable pub raw_page : Sizes → ℕ → ℕ → ℕ → (ℕ → Bytes) → ℕ → ℕ → ℕ → ℕ → List Bytes
raw_page z s d width source sh dh top bottom =
    let blank = replicate z.out_buf_size z.white in
    replicate top blank
    ++ (mirrored_lines z s d width source sh dh (suc dh) 0 ++ replicate bottom blank)

module _ (z : Sizes) (s d : ℕ) (v : IsSized z s d) (source : ℕ → Bytes) (sh dh : ℕ)
    (positive : 0 < dh) (long : (i : ℕ) → suc s * z.num_colors ≤ length (source i)) (width : ℕ)
    (colors : 0 < z.num_colors) (few : z.num_colors ≤ 4)
    (line : z.out_buf_size ≡ width * z.num_colors) where
  blank : Bytes
  blank = replicate z.out_buf_size z.white

  lines : List Bytes
  lines = mirrored_lines z s d width source sh dh (suc dh) 0
