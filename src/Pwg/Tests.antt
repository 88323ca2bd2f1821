-- ===== src/Pwg/Tests.antt =====
-- Concrete runs of the parts of tocnpwg/src/main.c, and the theorems at concrete inputs.
use cnijfilter.Common.{◌*◌, ◌≡◌, refl, true, List, [], ◌∷◌, ◌++◌, some, length, reverse, arith, pos}
use cnijfilter.Pwg.PackBits.{Bytes, Pixel, encode_row, concat, pixels_of}
use cnijfilter.Pwg.PackBits.Decode.{decode_row, decode_page}
use cnijfilter.Pwg.PackBits.RoundTrip.{decode_row-encode_row}
use cnijfilter.Pwg.Device.{Device, taken, interrupted, again, raster_io}
use cnijfilter.Pwg.Device.Laws.{Sent, IsSound, raster_io-Sent}
use cnijfilter.Pwg.Raster.{Raster}
use cnijfilter.Pwg.Raster.Pages.{flat}
use cnijfilter.Pwg.Raster.Write.{write_all, joined}
use cnijfilter.Pwg.Extend.{h_extend, is_handled}
use cnijfilter.Pwg.Extend.Nearest.{nearest_row}
use cnijfilter.Pwg.Extend.Row.{h_extend-nearest_row}
use cnijfilter.Pwg.Scale.{compute_destination_size}
use cnijfilter.Pwg.Scale.Fits.{IsPlaced, compute_destination_size-IsPlaced}
use cnijfilter.Pwg.Scale.Exact.{exact}
use cnijfilter.Pwg.Samples.{small_page, brief}
use cnijfilter.Pwg.Header.{file_header, write_header}
use cnijfilter.Pwg.Header.Laws.{IsChunked, decode_page-write_header}
use cnijfilter.Pwg.Mirror.{mirror_raster}
use cnijfilter.Pwg.Mirror.Laws.{mirror_raster-reverse}

-- A file behind a slow device.
abbrev slow : Device
slow = record { bytes = 82 ∷ []; answers = interrupted ∷ taken 1 ∷ again ∷ []; grant = λ n. true }

slow-IsSound : IsSound slow
slow-IsSound = record { mild = omega arith; roomy = λ n. refl }

raster_io-Sent_example : Sent slow 0 (1 ∷ 2 ∷ 3 ∷ []) (raster_io slow (1 ∷ 2 ∷ 3 ∷ []))
raster_io-Sent_example = raster_io-Sent slow (1 ∷ 2 ∷ 3 ∷ []) slow-IsSound

-- A row of three pixels of one byte.
abbrev short_row : List Pixel
short_row = (9 ∷ []) ∷ (7 ∷ []) ∷ (7 ∷ []) ∷ []

decode_row-encode_row_example :
    decode_row 3 1 3 (encode_row short_row ++ (5 ∷ [])) ≡ some (short_row, 5 ∷ [])
decode_row-encode_row_example = decode_row-encode_row 1 short_row (5 ∷ []) (omega arith)

-- The single pixel goes out under the code 257 - 1, which is 0 in a byte.
encode_short_row : encode_row short_row ≡ 0 ∷ 9 ∷ 1 ∷ 7 ∷ []
unfolding encode_row
encode_short_row = refl

-- Two rows of two pixels, not yet written.
abbrev two_rows : Raster
two_rows = record {
  device = slow;
  bytes_per_line = 2;
  count = 0;
  remaining = 2;
  bpp = 1;
  pixels = 0 ∷ 0 ∷ [];
  pend = 2;
  pcurrent = 0;
  compressed = true;
  bufsize = 0;
}

abbrev pieces : List Bytes
pieces = (4 ∷ []) ∷ (5 ∷ 4 ∷ 5 ∷ []) ∷ []

-- Two pixels of one byte become four.
h_extend-nearest_row_example :
    (h_extend (1 ∷ 2 ∷ []) (0 ∷ 0 ∷ 0 ∷ 0 ∷ 6 ∷ []) (pos 2) (pos 4) 1
      ≡ (pos 0, nearest_row (1 ∷ 2 ∷ []) 1 1 3 4 0 ++ (6 ∷ [])))
    × (length (nearest_row (1 ∷ 2 ∷ []) 1 1 3 4 0) ≡ 4 * 1)
h_extend-nearest_row_example =
    h_extend-nearest_row (1 ∷ 2 ∷ []) (0 ∷ 0 ∷ 0 ∷ 0 ∷ 6 ∷ []) 1 3 1 (unfold is_handled in refl)
      (omega arith)

mirror_raster-reverse_example :
    mirror_raster ((1 ∷ 2 ∷ 3 ∷ []) ++ (9 ∷ [])) 3 1
    ≡ (pos 0, concat (reverse (pixels_of 1 3 (1 ∷ 2 ∷ 3 ∷ []))) ++ (9 ∷ []))
mirror_raster-reverse_example =
    mirror_raster-reverse (1 ∷ 2 ∷ 3 ∷ []) (9 ∷ []) 3 1 (omega arith) refl

-- An A4 page at 600 dpi on a smaller sheet.
compute_destination_size-IsPlaced_example :
    IsPlaced 3496 4961 (compute_destination_size exact 4961 7016 3496 4961)
compute_destination_size-IsPlaced_example =
    compute_destination_size-IsPlaced exact 4961 7016 3496 4961 (omega arith) (omega arith)
      (omega arith) (omega arith) (omega arith) (omega arith)

small_page-IsChunked : IsChunked 1 2 2 small_page
small_page-IsChunked = record {
  order = refl;
  bits = omega arith;
  low = omega arith;
  line = omega arith;
  rows = refl;
}

decode_page-write_header_example :
    ((write_header brief two_rows small_page).0 ≡ true)
    × (code : Bytes) × (rows : List (List Pixel)) × ((write_all
          (write_header brief two_rows small_page).1
          pieces).device.bytes
        ≡ two_rows.device.bytes ++ (brief (file_header small_page) ++ code))
    × (decode_page 2 1 2 2 (code ++ (8 ∷ [])) ≡ some (rows, 8 ∷ []))
    × (flat rows ≡ joined pieces)
decode_page-write_header_example =
    decode_page-write_header brief 1 2 2 two_rows small_page refl slow-IsSound small_page-IsChunked
      pieces (8 ∷ []) (omega arith) (omega arith) (omega arith) (unfold joined in refl)
