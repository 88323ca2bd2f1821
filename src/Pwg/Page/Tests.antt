-- ===== src/Pwg/Page/Tests.antt =====
-- The normal print of a small page of `CreatePWGPageData`.
use cnijfilter.Common.{
  ℕ, ◌-◌, ◌/◌, ◌%◌, ◌≡◌, refl, true, some, List, [], ◌∷◌, ◌++◌, pos, replicate, arith,
}
use cnijfilter.Pwg.PackBits.{Bytes, Pixel}
use cnijfilter.Pwg.PackBits.Decode.{decode_page}
use cnijfilter.Pwg.Device.{taken, interrupted}
use cnijfilter.Pwg.Raster.{Raster}
use cnijfilter.Pwg.Raster.Pages.{flat}
use cnijfilter.Pwg.Raster.Write.{joined, IsFresh}
use cnijfilter.Pwg.Extend.{is_handled}
use cnijfilter.Pwg.Page.{done, Sizes, print_normal}
use cnijfilter.Pwg.Page.Lines.{IsSized}
use cnijfilter.Pwg.Page.Print.{page_lines, decode_page-print_normal}

-- Two grey pixels a line become four, on lines of five.
abbrev small : Sizes
small = record { in_w = 2; dst_w = 4; ofs_w = 1; num_colors = 1; white = 255; out_buf_size = 5 }

small-IsSized : IsSized small 1 3
small-IsSized = record {
  in_w = refl;
  dst_w = refl;
  colors = unfold is_handled in refl;
  room = omega arith;
}

abbrev two_rows : ℕ → Bytes
two_rows n = n ∷ 9 ∷ []

abbrev page : Raster
page = record {
  device = record { bytes = 82 ∷ []; answers = interrupted ∷ taken 2 ∷ []; grant = λ n. true };
  bytes_per_line = 5;
  count = 0;
  remaining = 5;
  bpp = 1;
  pixels = replicate 5 0;
  pend = 5;
  pcurrent = 0;
  compressed = true;
  bufsize = 0;
}

page-IsFresh : IsFresh 1 5 5 page
page-IsFresh = record {
  sound = record { mild = omega arith; roomy = λ n. refl };
  shape = record { pixel = refl; line = refl; pend = refl; row = refl; packed = refl };
  none_waits = refl;
  start = refl;
  rows = refl;
}

decode_page-print_normal_example :
    (end : Raster) × (code : Bytes) × (rows : List (List Pixel)) × (print_normal two_rows small
        (record { dst_w = 4; dst_h = 3; ofs_w = pos 1; ofs_h = pos 1 })
        5
        2
        (1 / 2)
        (1 % 2)
        []
        page
      ≡ done end)
    × (end.device.bytes ≡ page.device.bytes ++ code)
    × (decode_page 5 1 5 5 (code ++ (8 ∷ [])) ≡ some (rows, 8 ∷ []))
    × (flat rows ≡ joined (page_lines small 1 3 two_rows 1 2 1 (5 - 3 - 1)))
decode_page-print_normal_example =
    decode_page-print_normal small 1 3 small-IsSized two_rows 1 2 (omega arith) (λ i. omega arith) 5
      5 1 page (omega arith) (omega arith) refl (omega arith) page-IsFresh [] (8 ∷ []) 4 (pos 1)
