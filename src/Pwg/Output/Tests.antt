-- ===== src/Pwg/Output/Tests.antt =====
-- Runs of the rotated print, of the dump and of the loop over the pages.
use cnijfilter.Common.{
  ℕ, ◌+◌, ◌-◌, ◌≡◌, refl, Bool, true, false, length, none, [], ◌∷◌, ◌++◌, replicate, arith,
}
use cnijfilter.Cndata.Cells.{cells}
use cnijfilter.Pwg.PackBits.{Bytes}
use cnijfilter.Pwg.Device.{Device, taken, interrupted, io_loop, raster_io, write_fd, write_retry}
use cnijfilter.Pwg.Device.Laws.{IsSound}
use cnijfilter.Pwg.Raster.{Raster}
use cnijfilter.Pwg.Raster.Write.{write_all}
use cnijfilter.Pwg.Scale.{half_difference, compute_destination_size}
use cnijfilter.Pwg.Scale.Exact.{exact}
use cnijfilter.Pwg.Header.{write_header}
use cnijfilter.Pwg.Extend.{is_handled}
use cnijfilter.Pwg.Page.{done, failed, Sizes, white_of}
use cnijfilter.Pwg.Page.Print.{page_lines}
use cnijfilter.Pwg.Samples.{small_page, brief}
use cnijfilter.Pwg.Create.{
  InPage, JobOptions, temp_open, create_page, is_supported, size_or, out_header,
}
use cnijfilter.Pwg.Create.Laws.{Shape, sizes_of, IsPrintable, create_page-write_all}
use cnijfilter.Pwg.Output.{World, finished, stopped, raster_dump, make_page, header_loop}
use cnijfilter.Pwg.Output.Dump.{Dumped, raster_dump-Dumped}
use cnijfilter.Pwg.Output.Job.{output, followed, closed, header_loop-stream, header_loop_failed}
use cnijfilter.Pwg.Output.Chain.{page_loop-header_loop}
use cnijfilter.Tocanonij.Pages.Stream.{making, stream, Wrapped}
use cnijfilter.Tocanonij.Pages.{page_loop}
use cnijfilter.Posix.{read_interrupted}

-- Two grey pixels a line become four, on lines of five.
abbrev grey : Sizes
grey = record { in_w = 2; dst_w = 4; ofs_w = 1; num_colors = 1; white = 255; out_buf_size = 5 }

abbrev two_rows : ℕ → Bytes
two_rows n = n ∷ 9 ∷ []

abbrev fresh_page : Raster
fresh_page = record {
  device = record { bytes = 82 ∷ []; answers = interrupted ∷ taken 2 ∷ []; grant = λ n. true };
  bytes_per_line = 5;
  count = 0;
  remaining = 3;
  bpp = 1;
  pixels = replicate 5 0;
  pend = 5;
  pcurrent = 0;
  compressed = true;
  bufsize = 0;
}

abbrev busy : Device
busy = record { bytes = 7 ∷ []; answers = interrupted ∷ taken 0 ∷ taken 1 ∷ []; grant = λ n. true }

raster_dump-Dumped_example : Dumped busy (82 ∷ []) (raster_dump fresh_page busy)
raster_dump-Dumped_example = raster_dump-Dumped fresh_page busy refl (tt, (tt, (tt, tt)))

abbrev world : World
world = record {
  double = exact;
  layout = cells;
  header_layout = brief;
  sync = 0x52 ∷ 0x61 ∷ 0x53 ∷ 0x32 ∷ [];
  grant = λ n. true;
  file_answers = λ n. interrupted ∷ [];
  raw_answers = λ n. [];
}

abbrev plain_job : JobOptions
plain_job = record { printable_width = 0; printable_height = 0; is_rotate = false }

-- A page of a color space that the filter does not know.
abbrev odd_page : InPage
odd_page = record { header = record small_page { color_space = 17 }; rows = two_rows }

abbrev empty_raster : Raster
empty_raster = record {
  device = record { bytes = 0x52 ∷ 0x61 ∷ 0x53 ∷ 0x32 ∷ []; answers = []; grant = λ n. true };
  bytes_per_line = 0;
  count = 0;
  remaining = 0;
  bpp = 0;
  pixels = [];
  pend = 0;
  pcurrent = 0;
  compressed = true;
  bufsize = 0;
}

odd_page_refused : make_page world plain_job (1 + 1) odd_page ≡ failed empty_raster
unfolding make_page temp_open create_page white_of raster_io io_loop write_fd write_retry
odd_page_refused = refl

abbrev grey_page : InPage
grey_page = record { header = small_page; rows = two_rows }

-- Two by two pixels stay as they are.
abbrev as_is : Shape
as_is = record {
  s = 1;
  sh = 1;
  d = 1;
  dh = 1;
  left = 0;
  top = 0;
  out_w = 2;
  out_h = 2;
  white = 255;
}

grey_page-IsPrintable : IsPrintable exact plain_job grey_page as_is
unfolding white_of is_supported size_or is_handled
grey_page-IsPrintable = record {
  white = refl;
  supported = refl;
  width = refl;
  height = refl;
  out_w = refl;
  out_h = refl;
  place = unfold exact compute_destination_size half_difference in refl;
  colors = refl;
  bits = omega arith;
  positive = omega arith;
  room = omega arith;
  fits = omega arith;
  few = omega arith;
  small_w = omega arith;
  small_h = omega arith;
  small = omega arith;
  long = λ i. omega arith;
}

empty_raster-IsSound : IsSound empty_raster.device
empty_raster-IsSound = record { mild = tt; roomy = λ n. refl }

-- The raster of the page.
abbrev made : Raster
made =
    write_all (write_header brief empty_raster (out_header small_page 2 2)).1
      (page_lines (sizes_of as_is grey_page) 1 1 two_rows 1 1 0 (2 - 2 - 0))

page_made : (page : ℕ) → make_page world plain_job page grey_page ≡ done made
unfolding make_page temp_open raster_io io_loop write_fd write_retry
page_made page =
    create_page-write_all exact brief plain_job grey_page as_is grey_page-IsPrintable empty_raster
      refl empty_raster-IsSound [] page refl

-- The second page cannot be made.
header_loop_failed_example :
    header_loop world plain_job 1 none
      (output (λ n. true) (3 ∷ []))
      ((grey_page ∷ []) ++ (odd_page ∷ []))
    ≡ stopped (output (λ n. true) ((3 ∷ []) ++ stream cells (followed 2 (made ∷ []))))
header_loop_failed_example =
    header_loop_failed world plain_job (λ n. true) refl 1 (grey_page ∷ []) (made ∷ []) odd_page []
      empty_raster (3 ∷ []) (page_made 1, tt) odd_page_refused

header_loop-stream_example :
    header_loop world plain_job 1 none (output (λ n. true) (3 ∷ [])) (grey_page ∷ grey_page ∷ [])
    ≡ finished (output (λ n. true) ((3 ∷ []) ++ stream cells (closed 2 (made ∷ made ∷ []))))
header_loop-stream_example =
    header_loop-stream world plain_job (λ n. true) refl 1 (grey_page ∷ grey_page ∷ [])
      (made ∷ made ∷ []) (3 ∷ []) (page_made 1, (page_made 2, tt))

abbrev config : Bool → Bytes
config true = 1 ∷ []
config false = 2 ∷ []

page_loop-header_loop_example :
    (d : Device) × (header_loop world plain_job 1 none
        (output (λ n. true) [])
        (grey_page ∷ grey_page ∷ [])
      ≡ finished d)
    × Wrapped cells config
        (λ n. n ∷ [])
        4
        []
        (closed 2 (made ∷ made ∷ []))
        (page_loop cells
          (making config (λ n. n ∷ []))
          (length (stream cells (closed 2 (made ∷ made ∷ []))) + 2)
          4
          (record {
            input = record { bytes = d.bytes; answers = read_interrupted ∷ [] };
            output = output (λ n. true) [];
          }))
page_loop-header_loop_example =
    page_loop-header_loop world plain_job (λ n. true) (λ n. true) config (λ n. n ∷ []) 4
      (length (stream cells (closed 2 (made ∷ made ∷ []))) + 2) (read_interrupted ∷ [])
      (grey_page ∷ grey_page ∷ []) (made ∷ made ∷ []) [] refl (page_made 1, (page_made 2, tt))
      (omega arith) (tt, tt) (omega arith)
