-- ===== src/Pwg/Create/Laws.antt =====
-- `CreatePWGPageData` as a whole: from the header of the input to the rows of the file.
use cnijfilter.Common.{
  ℕ, suc, ◌+◌, ◌-◌, ◌*◌, ◌%◌, ◌^◌, ◌≤◌, ◌<◌, ◌≡◌, refl, ap, ◌∙◌, true, false, ◌&&◌, some, List,
  length, replicate, ◌==◌, pos, arith,
}
use native.Mathlib.Nat.{mod-eq_of_lt, mul-le-mul_right, add-mul}
use cnijfilter.Pwg.PackBits.{Bytes}
use cnijfilter.Pwg.Device.{Answer}
use cnijfilter.Pwg.Device.Laws.{IsSound}
use cnijfilter.Pwg.Raster.{Raster}
use cnijfilter.Pwg.Raster.Write.{write_all, IsFresh}
use cnijfilter.Pwg.Extend.{is_handled}
use cnijfilter.Pwg.Header.{Header, FileHeader, write_header}
use cnijfilter.Pwg.Header.Laws.{IsChunked, write_header-IsFresh, taken_whole}
use cnijfilter.Pwg.Scale.{Double, compute_destination_size}
use cnijfilter.Pwg.Page.{done, Sizes, white_of}
use cnijfilter.Pwg.Page.Lines.{IsSized}
use cnijfilter.Pwg.Page.Print.{page_lines, print_normal-write_all}
use cnijfilter.Pwg.Create.{
  InPage, JobOptions, is_supported, size_or, out_header, print_page, create_page,
}

-- The places of a page in the job: `suc s` by `suc sh` input pixels become `suc d` by `suc dh`
-- pixels at `left` and `top` of `out_w` by `out_h`.
pub record Shape : Type 0 where
  pub s : ℕ
  pub sh : ℕ
  pub d : ℕ
  pub dh : ℕ
  pub left : ℕ
  pub top : ℕ
  pub out_w : ℕ
  pub out_h : ℕ
  pub white : ℕ

unfoldable pub sizes_of : Shape → InPage → Sizes
sizes_of f p = record {
  in_w = p.header.cups_width;
  dst_w = suc f.d;
  ofs_w = f.left;
  num_colors = p.header.num_colors;
  white = f.white;
  out_buf_size = f.out_w % 2 ^ 32 * p.header.num_colors % 2 ^ 32;
}

-- A page that the filter can print: a chunked page of whole bytes in a color space it knows, with
-- rows that are long enough, which goes to a page of two rows at least.
pub record IsPrintable (double : Double) (o : JobOptions) (p : InPage) (f : Shape) : Type 0 where
  pub white : white_of p.header.color_space ≡ some f.white
  pub supported : is_supported p.header ≡ true
  pub width : p.header.cups_width ≡ suc f.s
  pub height : p.header.cups_height ≡ suc f.sh
  pub out_w : size_or o.printable_width p.header.cups_width ≡ f.out_w
  pub out_h : size_or o.printable_height p.header.cups_height ≡ f.out_h
  pub place :
      compute_destination_size double p.header.cups_width p.header.cups_height f.out_w f.out_h
      ≡ record { dst_w = suc f.d; dst_h = suc f.dh; ofs_w = pos f.left; ofs_h = pos f.top }
  pub colors : is_handled p.header.num_colors ≡ true
  pub bits : p.header.bits_per_pixel ≡ p.header.num_colors * 8
  pub positive : 0 < f.dh
  pub room : f.left + suc f.d ≤ f.out_w
  pub fits : f.top + suc f.dh ≤ f.out_h
  pub few : p.header.num_colors * 8 + 7 < 2 ^ 32
  pub small_w : f.out_w < 2 ^ 32
  pub small_h : f.out_h < 2 ^ 32
  pub small : f.out_w * p.header.num_colors < 2 ^ 32
  pub long : (i : ℕ) → suc f.s * p.header.num_colors ≤ length (p.rows i)

module _ (double : Double) (layout : FileHeader → Bytes) (o : JobOptions) (p : InPage) (f : Shape)
    (v : IsPrintable double o p f) (r : Raster) (packed : r.compressed ≡ true)
    (sound : IsSound r.device) where
  abbrev pub header : Header
  header = out_header p.header f.out_w f.out_h

  abbrev pub opened : Raster
  opened = (write_header layout r header).1

  order : p.header.color_order ≡ 0
  unfolding is_supported
  order = ground arith

  some_colors : 0 < p.header.num_colors
  unfolding is_handled
  some_colors = ground arith

  line_size : f.out_w % 2 ^ 32 * p.header.num_colors % 2 ^ 32 ≡ f.out_w * p.header.num_colors
  line_size =
      ap (λ n. n * p.header.num_colors % 2 ^ 32) (mod-eq_of_lt v.small_w) ∙ mod-eq_of_lt v.small

  header-IsChunked : IsChunked p.header.num_colors f.out_w f.out_h header
  unfolding out_header
  header-IsChunked = record {
    order = order;
    bits = v.bits;
    low = omega arith;
    line = line_size;
    rows = mod-eq_of_lt v.small_h;
  }

  fresh : IsFresh p.header.num_colors f.out_w f.out_h opened
  fresh =
      write_header-IsFresh layout p.header.num_colors f.out_w f.out_h r header packed sound
        header-IsChunked

  sized : IsSized (sizes_of f p) f.s f.d
  unfolding sizes_of
  sized = record {
    in_w = v.width;
    dst_w = refl;
    colors = v.colors;
    room = omega (
      arith,
      line_size,
      mul-le-mul_right p.header.num_colors v.room,
      add-mul f.left (suc f.d) p.header.num_colors,
    );
  }

  -- Past the header, the normal print.
  print_page-write_all :
      (answers : List Answer) (page : ℕ)
      → (o.is_rotate && page % 2 == 1) ≡ false
      → print_page page p f.white
          (record { dst_w = suc f.d; dst_h = suc f.dh; ofs_w = pos f.left; ofs_h = pos f.top })
          f.out_h
          header.bytes_per_line
          o.is_rotate
          answers
          opened
        ≡ done (
            write_all opened (
              page_lines
                (sizes_of f p)
                f.s
                f.d
                p.rows
                f.sh
                f.dh
                f.top
                (f.out_h - suc f.dh - f.top)))
  unfolding print_page sizes_of out_header
  print_page-write_all answers page upright =
      let some_rows : (suc f.dh == 1) ≡ false = ground (arith, v.positive) in
      let d : suc f.dh - 1 ≡ f.dh = omega arith in
      let sh : p.header.cups_height - 1 ≡ f.sh = omega (arith, v.height) in
      rw
        (
          fresh.sound.roomy p.header.bytes_per_line,
          fresh.sound.roomy header.bytes_per_line,
          some_rows,
          upright,
          d,
          sh,
        )
        (print_normal-write_all (sizes_of f p) f.s f.d sized p.rows f.sh f.dh v.positive v.long
          f.out_w f.out_h f.top opened some_colors (omega (arith, v.room)) line_size v.fits fresh
          (replicate p.header.bytes_per_line f.white) (suc f.d) (pos f.left))

  -- The whole call.
  pub create_page-write_all :
      (answers : List Answer) (page : ℕ)
      → (o.is_rotate && page % 2 == 1) ≡ false
      → create_page double layout o answers page p r
        ≡ done (
            write_all opened (
              page_lines
                (sizes_of f p)
                f.s
                f.d
                p.rows
                f.sh
                f.dh
                f.top
                (f.out_h - suc f.dh - f.top)))
  unfolding create_page
  create_page-write_all answers page upright =
      let ok : (write_header layout r header).0 ≡ true =
        taken_whole layout p.header.num_colors f.out_w f.out_h r header packed sound
          header-IsChunked in
      rw (v.white, create_page, v.out_w, v.out_h, v.place, v.supported, ok)
        (print_page-write_all answers page upright)
