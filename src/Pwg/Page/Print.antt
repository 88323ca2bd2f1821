-- ===== src/Pwg/Page/Print.antt =====
-- The page that the normal print of `CreatePWGPageData` leaves in the file.
use cnijfilter.Common.{
  ℕ, suc, ◌+◌, ◌-◌, ◌*◌, ◌/◌, ◌%◌, ◌≤◌, ◌<◌, ◌≡◌, sym, ap, ◌∙◌, subst, true, some, List, All,
  All-append, append_assoc, ◌++◌, length, replicate, length-append, length-replicate, ℤ, pos, arith,
}
use native.Mathlib.Nat.{mul-le-mul_right}
use cnijfilter.Pwg.PackBits.{Bytes, Pixel}
use cnijfilter.Pwg.PackBits.Decode.{decode_page}
use cnijfilter.Pwg.Device.Laws.{IsSound}
use cnijfilter.Pwg.Raster.{Raster, write_white_line}
use cnijfilter.Pwg.Raster.Pages.{flat}
use cnijfilter.Pwg.Raster.Write.{write_all, joined, IsFresh, page_of_pieces, write_all-IsSound}
use cnijfilter.Pwg.Raster.Lines.{
  write_all-append, write_white_line-write_all, length-joined, All-replicate,
}
use cnijfilter.Pwg.Extend.{start}
use cnijfilter.Pwg.Page.{done, Sizes, print_lines, print_normal}
use cnijfilter.Pwg.Page.Lines.{
  IsSized, placed_lines, length-placed_lines, placed_lines-All, start-Counts, saved-Tracks,
  print_lines-placed_lines,
}

-- The lines of the page: white lines, the scaled image, white lines.
unfoldable pub page_lines : Sizes → ℕ → ℕ → (ℕ → Bytes) → ℕ → ℕ → ℕ → ℕ → List Bytes
page_lines z s d source sh dh top bottom =
    let blank = replicate z.out_buf_size z.white in
    replicate top blank ++ (placed_lines z s d source sh dh (suc dh) 0 ++ replicate bottom blank)

module _ (z : Sizes) (s d : ℕ) (v : IsSized z s d) (source : ℕ → Bytes) (sh dh : ℕ)
    (positive : 0 < dh) (long : (i : ℕ) → suc s * z.num_colors ≤ length (source i))
    (width out_h top : ℕ) (r : Raster) (colors : 0 < z.num_colors) (wide : 0 < width)
    (line : z.out_buf_size ≡ width * z.num_colors) (fits : top + suc dh ≤ out_h)
    (fresh : IsFresh z.num_colors width out_h r) where
  abbrev pub bottom : ℕ
  bottom = out_h - suc dh - top

  blank : Bytes
  blank = replicate z.out_buf_size z.white

  upper : List Bytes
  upper = replicate top blank ++ placed_lines z s d source sh dh (suc dh) 0

  All-blank : (n : ℕ) → All (λ x. length x ≡ z.out_buf_size) (replicate n blank)
  unfolding blank
  All-blank n = All-replicate _ n blank (length-replicate z.out_buf_size z.white)

  All-upper : All (λ x. length x ≡ z.out_buf_size) upper
  unfolding upper
  All-upper =
      All-append _ (replicate top blank) _ (All-blank top)
        (placed_lines-All z s d v source sh dh positive long (suc dh) 0)

  length-upper : length upper ≡ top + suc dh
  unfolding upper
  length-upper = omega (
    arith,
    length-append (replicate top blank) (placed_lines z s d source sh dh (suc dh) 0),
    length-replicate top blank,
    length-placed_lines z s d v source sh dh positive long (suc dh) 0,
  )

  upper-IsSound : IsSound (write_all r upper).device
  upper-IsSound =
      write_all-IsSound z.num_colors width out_h r upper colors wide (omega (arith, fits)) fresh (
        omega (
          arith,
          length-joined z.out_buf_size upper All-upper,
          mul-le-mul_right z.out_buf_size (subst (λ n. n ≤ out_h) (sym length-upper) fits),
          ap (λ n. out_h * n) line,
        ))

  page_lines-upper : page_lines z s d source sh dh top bottom ≡ upper ++ replicate bottom blank
  unfolding page_lines upper blank
  page_lines-upper =
      sym (append_assoc (replicate top blank) (placed_lines z s d source sh dh (suc dh) 0) _)

  pub length-page :
      length (joined (page_lines z s d source sh dh top bottom)) ≡ out_h * (width * z.num_colors)
  length-page =
      ap (λ ls. length (joined ls)) page_lines-upper
      ∙ length-joined z.out_buf_size (upper ++ replicate bottom blank)
          (All-append _ upper _ All-upper (All-blank bottom))
      ∙ ap (λ n. n * z.out_buf_size) rows
      ∙ ap (λ n. out_h * n) line
    where
      rows : length (upper ++ replicate bottom blank) ≡ out_h
      rows = omega (
        arith,
        fits,
        length-upper,
        length-append upper (replicate bottom blank),
        length-replicate bottom blank,
      )

  pub print_normal-write_all :
      (in_ptr : Bytes) (w : ℕ) (ofs : ℤ)
      → print_normal source z
          (record { dst_w = w; dst_h = suc dh; ofs_w = ofs; ofs_h = pos top })
          out_h
          dh
          (sh / dh)
          (sh % dh)
          in_ptr
          r
        ≡ done (write_all r (page_lines z s d source sh dh top bottom))
  unfolding print_normal blank upper
  print_normal-write_all in_ptr w ofs =
      rw (above, middle, print_normal)
        (ap done (write_white_line-write_all _ z.white z.out_buf_size bottom granted ∙ together))
    where
      above : (write_white_line r z.white z.out_buf_size top).1 ≡ write_all r (replicate top blank)
      above =
          write_white_line-write_all r z.white z.out_buf_size top (fresh.sound.roomy z.out_buf_size)

      middle :
          print_lines source z dh
            (sh / dh)
            (sh % dh)
            (suc dh)
            (record { cursor = record start { saved = in_ptr }; calls = 0 })
            (write_all r (replicate top blank))
          ≡ done (
              write_all
                (write_all r (replicate top blank))
                (placed_lines z s d source sh dh (suc dh) 0))
      middle =
          print_lines-placed_lines z s d v source sh dh positive long (suc dh) 0 (sh / dh) (sh % dh)
            _ _ (omega arith) (omega arith) (saved-Tracks z s d v source sh dh positive long in_ptr)
            (start-Counts z s d v source sh dh positive long in_ptr)

      joins :
          write_all (write_all r (replicate top blank)) (placed_lines z s d source sh dh (suc dh) 0)
          ≡ write_all r upper
      joins = sym (write_all-append r (replicate top blank) _)

      granted :
          (write_all
              (write_all r (replicate top blank))
              (placed_lines z s d source sh dh (suc dh) 0)).device.grant
            z.out_buf_size
          ≡ true
      granted = ap (λ q. q.device.grant z.out_buf_size) joins ∙ upper-IsSound.roomy z.out_buf_size

      together :
          write_all
            (write_all
              (write_all r (replicate top blank))
              (placed_lines z s d source sh dh (suc dh) 0))
            (replicate bottom blank)
          ≡ write_all r (page_lines z s d source sh dh top bottom)
      together =
          ap (λ q. write_all q (replicate bottom blank)) joins
          ∙ sym (write_all-append r upper (replicate bottom blank))
          ∙ ap (write_all r) (sym page_lines-upper)

  -- The normal print of a page, on a fresh raster with lines of `width` pixels whose device answers
  -- no error, from an input that has all its rows: it ends well, and the file grows by a code from
  -- which a reader of the format gets rows whose bytes are the top margin, for each of the `suc dh`
  -- rows of the image the nearest input row, scaled and put at its place, and the bottom margin.
  pub decode_page-print_normal :
      (in_ptr rest : Bytes) (w : ℕ) (ofs : ℤ)
      → (end : Raster) × (code : Bytes) × (rows : List (List Pixel)) × (print_normal source z
            (record { dst_w = w; dst_h = suc dh; ofs_w = ofs; ofs_h = pos top })
            out_h
            dh
            (sh / dh)
            (sh % dh)
            in_ptr
            r
          ≡ done end)
        × (end.device.bytes ≡ r.device.bytes ++ code)
        × (decode_page out_h z.num_colors width out_h (code ++ rest) ≡ some (rows, rest))
        × (flat rows ≡ joined (page_lines z s d source sh dh top (out_h - suc dh - top)))
  decode_page-print_normal in_ptr rest w ofs =
      let page =
        page_of_pieces z.num_colors width out_h r (page_lines z s d source sh dh top bottom) rest
          colors wide (omega (arith, fits)) fresh length-page in
      (_, page.0, page.1, print_normal-write_all in_ptr w ofs, page.2, page.3, page.4)
