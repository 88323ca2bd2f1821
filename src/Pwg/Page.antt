-- ===== src/Pwg/Page.antt =====
-- tocnpwg/src/main.c, `CreatePWGPageData`: a page of the input raster becomes a page of PWG raster.
pub mod Lines
pub mod Print
mod Tests
use cnijfilter.Common.{
  ℕ, zero, suc, ◌+◌, ◌-◌, ◌*◌, ◌||◌, Option, none, some, ◌++◌, ◌==◌, if◌then◌else◌, take, drop,
  replicate, pos, pos_part, neg_part, is_zero, int_is,
}
use cnijfilter.Pwg.PackBits.{Bytes}
use cnijfilter.Pwg.Raster.{Raster, write_pixels, write_white_line}
use cnijfilter.Pwg.Extend.{Cursor, carry, advance, start, h_extend}
use cnijfilter.Pwg.Scale.{Placement}

-- How the call ends: with result 0, with result -1, or by undefined behaviour (a division by zero,
-- or a write before the buffer).
pub data Ended : Type 0 where
  done : Raster → Ended
  failed : Raster → Ended
  crashed : Ended

-- `switch (inheader->cupsColorSpace)`: the value of white for CUPS_CSPACE_W, RGB, K and CMYK.
unfoldable pub white_of : ℕ → Option ℕ
white_of space =
    if space == 0 || space == 1 then some 255 else if space == 3 || space == 6 then some 0 else none

-- The variables of the loop over `y`, and the number of calls so far; `saved` is `in_ptr`.
pub record LineState : Type 0 where
  pub cursor : Cursor
  pub calls : ℕ

-- The sizes of the page that the loops use.
pub record Sizes : Type 0 where
  pub in_w : ℕ
  pub dst_w : ℕ
  pub ofs_w : ℕ
  pub num_colors : ℕ
  pub white : ℕ
  pub out_buf_size : ℕ

-- The output line for an input line: cleared, and the scaled line put at its place.
pub out_line : Sizes → Bytes → Option Bytes
out_line z in_ptr =
    let blank = replicate z.out_buf_size z.white in
    let at_line = z.ofs_w * z.num_colors in
    let (result, line) =
      h_extend in_ptr (drop at_line blank) (pos z.in_w) (pos z.dst_w) z.num_colors in
    if is_zero result then some (take at_line blank ++ line) else none

-- What the loops read: `source n` is what the n-th call of `cupsRasterReadPixels` of the page
-- leaves in the input buffer. Its result is unsigned, so the test `< 0` is never met.
module _ (source : ℕ → Bytes) where
  -- `for (i = 0; i < cnt; i++) cupsRasterReadPixels (...)`, from the n-th call on.
  pub read_rows : ℕ → ℕ → Bytes → Bytes
  read_rows zero n buf = buf
  read_rows (suc i) n buf = read_rows i (n + 1) (source n)

  -- `if (curr_pos != prev_pos) { cnt = curr_pos - prev_pos; ... }`
  pub fetch_rows : LineState → LineState
  fetch_rows s =
      let c = s.cursor in
      let cnt = c.curr_pos + neg_part c.prev_pos - pos_part c.prev_pos in
      if int_is c.prev_pos c.curr_pos then s else record {
        cursor = record c { prev_pos = pos c.curr_pos; saved = read_rows cnt s.calls c.saved };
        calls = s.calls + cnt;
      }

  -- The loop over `y` of the normal print, with the rounds left; `d` is `dst_h - 1`. The test
  -- `! n < 0` of the result of `pwgRasterWritePixels` is never met.
  pub print_lines : Sizes → ℕ → ℕ → ℕ → ℕ → LineState → Raster → Ended
  print_lines z d quotient rest zero s r = done r
  print_lines z d quotient rest (suc n) s r =
      let s' = fetch_rows (record s { cursor = carry d s.cursor }) in
      elim (out_line z s'.cursor.saved) [
        | none ↦ failed r
        | some line ↦
            print_lines z d quotient rest n (record s' { cursor = advance quotient rest s'.cursor })
              (write_pixels r line).1
      ]

  -- The normal print: top margin, lines, bottom margin.
  pub print_normal : Sizes → Placement → ℕ → ℕ → ℕ → ℕ → Bytes → Raster → Ended
  print_normal z p out_h d quotient rest in_ptr r =
      let top = (write_white_line r z.white z.out_buf_size (pos_part p.ofs_h)).1 in
      let lines =
        print_lines z d quotient rest p.dst_h
          (record { cursor = record start { saved = in_ptr }; calls = 0 }) top in
      elim lines [
        | done r' ↦
            done (write_white_line r' z.white z.out_buf_size (out_h - p.dst_h - pos_part p.ofs_h)).1
        | failed r' ↦ failed r'
        | crashed ↦ crashed
      ]
