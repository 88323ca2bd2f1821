-- ===== src/Pwg/Rotate.antt =====
-- tocnpwg/src/main.c, `WriteWhiteLineToRAW` and "Rotate 180 degree" of `CreatePWGPageData`: a page
-- goes through a temporary file and comes back from its last line to its first.
pub mod Lines
pub mod Back
pub mod Print
use cnijfilter.Common.{
  ℕ, zero, suc, ◌-◌, ◌*◌, ◌/◌, Option, none, some, List, [], ◌++◌, if◌then◌else◌, take, drop,
  length, replicate, ℤ, pos, negsuc, pos_part, is_zero,
}
use cnijfilter.Pwg.PackBits.{Bytes}
use cnijfilter.Pwg.Device.{Answer, Device}
use cnijfilter.Posix.{wrote, write_eintr, write_error, write_once}
use cnijfilter.Pwg.Raster.{Raster, write_pixels}
use cnijfilter.Pwg.Extend.{carry, advance, start}
use cnijfilter.Pwg.Mirror.{mirror_raster}
use cnijfilter.Pwg.Scale.{Placement}
use cnijfilter.Pwg.Page.{Ended, done, failed, LineState, Sizes, out_line, fetch_rows}

-- The loop of `WriteWhiteLineToRAW`, with the rounds left. A write that is cut short is not seen.
unfoldable pub raw_white_lines : ℕ → Device → Bytes → ℤ × Device
raw_white_lines zero fd line = (pos 0, fd)
raw_white_lines (suc n) fd line = elim (write_once fd line).0 [
  | wrote k ↦ raw_white_lines n (write_once fd line).1 line
  | write_eintr ↦ (negsuc 0, (write_once fd line).1)
  | write_error ↦ (negsuc 0, (write_once fd line).1)
]

unfoldable pub write_white_line_raw : Device → ℕ → ℕ → ℕ → ℤ × Device
write_white_line_raw fd white out_buf_size line_num =
    if fd.grant out_buf_size
    then raw_white_lines line_num fd (replicate out_buf_size white)
    else (negsuc 0, fd)

-- The calls of `h_extend` and `mirror_raster` for a line.
unfoldable pub mirrored_line : Sizes → Bytes → Option Bytes
mirrored_line z in_ptr = elim (out_line z in_ptr) [
  | none ↦ none
  | some line ↦
      let (result, line') = mirror_raster line (z.out_buf_size / z.num_colors) z.num_colors in
      if is_zero result then some line' else none
]

-- The loop over `y` that fills the temporary file, with the rounds left; `d` is `dst_h - 1`, and
-- `out_ptr` is the output buffer. An error ends the call.
unfoldable pub raw_lines :
    (ℕ → Bytes) → Sizes → ℕ → ℕ → ℕ → ℕ → LineState → Bytes → Device → Option (Bytes × Device)
raw_lines source z d quotient rest zero s out_ptr fd = some (out_ptr, fd)
raw_lines source z d quotient rest (suc n) s out_ptr fd =
    let s' = fetch_rows source (record s { cursor = carry d s.cursor }) in
    elim (mirrored_line z s'.cursor.saved) [
      | none ↦ none
      | some line ↦ elim (write_once fd line).0 [
        | wrote k ↦
            raw_lines source z d quotient rest n
              (record s' { cursor = advance quotient rest s'.cursor }) line (write_once fd line).1
        | write_eintr ↦ none
        | write_error ↦ none
      ]
    ]

-- `lseek (tmp_fd, read_top, SEEK_SET); read (tmp_fd, out_ptr, out_buf_size);`: what the regular
-- file has from there on replaces the first bytes of the buffer.
unfoldable pub read_at : Device → ℕ → Bytes → Bytes
read_at fd read_top out_ptr =
    let bytes = take (length out_ptr) (drop read_top fd.bytes) in
    bytes ++ drop (length bytes) out_ptr

-- The loop over `y` that reads the file back, with the rounds left: `dst_h - y - 1` is one less.
unfoldable pub print_back : ℕ → ℕ → Device → Bytes → Raster → Raster
print_back out_buf_size zero fd out_ptr r = r
print_back out_buf_size (suc n) fd out_ptr r =
    let line = read_at fd (n * out_buf_size) out_ptr in
    print_back out_buf_size n fd line (write_pixels r line).1

-- The rotated print. `answers` are those of the writes to the temporary file.
unfoldable pub print_rotated :
    (ℕ → Bytes) → Sizes → Placement → ℕ → ℕ → ℕ → ℕ → Bytes → List Answer → Raster → Ended
print_rotated source z p out_h d quotient rest in_ptr answers r =
    let tmp_fd : Device = record { bytes = []; answers = answers; grant = r.device.grant } in
    let above = (write_white_line_raw tmp_fd z.white z.out_buf_size (pos_part p.ofs_h)).1 in
    elim (raw_lines source z d quotient rest p.dst_h
      (record { cursor = record start { saved = in_ptr }; calls = 0 })
      (replicate z.out_buf_size z.white) above) [
        | none ↦ failed r
        | some filled ↦ done (
            print_back z.out_buf_size p.dst_h
              (write_white_line_raw filled.1 z.white z.out_buf_size
                (out_h - p.dst_h - pos_part p.ofs_h)).1
              filled.0 r)
      ]
