-- ===== src/Pwg/Create.antt =====
-- tocnpwg/src/main.c, `pwgRasterTempOpen` and `CreatePWGPageData`: the whole call for a page.
pub mod Laws
use cnijfilter.Common.{
  ℕ, ◌-◌, ◌*◌, ◌/◌, ◌%◌, ◌^◌, Bool, true, false, not, ◌&&◌, Option, none, some, List, [], ◌==◌,
  if◌then◌else◌, ltb, length, replicate, ℤ, pos, negsuc, pos_part,
}
use cnijfilter.Pwg.PackBits.{Bytes}
use cnijfilter.Pwg.Device.{Answer, Device, raster_io}
use cnijfilter.Pwg.Raster.{Raster}
use cnijfilter.Pwg.Header.{Header, FileHeader, write_header}
use cnijfilter.Pwg.Scale.{Double, Placement, compute_destination_size}
use cnijfilter.Pwg.Page.{Ended, failed, crashed, Sizes, white_of, print_normal}
use cnijfilter.Pwg.Rotate.{print_rotated}

-- `pwgRasterTempOpen` on the file that mkstemp made: the cleared structure. The result of
-- `cups_raster_io` is unsigned where it is compared, so -1 passes; where it is too small, `none`
-- stands for the pointer that is given back after it was freed.
unfoldable pub temp_open : Bytes → Device → Option Raster
temp_open sync fd =
    let (n, d) = raster_io fd sync in
    let r : Raster = record {
      device = d;
      bytes_per_line = 0;
      count = 0;
      remaining = 0;
      bpp = 0;
      pixels = [];
      pend = 0;
      pcurrent = 0;
      compressed = true;
      bufsize = 0;
    } in
    elim n [ pos k ↦ if ltb k (length sync) then none else some r | negsuc k ↦ some r ]

-- A page of the input: its header, and what each call of `cupsRasterReadPixels` leaves.
pub record InPage : Type 0 where
  pub header : Header
  pub rows : ℕ → Bytes

-- The options of the job.
pub record JobOptions : Type 0 where
  pub printable_width : ℕ
  pub printable_height : ℕ
  pub is_rotate : Bool

-- `cupsColorOrder` and `cupsBitsPerColor` are ones that the filter handles.
unfoldable pub is_supported : Header → Bool
is_supported h =
    h.color_order == 0
    && not (
        not (h.bits_per_pixel == 1)
        && (not (h.bits_per_color == 8) && not (h.bits_per_color == 16)))

unfoldable pub size_or : ℕ → ℕ → ℕ
size_or printable given = if not (printable == 0) then printable else given

-- The header that goes out: that of the input, with the size of the output.
unfoldable pub out_header : Header → ℕ → ℕ → Header
out_header h out_w out_h = record h {
  cups_width = out_w % 2 ^ 32;
  cups_height = out_h % 2 ^ 32;
  bytes_per_line = out_w % 2 ^ 32 * h.num_colors % 2 ^ 32;
}

-- The call past the header, on the raster with the header: the buffers, the division by
-- `dst_h - 1`, and the print, which turns the odd pages of a job that rotates. A negative
-- offset makes `h_extend` write before the buffer.
unfoldable pub print_page : ℕ → InPage → ℕ → Placement → ℕ → ℕ → Bool → List Answer → Raster → Ended
print_page page p white place out_h out_buf_size is_rotate answers r =
    let z : Sizes = record {
      in_w = p.header.cups_width;
      dst_w = place.dst_w;
      ofs_w = pos_part place.ofs_w;
      num_colors = p.header.num_colors;
      white = white;
      out_buf_size = out_buf_size;
    } in
    let d = place.dst_h - 1 in
    let in_ptr = replicate p.header.bytes_per_line white in
    let s = p.header.cups_height - 1 in
    if not (r.device.grant p.header.bytes_per_line && r.device.grant out_buf_size)
    then failed r
    else if place.dst_h == 1
    then crashed
    else elim place.ofs_w [
      | negsuc n ↦ crashed
      | pos n ↦
          if is_rotate && page % 2 == 1
          then print_rotated p.rows z place out_h d (s / d) (s % d) in_ptr answers r
          else print_normal p.rows z place out_h d (s / d) (s % d) in_ptr r
    ]

module _ (double : Double) (layout : FileHeader → Bytes) where
  unfoldable pub create_page : JobOptions → List Answer → ℕ → InPage → Raster → Ended
  create_page o answers page p r = elim (white_of p.header.color_space) [
    | none ↦ failed r
    | some white ↦
        let out_w = size_or o.printable_width p.header.cups_width in
        let out_h = size_or o.printable_height p.header.cups_height in
        let place =
          compute_destination_size double p.header.cups_width p.header.cups_height out_w out_h in
        let outheader = out_header p.header out_w out_h in
        let (ok, r') = write_header layout r outheader in
        if not (is_supported p.header)
        then failed r
        else if not ok
        then failed r'
        else print_page page p white place out_h outheader.bytes_per_line o.is_rotate answers r'
  ]
