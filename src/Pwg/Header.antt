-- ===== src/Pwg/Header.antt =====
-- tocnpwg/src/main.c, `pwgraster_update` and `pwgRasterWriteHeader`: the header of a page.
pub mod Laws
use cnijfilter.Common.{
  ◌^◌, ℕ, zero, suc, ◌+◌, ◌*◌, ◌/◌, ◌%◌, Bool, true, false, not, List, [], ◌∷◌, ◌++◌, ◌==◌,
  if◌then◌else◌, length, replicate, ℤ, pos, negsuc, int_is,
}
use cnijfilter.Pwg.PackBits.{Bytes}
use cnijfilter.Pwg.Device.{raster_io}
use cnijfilter.Pwg.Raster.{Raster}

-- The fields of `cups_page_header2_t` that the filter reads. `bbox_pixels i n` is
-- `(unsigned) (cupsImagingBBox[i] * n)`, a product of floats.
pub record Header : Type 0 where
  pub media_color : Bytes
  pub media_type : Bytes
  pub output_type : Bytes
  pub rendering_intent : Bytes
  pub page_size_name : Bytes
  pub cut_media : ℕ
  pub duplex : ℕ
  pub resolution_x : ℕ
  pub resolution_y : ℕ
  pub bounding_box : List ℕ
  pub insert_sheet : ℕ
  pub jog : ℕ
  pub leading_edge : ℕ
  pub manual_feed : ℕ
  pub media_position : ℕ
  pub media_weight : ℕ
  pub num_copies : ℕ
  pub orientation : ℕ
  pub page_size : List ℕ
  pub tumble : ℕ
  pub cups_width : ℕ
  pub cups_height : ℕ
  pub bits_per_color : ℕ
  pub bits_per_pixel : ℕ
  pub bytes_per_line : ℕ
  pub color_order : ℕ
  pub color_space : ℕ
  pub num_colors : ℕ
  pub integer_1 : ℕ
  pub integer_2 : ℕ
  pub bbox_pixels : ℕ → ℕ → ℕ

-- `pwgraster_update`, where `calloc` succeeds, for `cupsColorOrder` CUPS_ORDER_CHUNKED (0) or not; CUPS_ORDER_PLANAR is 2.
pub update : Raster → Header → Raster
update r h = record r {
  bytes_per_line = h.bytes_per_line;
  bpp =
      if h.color_order == 0
      then (h.bits_per_pixel + 7) % 2 ^ 32 / 8
      else (h.bits_per_color + 7) % 2 ^ 32 / 8;
  remaining = if h.color_order == 2 then h.cups_height * h.num_colors % 2 ^ 32 else h.cups_height;
  pixels = if r.compressed then replicate h.bytes_per_line 0 else r.pixels;
  pcurrent = if r.compressed then 0 else r.pcurrent;
  pend = if r.compressed then h.bytes_per_line else r.pend;
  count = if r.compressed then 0 else r.count;
}

-- The header of the file: texts and words, by the member of `cups_page_header2_t` that they fill.
pub record FileHeader : Type 0 where
  pub media_class : Bytes
  pub texts : List Bytes
  pub words : List ℕ
  pub color_space : ℕ
  pub num_colors : ℕ
  pub integers : List ℕ

-- "PwgRaster"
abbrev pub pwg_raster : Bytes
pwg_raster = b'P' ∷ b'w' ∷ b'g' ∷ b'R' ∷ b'a' ∷ b's' ∷ b't' ∷ b'e' ∷ b'r' ∷ []

-- `htonl` on a little-endian host.
pub htonl : ℕ → ℕ
htonl n = n % 256 * 16777216 + n / 256 % 256 * 65536 + n / 65536 % 256 * 256 + n / 16777216 % 256

pub map_htonl : List ℕ → List ℕ
map_htonl [] = []
map_htonl (n ∷ ns) = htonl n ∷ map_htonl ns

pub file_header : Header → FileHeader
file_header h = record {
  media_class = pwg_raster;
  texts = h.media_color ∷ h.media_type ∷ h.output_type ∷ h.rendering_intent ∷ h.page_size_name ∷ [];
  words = map_htonl (
      (h.cut_media ∷ h.duplex ∷ h.resolution_x ∷ h.resolution_y ∷ h.bounding_box)
      ++ ((h.insert_sheet ∷ h.jog ∷ h.leading_edge ∷ h.manual_feed ∷ h.media_position
            ∷ h.media_weight ∷ h.num_copies ∷ h.orientation ∷ h.page_size)
          ++ (h.tumble ∷ h.cups_width ∷ h.cups_height ∷ h.bits_per_color ∷ h.bits_per_pixel
              ∷ h.bytes_per_line ∷ h.color_order ∷ [])));
  color_space = htonl 19;
  num_colors = htonl h.num_colors;
  integers = map_htonl (
      1
      ∷ h.integer_1
      ∷ h.integer_2
      ∷ h.bbox_pixels 0 h.resolution_x
      ∷ h.bbox_pixels 1 h.resolution_y
      ∷ h.bbox_pixels 2 h.resolution_x
      ∷ h.bbox_pixels 3 h.resolution_y
      ∷ 0xffffff
      ∷ []);
}

-- `pwgRasterWriteHeader` on a raster that is there. `layout` gives the bytes of the structure.
pub write_header : (FileHeader → Bytes) → Raster → Header → Bool × Raster
write_header layout r h =
    let r1 = update r h in
    let fh = layout (file_header h) in
    let (n, d) = raster_io r1.device fh in (int_is n (length fh), record r1 { device = d })
