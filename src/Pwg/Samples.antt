-- ===== src/Pwg/Samples.antt =====
-- A small page, for runs of tocnpwg.
use cnijfilter.Common.{[], ◌∷◌, ◌*◌, ◌++◌}
use cnijfilter.Pwg.PackBits.{Bytes}
use cnijfilter.Pwg.Header.{Header, FileHeader}

-- A grey page of two rows of two pixels.
abbrev pub small_page : Header
small_page = record {
  media_color = [];
  media_type = b'P' ∷ b'l' ∷ b'a' ∷ b'i' ∷ b'n' ∷ [];
  output_type = [];
  rendering_intent = [];
  page_size_name = b'A' ∷ b'4' ∷ [];
  cut_media = 0;
  duplex = 0;
  resolution_x = 600;
  resolution_y = 600;
  bounding_box = 0 ∷ 0 ∷ 595 ∷ 842 ∷ [];
  insert_sheet = 0;
  jog = 0;
  leading_edge = 0;
  manual_feed = 0;
  media_position = 0;
  media_weight = 0;
  num_copies = 1;
  orientation = 0;
  page_size = 595 ∷ 842 ∷ [];
  tumble = 0;
  cups_width = 2;
  cups_height = 2;
  bits_per_color = 8;
  bits_per_pixel = 8;
  bytes_per_line = 2;
  color_order = 0;
  color_space = 0;
  num_colors = 1;
  integer_1 = 1;
  integer_2 = 1;
  bbox_pixels = λ i n. i * n;
}

-- A part of the members, one byte each.
abbrev pub brief : FileHeader → Bytes
brief f = f.media_class ++ f.words
