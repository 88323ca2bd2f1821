-- ===== src/Pwg/Header/Laws.antt =====
-- A page starts with its header, and is then ready for its rows.
use cnijfilter.Common.{
  ℕ, ◌+◌, ◌*◌, ◌^◌, ◌<◌, ◌≡◌, refl, ap, ◌∙◌, true, List, ◌++◌, some, length, length-replicate,
  replicate, append_assoc, arith, ==_iff, int_is,
}
use cnijfilter.Pwg.PackBits.{Bytes, Pixel}
use cnijfilter.Pwg.PackBits.Decode.{decode_page}
use cnijfilter.Pwg.Device.{raster_io}
use cnijfilter.Pwg.Device.Laws.{IsSound, Sent, raster_io-Sent}
use cnijfilter.Pwg.Raster.{Raster}
use cnijfilter.Pwg.Raster.Pages.{flat}
use cnijfilter.Pwg.Raster.Write.{write_all, joined, IsFresh, page_of_pieces}
use cnijfilter.Pwg.Header.{Header, FileHeader, update, file_header, write_header}

-- A chunked page of `height` rows of `width` pixels of `bpp` bytes.
pub record IsChunked (bpp width height : ℕ) (h : Header) : Type 0 where
  pub order : h.color_order ≡ 0
  pub bits : h.bits_per_pixel ≡ bpp * 8
  pub low : bpp * 8 + 7 < 2 ^ 32
  pub line : h.bytes_per_line ≡ width * bpp
  pub rows : h.cups_height ≡ height

module _ (layout : FileHeader → Bytes) (bpp width height : ℕ) (r : Raster) (h : Header)
    (packed : r.compressed ≡ true) (sound : IsSound r.device)
    (c : IsChunked bpp width height h) where
  sent : Sent r.device 0 (layout (file_header h)) (raster_io r.device (layout (file_header h)))
  sent = raster_io-Sent r.device (layout (file_header h)) sound

  pub write_header-IsFresh : IsFresh bpp width height (write_header layout r h).1
  unfolding write_header update
  write_header-IsFresh = record {
    sound = sent.wrote.sound;
    shape = record {
      pixel = pixel_size;
      line = c.line;
      pend = (rw packed refl) ∙ c.line;
      row = ap length buffer ∙ length-replicate h.bytes_per_line 0 ∙ c.line;
      packed = packed;
    };
    none_waits = rw packed refl;
    start = rw packed refl;
    rows = rw c.order c.rows;
  }
    where
      pixel_size : (update r h).bpp ≡ bpp
      pixel_size = rw (c.order, c.bits) (omega (arith, c.low))

      buffer : (update r h).pixels ≡ replicate h.bytes_per_line 0
      buffer = rw packed refl

  pub taken_whole : (write_header layout r h).0 ≡ true
  unfolding write_header int_is update file_header
  taken_whole = rw sent.count ((==_iff (0 + length (layout (file_header h))) _).1 (omega arith))

  written : (write_header layout r h).1.device.bytes ≡ r.device.bytes ++ layout (file_header h)
  unfolding write_header update
  written = sent.wrote.bytes

  -- After the header of a chunked page on a device that answers no error, the rows of the page,
  -- written in pieces of any lengths, follow as a code that a reader of the format gets back.
  pub decode_page-write_header :
      (pieces : List Bytes) (rest : Bytes)
      → 0 < bpp
      → 0 < width
      → 0 < height
      → length (joined pieces) ≡ height * (width * bpp)
      → ((write_header layout r h).0 ≡ true)
        × (code : Bytes) × (rows : List (List Pixel)) × ((write_all
              (write_header layout r h).1
              pieces).device.bytes
            ≡ r.device.bytes ++ (layout (file_header h) ++ code))
        × (decode_page height bpp width height (code ++ rest) ≡ some (rows, rest))
        × (flat rows ≡ joined pieces)
  decode_page-write_header pieces rest pb pw ph l =
      let body =
        page_of_pieces bpp width height (write_header layout r h).1 pieces rest pb pw ph
          write_header-IsFresh l in
      (
        taken_whole,
        body.0,
        body.1,
        body.2 ∙ ap (λ b. b ++ body.0) written ∙ append_assoc r.device.bytes _ body.0,
        body.3,
        body.4,
      )
