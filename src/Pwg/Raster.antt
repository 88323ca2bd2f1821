-- ===== src/Pwg/Raster.antt =====
-- tocnpwg/src/main.c, `pwg_raster_s`, `cups_raster_write`, `pwgRasterWritePixels` and
-- `WriteWhiteLineToPWG`: rows of pixels become compressed rows with a repeat count.
pub mod Pages
pub mod Flush
pub mod Step
pub mod Piece
pub mod Write
pub mod Lines
use cnijfilter.Common.{
  ℕ, zero, suc, ◌+◌, ◌-◌, ◌*◌, ◌/◌, ◌%◌, ◌^◌, min, Bool, true, false, List, [], ◌∷◌, ◌++◌, ltb, leb,
  ◌==◌, if◌then◌else◌, take, drop, length, replicate, ℤ, pos, negsuc, is_zero, to_unsigned,
}
use cnijfilter.Pwg.PackBits.{Bytes, Pixel, same_bytes, pixels_of, encode_row}
use cnijfilter.Pwg.Device.{Device, raster_io}

-- `pwg_raster_s`. Of the saved page header only `cupsBytesPerLine` is read after the header went
-- out. `pcurrent` and `pend` are offsets into `pixels`; the contents of the write buffer do not
-- outlive a call, so its size alone is kept.
pub record Raster : Type 0 where
  pub device : Device
  pub bytes_per_line : ℕ
  pub count : ℕ
  pub remaining : ℕ
  pub bpp : ℕ
  pub pixels : Bytes
  pub pend : ℕ
  pub pcurrent : ℕ
  pub compressed : Bool
  pub bufsize : ℕ

-- `(size_t) count` for an `int count` given by its bit pattern.
pub size_of_int : ℕ → ℕ
size_of_int w = if ltb w (2 ^ 31) then w else w + (2 ^ 64 - 2 ^ 32)

-- What `cups_raster_write` puts into its buffer: the repeat count, less one, and the row. The row
-- is a whole number of pixels of `bpp` bytes.
pub row_bytes : Raster → Bytes → Bytes
row_bytes r pixels =
    ((r.count + 255) % 256) ∷ encode_row (pixels_of r.bpp (r.bytes_per_line / r.bpp) pixels)

-- `cups_raster_write`. `malloc` and `realloc` are asked for the size of the buffer.
pub raster_write : Raster → Bytes → ℤ × Raster
raster_write r pixels =
    let size = size_of_int (r.bytes_per_line * 2 % 2 ^ 32) in
    let (n, d) = raster_io r.device (row_bytes r pixels) in
    if ltb r.bufsize size
    then (if r.device.grant size
        then (n, record r { device = d; bufsize = size })
        else (negsuc 0, r))
    else (n, record r { device = d })

-- How a round of the loop of `pwgRasterWritePixels` ends: a return, or the next round.
pub data Round : Type 0 where
  return : ℕ → Raster → Round
  next : Raster → Round

-- A row is complete: `count` rows in a row are the same.
pub row_done : Raster → Raster
row_done r = record r { count = r.count + 1; pcurrent = 0; remaining = r.remaining - 1 }

-- `return (cups_raster_write (r, r->pixels))`
pub flush_last : Raster → Round
flush_last r = let (n, r') = raster_write r r.pixels in return (to_unsigned n) r'

-- `if (!cups_raster_write (r, r->pixels)) return (0); r->count = 0;`
pub flush : Raster → Round
flush r =
    let (n, r') = raster_write r r.pixels in
    if is_zero n then return 0 r' else next (record r' { count = 0 })

-- The bytes are those of the previous row.
pub same_piece : Raster → Bytes → Round
same_piece r piece =
    let r1 = record r { pcurrent = r.pcurrent + length piece } in
    let r2 = row_done r1 in
    if leb r1.pend r1.pcurrent
    then (if r2.remaining == 0
        then flush_last r2
        else if r2.count == 256
        then flush r2
        else next r2)
    else next r1

-- `if (r->count == 0)`: the bytes are copied into the row.
pub copy_piece : Raster → Bytes → Round
copy_piece r piece =
    let r1 = record r {
      pixels = take r.pcurrent r.pixels ++ piece ++ drop (r.pcurrent + length piece) r.pixels;
      pcurrent = r.pcurrent + length piece;
    } in
    let r2 = row_done r1 in
    if leb r1.pend r1.pcurrent
    then (if r2.remaining == 0 then flush_last r2 else next r2)
    else next r1

-- The bytes differ from the previous row, which goes out first.
pub other_piece : Raster → Bytes → Round
other_piece r piece = elim (flush r) [ return n r' ↦ return n r' | next r' ↦ copy_piece r' piece ]

-- One round, for the bytes that fit the current line.
pub write_piece : Raster → Bytes → Round
write_piece r piece =
    if ltb 0 r.count
    then (if same_bytes piece (take (length piece) (drop r.pcurrent r.pixels))
        then same_piece r piece
        else other_piece r piece)
    else copy_piece r piece

-- The loop of `pwgRasterWritePixels` over the bytes that are left; `len` is its result at the end.
-- Each round takes a byte at least while the line has room, so `len` is enough fuel.
pub write_loop : ℕ → ℕ → Raster → Bytes → ℕ × Raster
write_loop fuel len r [] = (len, r)
write_loop zero len r (b ∷ p) = (len, r)
write_loop (suc fuel) len r (b ∷ p) =
    let bytes = min (length (b ∷ p)) (r.pend - r.pcurrent) in
    elim (write_piece r (take bytes (b ∷ p))) [
      | return n r' ↦ (n, r')
      | next r' ↦ write_loop fuel len r' (drop bytes (b ∷ p))
    ]

-- `pwgRasterWritePixels` on a raster that is there.
pub write_pixels : Raster → Bytes → ℕ × Raster
write_pixels r p =
    let written = write_loop (length p) (length p) r p in
    if r.remaining == 0 then (0, r) else if r.compressed then written else (0, r)

-- The loop of `WriteWhiteLineToPWG`. Its test `! n < 0` holds for no result `n`.
unfoldable pub white_lines : ℕ → Raster → Bytes → Raster
white_lines zero r line = r
white_lines (suc i) r line = white_lines i (write_pixels r line).1 line

-- `WriteWhiteLineToPWG`: -1 where the line cannot be allocated, and 0 otherwise.
pub write_white_line : Raster → ℕ → ℕ → ℕ → ℤ × Raster
write_white_line r white out_buf_size line_num =
    if r.device.grant out_buf_size
    then (pos 0, white_lines line_num r (replicate out_buf_size white))
    else (negsuc 0, r)
