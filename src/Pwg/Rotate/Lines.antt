-- ===== src/Pwg/Rotate/Lines.antt =====
-- The lines that the rotated print puts into its temporary file: those of the normal print, each
-- from its right end to its left.
use cnijfilter.Common.{
  ℕ, zero, suc, ◌+◌, ◌*◌, ◌/◌, ◌≤◌, ◌<◌, ◌≡◌, refl, sym, ap, ◌∙◌, true, Bool, Option, some, List,
  [], ◌∷◌, ◌++◌, reverse, append_assoc, append-nil, length, replicate, All, All-reverse,
  length-reverse, pos, is_zero,
}
use native.Mathlib.Nat.{mul-div_cancel}
use cnijfilter.Pwg.PackBits.{Bytes, pixels_of, concat}
use cnijfilter.Pwg.PackBits.Decode.{HasSize}
use cnijfilter.Pwg.PackBits.Pixels.{pixels_of-HasSize, length-concat}
use cnijfilter.Pwg.Device.{Device}
use cnijfilter.Posix.{write_once}
use cnijfilter.Pwg.Raster.Write.{joined}
use cnijfilter.Pwg.Extend.{carry, advance}
use cnijfilter.Pwg.Extend.Track.{nearest, Tracks, carry-Carried, Fetched-nearest, Fetched-Tracks}
use cnijfilter.Pwg.Mirror.{mirror_raster}
use cnijfilter.Pwg.Mirror.Laws.{mirror_raster-reverse}
use cnijfilter.Pwg.Page.{LineState, Sizes, fetch_rows}
use cnijfilter.Pwg.Page.Lines.{
  IsSized, placed, out_line-placed, length-placed, Counts, fetch_rows-Fetched, Counts-carry,
  Counts-advance,
}
use cnijfilter.Pwg.Rotate.{raw_white_lines, write_white_line_raw, mirrored_line, raw_lines}

-- The pixels of a line in the opposite order.
unfoldable pub mirrored : ℕ → ℕ → Bytes → Bytes
mirrored bpp width line = concat (reverse (pixels_of bpp width line))

pub length-mirrored :
    (bpp width : ℕ) (line : Bytes)
    → length line ≡ width * bpp
    → length (mirrored bpp width line) ≡ width * bpp
unfolding mirrored
length-mirrored bpp width line h =
    let sized = pixels_of-HasSize bpp width line h in
    length-concat bpp (reverse (pixels_of bpp width line))
      (All-reverse (HasSize bpp) (pixels_of bpp width line) sized.0)
    ∙ ap (λ n. n * bpp) (length-reverse (pixels_of bpp width line) ∙ sized.1)

-- A file that takes every byte.
abbrev pub plain_file : (ℕ → Bool) → Bytes → Device
plain_file grant bytes = record { bytes = bytes; answers = []; grant = grant }

raw_white_lines-joined :
    (n : ℕ) (grant : ℕ → Bool) (bytes line : Bytes)
    → (raw_white_lines n (plain_file grant bytes) line).1
      ≡ plain_file grant (bytes ++ joined (replicate n line))
unfolding raw_white_lines write_once joined
raw_white_lines-joined zero grant bytes line = ap (plain_file grant) (sym (append-nil bytes))
raw_white_lines-joined (suc n) grant bytes line =
    raw_white_lines-joined n grant (bytes ++ line) line
    ∙ ap (plain_file grant) (append_assoc bytes line (joined (replicate n line)))

pub write_white_line_raw-joined :
    (grant : ℕ → Bool) (bytes : Bytes) (white size n : ℕ)
    → grant size ≡ true
    → (write_white_line_raw (plain_file grant bytes) white size n).1
      ≡ plain_file grant (bytes ++ joined (replicate n (replicate size white)))
unfolding write_white_line_raw
write_white_line_raw-joined grant bytes white size n h =
    rw h (raw_white_lines-joined n grant bytes (replicate size white))

-- The lines for `n` positions from the x-th on, mirrored.
unfoldable pub mirrored_lines : Sizes → ℕ → ℕ → ℕ → (ℕ → Bytes) → ℕ → ℕ → ℕ → ℕ → List Bytes
mirrored_lines z s d width source sh dh zero x = []
mirrored_lines z s d width source sh dh (suc n) x =
    mirrored z.num_colors width (placed z s d (source (nearest sh dh x)))
    ∷ mirrored_lines z s d width source sh dh n (x + 1)

module _ (z : Sizes) (s d : ℕ) (v : IsSized z s d) (source : ℕ → Bytes) (sh dh : ℕ)
    (positive : 0 < dh) (long : (i : ℕ) → suc s * z.num_colors ≤ length (source i)) (width : ℕ)
    (colors : 0 < z.num_colors) (few : z.num_colors ≤ 4)
    (line : z.out_buf_size ≡ width * z.num_colors) where
  mirrored_line-placed :
      (row : Bytes)
      → suc s * z.num_colors ≤ length row
      → mirrored_line z row ≡ some (mirrored z.num_colors width (placed z s d row))
  unfolding mirrored_line mirrored
  mirrored_line-placed row h =
      let turned : mirror_raster (placed z s d row) width z.num_colors
          ≡ (pos 0, concat (reverse (pixels_of z.num_colors width (placed z s d row)))) =
        ap (λ b. mirror_raster b width z.num_colors) (sym (append-nil (placed z s d row)))
        ∙ mirror_raster-reverse (placed z s d row) [] width z.num_colors few
            (length-placed z s d v row h ∙ line)
        ∙ ap (λ b. (pos 0, b)) (append-nil _) in
      let wide : z.out_buf_size / z.num_colors ≡ width =
        ap (λ n. n / z.num_colors) line ∙ mul-div_cancel width colors in
      rw (out_line-placed z s d v row h, mirrored_line, wide, turned) (unfold is_zero in refl)

  pub length-mirrored_lines : (n x : ℕ) → length (mirrored_lines z s d width source sh dh n x) ≡ n
  unfolding mirrored_lines
  length-mirrored_lines zero x = refl
  length-mirrored_lines (suc n) x = ap suc (length-mirrored_lines n (x + 1))

  pub mirrored_lines-All :
      (n x : ℕ) → All (λ l. length l ≡ z.out_buf_size) (mirrored_lines z s d width source sh dh n x)
  unfolding mirrored_lines
  mirrored_lines-All zero x = tt
  mirrored_lines-All (suc n) x = (
    length-mirrored z.num_colors width (placed z s d (source (nearest sh dh x)))
          (length-placed z s d v (source (nearest sh dh x)) (long _) ∙ line)
        ∙ sym line,
    mirrored_lines-All n (x + 1),
  )

  -- What the loop leaves: the buffer keeps its length, and the file has the lines.
  pub record Filled (bytes : Bytes) (grant : ℕ → Bool) (lines : List Bytes)
      (r : Option (Bytes × Device)) : Type 0 where
    pub buffer : Bytes
    pub size : length buffer ≡ z.out_buf_size
    pub filled : r ≡ some (buffer, plain_file grant (bytes ++ joined lines))

  pub raw_lines-Filled :
      (n x q e : ℕ) (t : LineState) (out_ptr bytes : Bytes) (grant : ℕ → Bool)
      → sh ≡ q * dh + e
      → e < dh
      → Tracks source sh dh positive x t.cursor
      → Counts source t
      → length out_ptr ≡ z.out_buf_size
      → Filled bytes grant
          (mirrored_lines z s d width source sh dh n x)
          (raw_lines source z dh q e n t out_ptr (plain_file grant bytes))
  unfolding raw_lines mirrored_lines joined write_once
  raw_lines-Filled zero x q e t out_ptr bytes grant split small k c o = record {
    buffer = out_ptr;
    size = o;
    filled = ap (λ b. some (out_ptr, plain_file grant b)) (sym (append-nil bytes));
  }
  raw_lines-Filled (suc n) x q e t out_ptr bytes grant split small k c o =
      let u = fetch_rows source (record t { cursor = carry dh t.cursor }) in
      let f =
        fetch_rows-Fetched source sh dh positive x _
          (carry-Carried source sh dh positive x t.cursor k)
          (Counts-carry z s d v source sh dh positive long t c) in
      let row = source (nearest sh dh x) in
      let new = mirrored z.num_colors width (placed z s d row) in
      let made : mirrored_line z u.cursor.saved ≡ some new =
        ap (mirrored_line z) (Fetched-nearest source sh dh positive x t.cursor u.cursor k f.0)
        ∙ mirrored_line-placed row (long _) in
      let rest =
        raw_lines-Filled n (x + 1) q e (record u { cursor = advance q e u.cursor }) new
          (bytes ++ new) grant split small
          (Fetched-Tracks source sh dh positive x t.cursor u.cursor k f.0 q e split small)
          (Counts-advance z s d v source sh dh positive long q e u f.1)
          (length-mirrored z.num_colors width (placed z s d row)
              (length-placed z s d v row (long _) ∙ line)
            ∙ sym line) in
      record {
        buffer = rest.buffer;
        size = rest.size;
        filled =
            rw (made, raw_lines)
              (rest.filled
                ∙ ap (λ b. some (rest.buffer, plain_file grant b)) (append_assoc bytes new _));
      }
