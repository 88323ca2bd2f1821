-- ===== src/Pwg/PackBits.antt =====
-- tocnpwg/src/main.c, `cups_raster_write`: the modified PackBits compression of one row.
-- A row is walked in steps of `bpp` bytes, so it is the list of its pixels, each a list of bytes.
pub mod Decode
pub mod Pixels
pub mod RoundTrip
pub mod Size
use cnijfilter.Common.{
  ℕ, zero, suc, ◌+◌, ◌-◌, ◌%◌, Bool, true, false, not, ◌&&◌, List, [], ◌∷◌, ◌++◌, ltb, ◌==◌,
  if◌then◌else◌, take, drop, length,
}

abbrev pub Bytes : Type 0
Bytes = List ℕ

abbrev pub Pixel : Type 0
Pixel = List ℕ

-- `memcmp (a, b, n) == 0` on two blocks of the same length.
pub same_bytes : Bytes → Bytes → Bool
same_bytes [] [] = true
same_bytes [] (y ∷ ys) = false
same_bytes (x ∷ xs) [] = false
same_bytes (x ∷ xs) (y ∷ ys) = x == y && same_bytes xs ys

-- The pixels of `n` steps of `bpp` bytes from the start of a block.
unfoldable pub pixels_of : ℕ → ℕ → Bytes → List Pixel
pixels_of bpp zero bytes = []
pixels_of bpp (suc n) bytes = take bpp bytes ∷ pixels_of bpp n (drop bpp bytes)

-- A counter with the place of `ptr`: the pixel there and those behind it.
pub record Run : Type 0 where
  pub count : ℕ
  pub here : Pixel
  pub after : List Pixel

-- `for (count = 2; count < 128 && ptr < plast; count ++, ptr += bpp) if (memcmp (...)) break;`
pub repeat_run : ℕ → Pixel → List Pixel → Run
repeat_run count here [] = record { count = count; here = here; after = [] }
repeat_run count here (next ∷ after) =
    let more = repeat_run (count + 1) next after in
    if ltb count 128 && same_bytes here next
    then more
    else record { count = count; here = here; after = next ∷ after }

-- `for (count = 1; count < 128 && ptr < plast; count ++, ptr += bpp) if (!memcmp (...)) break;`
pub literal_run : ℕ → Pixel → List Pixel → Run
literal_run count here [] = record { count = count; here = here; after = [] }
literal_run count here (next ∷ after) =
    let more = literal_run (count + 1) next after in
    if ltb count 128 && not (same_bytes here next)
    then more
    else record { count = count; here = here; after = next ∷ after }

-- `if (ptr >= plast && count < 128) { count ++; ptr += bpp; }`: the final count, and the pixels
-- from `ptr` on.
pub literal_end : ℕ → Pixel → List Pixel → ℕ × List Pixel
literal_end count here [] = if ltb count 128 then (count + 1, []) else (count, here ∷ [])
literal_end count here (next ∷ after) = (count, here ∷ next ∷ after)

unfoldable pub concat : List Pixel → Bytes
concat [] = []
concat (p ∷ ps) = p ++ concat ps

-- The loop `for (ptr = pixels; ptr < pend;)`. A value stored through `wptr` is taken modulo 256.
-- Each round moves `ptr` by a pixel at least, so the number of pixels is enough fuel.
pub encode_loop : ℕ → List Pixel → Bytes
encode_loop fuel [] = []
encode_loop zero (start ∷ rest) = []
encode_loop (suc fuel) (start ∷ []) = 0 ∷ start
encode_loop (suc fuel) (start ∷ next ∷ rest) =
    let run = repeat_run 2 next rest in
    let repeated = ((run.count - 1) % 256 ∷ run.here) ++ encode_loop fuel run.after in
    let lit = literal_run 1 next rest in
    let (count, ptr) = literal_end lit.count lit.here lit.after in
    let copied =
      ((257 - count) % 256 ∷ concat (take count (start ∷ next ∷ rest))) ++ encode_loop fuel ptr in
    if same_bytes start next then repeated else copied

unfoldable pub encode_row : List Pixel → Bytes
unfolding encode_loop repeat_run literal_run literal_end same_bytes concat
encode_row row = encode_loop (length row) row
