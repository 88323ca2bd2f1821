-- ===== src/Pwg/PackBits/Decode.antt =====
-- The row format of PWG raster, read back: an independent description of what
-- `cups_raster_write` of tocnpwg/src/main.c has to produce.
use cnijfilter.Common.{
  ℕ, zero, suc, ◌+◌, ◌-◌, ◌%◌, ◌≤◌, ◌<◌, ◌≡◌, refl, sym, ◌∙◌, Option, none, some, List, [], ◌∷◌,
  ◌++◌, ltb, leb, if◌then◌else◌, take, drop, length, replicate, append_assoc, append-nil,
  length-append, take-append_length, drop-append_length, All, arith,
}
use cnijfilter.Pwg.PackBits.{Bytes, Pixel, concat}

infixl 5 ◌>>=◌
abbrev pub ◌>>=◌ {ℓ κ} : {A : Type ℓ} {B : Type κ} → Option A → (A → Option B) → Option B
none >>= f = none
some a >>= f = f a

-- A block of `n` bytes from the front of the input.
pub read_block : ℕ → Bytes → Option (Bytes × Bytes)
read_block n bytes = if leb n (length bytes) then some (take n bytes, drop n bytes) else none

-- `n` pixels of `bpp` bytes.
pub read_pixels : ℕ → ℕ → Bytes → Option (List Pixel × Bytes)
read_pixels bpp zero bytes = some ([], bytes)
read_pixels bpp (suc n) bytes = do
  (p, rest) ← read_block bpp bytes
  (ps, rest') ← read_pixels bpp n rest
  some (p ∷ ps, rest')

-- What one code stands for, with the input behind it. A code below 128 repeats the next pixel
-- `code + 1` times, any other announces `257 - code` pixels.
pub read_group : ℕ → ℕ → Bytes → Option (List Pixel × Bytes)
read_group bpp code bytes =
    let repeated = do (p, rest) ← read_block bpp bytes; some (replicate (code + 1) p, rest)
    in if ltb code 128 then repeated else read_pixels bpp (257 - code) bytes

-- One row of `width` pixels. Every code yields a pixel at least, so `width` is enough fuel.
pub decode_row : ℕ → ℕ → ℕ → Bytes → Option (List Pixel × Bytes)
decode_row fuel bpp zero bytes = some ([], bytes)
decode_row zero bpp (suc w) bytes = none
decode_row (suc fuel) bpp (suc w) [] = none
decode_row (suc fuel) bpp (suc w) (code ∷ bytes) = do
  (ps, rest) ← read_group bpp code bytes
  (qs, rest') ← decode_row fuel bpp (suc w - length ps) rest
  if leb (length ps) (suc w) then some (ps ++ qs, rest') else none

-- A page of rows: in front of each row stands the number of its copies, less one.
pub decode_page : ℕ → ℕ → ℕ → ℕ → Bytes → Option (List (List Pixel) × Bytes)
decode_page fuel bpp width zero bytes = some ([], bytes)
decode_page zero bpp width (suc h) bytes = none
decode_page (suc fuel) bpp width (suc h) [] = none
decode_page (suc fuel) bpp width (suc h) (copies ∷ bytes) = do
  (row, rest) ← decode_row width bpp width bytes
  (rows, rest') ← decode_page fuel bpp width (suc h - (copies + 1)) rest
  if leb (copies + 1) (suc h) then some (replicate (copies + 1) row ++ rows, rest') else none

-- Reading back what was laid out.
abbrev pub HasSize : ℕ → Pixel → Type 0
HasSize bpp p = length p ≡ bpp

pub read_block-append :
    (n : ℕ) (xs ys : Bytes) → length xs ≡ n → read_block n (xs ++ ys) ≡ some (xs, ys)
unfolding read_block
read_block-append n xs ys h =
    ground (arith, length-append xs ys, take-append_length n xs ys h, drop-append_length n xs ys h)

pub read_pixels-concat :
    (bpp n : ℕ) (ps : List Pixel) (rest : Bytes)
    → All (HasSize bpp) ps
    → length ps ≡ n
    → read_pixels bpp n (concat ps ++ rest) ≡ some (ps, rest)
unfolding read_pixels concat
read_pixels-concat bpp zero [] rest h e = refl
read_pixels-concat bpp zero (p ∷ ps) rest h e = absurd (omega arith)
read_pixels-concat bpp (suc n) [] rest h e = absurd (omega arith)
read_pixels-concat bpp (suc n) (p ∷ ps) rest h e = rw (
  append_assoc p (concat ps) rest,
  read_block-append bpp p (concat ps ++ rest) h.0,
  read_pixels-concat bpp n ps rest h.1 (omega arith),
)

pub read_group-repeat :
    (bpp code : ℕ) (p : Pixel) (rest : Bytes)
    → code < 128
    → length p ≡ bpp
    → read_group bpp code (p ++ rest) ≡ some (replicate (code + 1) p, rest)
unfolding read_group
read_group-repeat bpp code p rest h e = ground (arith, read_block-append bpp p rest e)

pub read_group-copy :
    (bpp n : ℕ) (ps : List Pixel) (rest : Bytes)
    → n ≤ 128
    → 1 ≤ n
    → All (HasSize bpp) ps
    → length ps ≡ n
    → read_group bpp ((257 - n) % 256) (concat ps ++ rest) ≡ some (ps, rest)
unfolding concat read_group
read_group-copy bpp n [] rest h k s e = absurd (omega arith)
read_group-copy bpp n (p ∷ []) rest h k s e =
    let one : (257 - n) % 256 ≡ 0 = omega arith in
    rw (one, append-nil p) (read_group-repeat bpp 0 p rest (omega arith) s.0)
read_group-copy bpp n (p ∷ q ∷ ps) rest h k s e =
    let many : (257 - n) % 256 ≡ 257 - n = omega arith in
    let back : 257 - (257 - n) ≡ n = omega arith in
    let two : 2 ≤ n = omega arith in
    rw many (
      ground
        (arith, back, read_pixels-concat bpp (257 - (257 - n)) (p ∷ q ∷ ps) rest s (e ∙ sym back)))

-- One code, and then the rest of the row.
pub decode_row-group :
    (fuel bpp w code : ℕ) (ps qs : List Pixel) (bytes mid rest : Bytes)
    → read_group bpp code bytes ≡ some (ps, mid)
    → decode_row fuel bpp (length qs) mid ≡ some (qs, rest)
    → 1 ≤ length ps
    → w ≡ length ps + length qs
    → decode_row (suc fuel) bpp w (code ∷ bytes) ≡ some (ps ++ qs, rest)
unfolding decode_row
decode_row-group fuel bpp zero code ps qs bytes mid rest g d l e = absurd (omega arith)
decode_row-group fuel bpp (suc w) code ps qs bytes mid rest g d l e =
    let left : suc w - length ps ≡ length qs = omega arith in rw (g, left, d) (ground arith)

pub decode_row-zero :
    (fuel bpp : ℕ) (bytes : Bytes) → decode_row fuel bpp 0 bytes ≡ some ([], bytes)
unfolding decode_row
decode_row-zero zero bpp bytes = refl
decode_row-zero (suc fuel) bpp bytes = refl

pub decode_page-zero :
    (fuel bpp width : ℕ) (bytes : Bytes) → decode_page fuel bpp width 0 bytes ≡ some ([], bytes)
unfolding decode_page
decode_page-zero zero bpp width bytes = refl
decode_page-zero (suc fuel) bpp width bytes = refl

-- One group of equal rows, and then the rest of the page.
pub decode_page-group :
    (fuel bpp width h copies : ℕ) (row : List Pixel) (rows : List (List Pixel))
    (bytes mid rest : Bytes)
    → decode_row width bpp width bytes ≡ some (row, mid)
    → decode_page fuel bpp width (length rows) mid ≡ some (rows, rest)
    → h ≡ copies + 1 + length rows
    → decode_page (suc fuel) bpp width h (copies ∷ bytes)
      ≡ some (replicate (copies + 1) row ++ rows, rest)
unfolding decode_page
decode_page-group fuel bpp width zero copies row rows bytes mid rest g d e = absurd (omega arith)
decode_page-group fuel bpp width (suc h) copies row rows bytes mid rest g d e =
    let left : suc h - (copies + 1) ≡ length rows = omega arith in rw (g, left, d) (ground arith)
