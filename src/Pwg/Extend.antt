-- ===== src/Pwg/Extend.antt =====
-- tocnpwg/src/main.c, `h_extend`: a row of `src_width` pixels is scaled to `dst_width` pixels.
pub mod Track
pub mod Nearest
pub mod Row
use cnijfilter.Common.{
  ℕ, zero, suc, ◌+◌, ◌-◌, ◌*◌, ◌/◌, ◌%◌, Bool, ◌||◌, List, [], ◌∷◌, ◌++◌, ltb, ◌==◌, if◌then◌else◌,
  take, drop, length, ℤ, pos, negsuc, add_int, sub_int, int_is, le_double,
}
use cnijfilter.Pwg.PackBits.{Bytes, Pixel}

-- The cases of `switch (component)`: any other number of components copies nothing.
unfoldable pub is_handled : ℕ → Bool
is_handled component =
    component == 1 || component == 3 || component == 4 || component == 6 || component == 7

-- `out[0] = ...; out[1] = ...;`: the bytes replace the first bytes at `out`.
pub store : ℕ → Bytes → Bytes → Bytes
store component out new = if is_handled component then new ++ drop (length new) out else out

-- The pixel at `in + component * i`.
pub pixel_at : Bytes → ℕ → ℕ → Pixel
pixel_at source component i = take component (drop (component * i) source)

-- The variables of the loop; `saved` is the pixel in K, Y, M, C, y, m and c.
pub record Cursor : Type 0 where
  pub total_rest : ℤ
  pub prev_pos : ℤ
  pub curr_pos : ℕ
  pub saved : Pixel

-- `if (total_rest * 2 >= (dst_width - 1)) { total_rest -= (dst_width - 1); curr_pos++; }`
unfoldable pub carry : ℕ → Cursor → Cursor
carry d c =
    if le_double d c.total_rest
    then record c { total_rest = sub_int c.total_rest d; curr_pos = c.curr_pos + 1 }
    else c

-- `if (curr_pos != prev_pos) { prev_pos = curr_pos; ... }`
pub fetch : Bytes → ℕ → Cursor → Cursor
fetch source component c =
    if int_is c.prev_pos c.curr_pos
    then c
    else record c { prev_pos = pos c.curr_pos; saved = pixel_at source component c.curr_pos }

-- `total_rest += rest; curr_pos += quotient;`
unfoldable pub advance : ℕ → ℕ → Cursor → Cursor
advance quotient rest c = record c {
  total_rest = add_int c.total_rest rest;
  curr_pos = c.curr_pos + quotient;
}

-- The loop over `x`, with the rounds left; `d` is `dst_width - 1`. It gives the bytes stored.
pub extend_loop : ℕ → Bytes → ℕ → ℕ → ℕ → ℕ → Cursor → Bytes
extend_loop zero source component d quotient rest c = []
extend_loop (suc n) source component d quotient rest c =
    let c' = fetch source component (carry d c) in
    c'.saved ++ extend_loop n source component d quotient rest (advance quotient rest c')

unfoldable pub start : Cursor
start = record { total_rest = pos 0; prev_pos = negsuc 0; curr_pos = 0; saved = [] }

-- `h_extend`, with the memory at `out` before and after.
pub h_extend : Bytes → Bytes → ℤ → ℤ → ℕ → ℤ × Bytes
h_extend source out (negsuc s) dst_width component = (negsuc 0, out)
h_extend source out (pos s) (negsuc t) component = (negsuc 0, out)
h_extend source out (pos s) (pos t) component =
    let d = t - 1 in
    let row = extend_loop t source component d ((s - 1) / d) ((s - 1) % d) start in
    if ltb s 1
    then (negsuc 0, out)
    else if t == 0
    then (pos 0, out)
    else if t == 1
    then (pos 0, store component out (pixel_at source component 0))
    else (pos 0, store component out row)
