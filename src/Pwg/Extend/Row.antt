-- ===== src/Pwg/Extend/Row.antt =====
-- `h_extend` as a whole: what it stores, and that it reads and writes inside the rows.
use cnijfilter.Common.{
  ℕ, zero, suc, ◌+◌, ◌-◌, ◌*◌, ◌/◌, ◌%◌, ◌≤◌, ◌<◌, ◌≡◌, sym, ap, ◌∙◌, true, ◌++◌, pos, arith, drop,
  length, length-take, length-drop, length-append, append-nil,
}
use native.Mathlib.Nat.{div-eq_of_lt-le, mul-le-mul_right, div-lt_iff_lt-mul, div-add-mod', mod-lt}
use cnijfilter.Pwg.PackBits.{Bytes}
use cnijfilter.Pwg.Extend.{is_handled, store, pixel_at, extend_loop, start, h_extend}
use cnijfilter.Pwg.Extend.Track.{nearest, start-Tracks}
use cnijfilter.Pwg.Extend.Nearest.{nearest_row, extend_loop-nearest_row}

-- The positions of a row go from the first pixel to the last one.
pub nearest_ends : (s d : ℕ) → 0 < d → (nearest s d 0 ≡ 0) × (nearest s d d ≡ s)
unfolding nearest
nearest_ends s d h = (
  div-eq_of_lt-le (2 * d) {m = 2 * (0 * s) + d} (omega arith) (omega arith),
  div-eq_of_lt-le (2 * d) {m = 2 * (d * s) + d} (omega arith) (omega arith),
)

pub nearest-le : (s d x : ℕ) → 0 < d → x ≤ d → nearest s d x ≤ s
unfolding nearest
nearest-le s d x h l =
    let inside =
      (div-lt_iff_lt-mul {k = 2 * d} {x = 2 * (x * s) + d} {y = s + 1} (omega arith)).1
        (omega (arith, mul-le-mul_right s l, h)) in
    omega (arith, inside)

length-pixel_at :
    (source : Bytes) (component src i : ℕ)
    → src * component ≤ length source
    → i < src
    → length (pixel_at source component i) ≡ component
unfolding pixel_at
length-pixel_at source component src i e h = omega (
  arith,
  e,
  length-take component (drop (component * i) source),
  length-drop (component * i) source,
  mul-le-mul_right component h,
)

length-nearest_row :
    (source : Bytes) (component s d n x : ℕ)
    → suc s * component ≤ length source
    → 0 < d
    → x + n ≤ suc d
    → length (nearest_row source component s d n x) ≡ n * component
unfolding nearest_row
length-nearest_row source component s d zero x e h l = omega arith
length-nearest_row source component s d (suc n) x e h l = omega (
  arith,
  length-append (pixel_at source component (nearest s d x))
      (nearest_row source component s d n (x + 1)),
  length-pixel_at source component (suc s) (nearest s d x) e
      (omega (arith, nearest-le s d x h (omega arith))),
  length-nearest_row source component s d n (x + 1) e h (omega arith),
)

store_handled :
    (component : ℕ) (out new : Bytes)
    → is_handled component ≡ true
    → store component out new ≡ new ++ drop (length new) out
unfolding store
store_handled component out new h = rw h

h_extend_loop :
    (source out : Bytes) (s d component : ℕ)
    → 0 < d
    → h_extend source out (pos (suc s)) (pos (suc d)) component
      ≡ (pos 0, store component out (extend_loop (suc d) source component d (s / d) (s % d) start))
unfolding h_extend
h_extend_loop source out s d component h =
    let e : suc s - 1 ≡ s = omega arith in
    let f : suc d - 1 ≡ d = omega arith in rw (e, f) (ground arith)

h_extend_one :
    (source out : Bytes) (s component : ℕ)
    → h_extend source out (pos (suc s)) (pos 1) component
      ≡ (pos 0, store component out (pixel_at source component 0))
unfolding h_extend
h_extend_one source out s component = ground arith

nearest_row_one :
    (source : Bytes) (component s : ℕ)
    → nearest_row source component s 0 1 0 ≡ pixel_at source component 0
unfolding nearest_row
nearest_row_one source component s =
    append-nil (pixel_at source component (nearest s 0 0))
    ∙ ap (pixel_at source component) (unfold nearest in omega arith)

-- Scaling a row of `suc s` pixels to `suc d` pixels, for the numbers of components that the switch
-- handles: the call succeeds and replaces the first `suc d` pixels at `out`; the x-th of them is
-- the pixel nearest to x * s / d, for d > 0, and the first pixel for d = 0.
pub h_extend-nearest_row :
    (source out : Bytes) (s d component : ℕ)
    → is_handled component ≡ true
    → suc s * component ≤ length source
    → (h_extend source out (pos (suc s)) (pos (suc d)) component
        ≡ (pos 0, nearest_row source component s d (suc d) 0 ++ drop (suc d * component) out))
      × (length (nearest_row source component s d (suc d) 0) ≡ suc d * component)
h_extend-nearest_row source out s zero component h e =
    let long =
      ap length (nearest_row_one source component s)
      ∙ length-pixel_at source component (suc s) 0 e (omega arith) in
    (
      h_extend_one source out s component
          ∙ ap (λ x. (pos 0, store component out x)) (sym (nearest_row_one source component s))
          ∙ ap (λ x. (pos 0, x)) (store_handled component out _ h)
          ∙ ap (λ n. (pos 0, nearest_row source component s 0 1 0 ++ drop n out)) (long ∙ one_mul),
      long ∙ one_mul,
    )
  where
    one_mul : component ≡ 1 * component
    one_mul = omega arith
h_extend-nearest_row source out s (suc k) component h e =
    let long =
      length-nearest_row source component s (suc k) (suc (suc k)) 0 e (omega arith) (omega arith) in
    let row =
      extend_loop-nearest_row source component s (suc k) (omega arith) (s / suc k) (s % suc k)
        (sym (div-add-mod' s (suc k))) (mod-lt s (omega arith)) (suc (suc k)) 0 start
        (start-Tracks (pixel_at source component) s (suc k) (omega arith)) in
    (
      h_extend_loop source out s (suc k) component (omega arith)
          ∙ ap (λ x. (pos 0, store component out x)) row
          ∙ ap (λ x. (pos 0, x)) (store_handled component out _ h)
          ∙ ap (λ n. (pos 0, nearest_row source component s (suc k) (suc (suc k)) 0 ++ drop n out))
              long,
      long,
    )
