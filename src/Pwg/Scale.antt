-- ===== src/Pwg/Scale.antt =====
-- tocnpwg/src/main.c, `ComputeDestinationSize`: the input image is scaled to fit the output image.
pub mod Fits
pub mod Exact
use cnijfilter.Common.{
  ℕ, zero, suc, ◌^◌, ◌-◌, ◌/◌, ◌≤◌, ◌<◌, ◌≡◌, Bool, true, false, leb, if◌then◌else◌, ℤ, pos, negsuc,
}

-- C's `double` as far as the code uses it, for numbers that are not negative, with the laws of
-- IEEE arithmetic that it relies on: the operations are monotone, and a quotient of numbers below
-- 2 ^ 31, multiplied back, is off by less than 0.5.
pub record Double : Type 1 where
  pub Number : Type 0
  pub of_long : ℕ → Number
  pub div : Number → Number → Number
  pub mul : Number → Number → Number
  pub plus_half : Number → Number
  pub is_lt : Number → Number → Bool
  pub to_long : Number → ℕ
  pub scale_mono :
      (a : ℕ) (x y : Number)
      → is_lt y x ≡ false
      → to_long (plus_half (mul (of_long a) x)) ≤ to_long (plus_half (mul (of_long a) y))
  pub lt_asym : (x y : Number) → is_lt x y ≡ true → is_lt y x ≡ false
  pub scale_back :
      (a b : ℕ)
      → 0 < a
      → a < 2 ^ 31
      → b < 2 ^ 31
      → to_long (plus_half (mul (of_long a) (div (of_long b) (of_long a)))) ≡ b

pub minus : ℕ → ℤ
minus zero = pos 0
minus (suc m) = negsuc m

-- `(a - b) / 2` on `long`, which rounds towards 0.
unfoldable pub half_difference : ℕ → ℕ → ℤ
half_difference a b = if leb b a then pos ((a - b) / 2) else minus ((b - a) / 2)

-- The results through `dst_w`, `dst_h`, `ofs_w` and `ofs_h`.
pub record Placement : Type 0 where
  pub dst_w : ℕ
  pub dst_h : ℕ
  pub ofs_w : ℤ
  pub ofs_h : ℤ

-- `ComputeDestinationSize`, called with places for all its results.
module _ (double : Double) where
  open double use {Number, of_long, div, mul, plus_half, is_lt, to_long}

  unfoldable pub compute_destination_size : ℕ → ℕ → ℕ → ℕ → Placement
  compute_destination_size in_w in_h out_w out_h =
      let coef_w = div (of_long out_w) (of_long in_w) in
      let coef_h = div (of_long out_h) (of_long in_h) in
      let dst_h = to_long (plus_half (mul (of_long in_h) coef_w)) in
      let dst_w = to_long (plus_half (mul (of_long in_w) coef_h)) in
      if is_lt coef_w coef_h
      then record {
        dst_w = out_w;
        dst_h = dst_h;
        ofs_w = pos 0;
        ofs_h = half_difference out_h dst_h;
      }
      else record {
        dst_w = dst_w;
        dst_h = out_h;
        ofs_w = half_difference out_w dst_w;
        ofs_h = pos 0;
      }
