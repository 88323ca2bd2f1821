-- ===== src/Pwg/Scale/Exact.antt =====
-- Exact fractions meet the laws that `Double` asks for.
use cnijfilter.Common.{
  ℕ, suc, ◌+◌, ◌-◌, ◌*◌, ◌/◌, ◌^◌, ◌≤◌, ◌<◌, ◌≡◌, ◌∙◌, Bool, true, false, ltb, ltb-false, arith,
}
use native.Mathlib.Nat.{
  le-div_iff_mul-le, le_of_mul-le-mul_right, mul-le-mul_left, mul-le-mul_right, mul-le-mul_left,
  div-eq_of_lt-le, div-mul-le_self,
}
use cnijfilter.Pwg.Scale.{Double}

-- `above` over `below + 1`.
pub record Fraction : Type 0 where
  pub above : ℕ
  pub below : ℕ

-- Rounding a * p / (q + 1) to the nearest number.
rounded : ℕ → ℕ → ℕ → ℕ
rounded a p q = (2 * (a * p) + suc q) / (2 * suc q)

rounded_mono : (a p q r s : ℕ) → p * suc s ≤ r * suc q → rounded a p q ≤ rounded a r s
unfolding rounded
rounded_mono a p q r s h =
    (le-div_iff_mul-le {k = 2 * suc s} {x = (2 * (a * p) + suc q) / (2 * suc q)}
        {y = 2 * (a * r) + suc s} (omega arith)).1
      (le_of_mul-le-mul_right {k = suc q}
        (omega (
          arith,
          mul-le-mul_right (suc s) (div-mul-le_self (2 * (a * p) + suc q) (2 * suc q)),
          mul-le-mul_left (2 * a) h,
        ))
        (omega arith))

abbrev fraction_lt : Fraction → Fraction → Bool
fraction_lt x y = ltb (x.above * suc y.below) (y.above * suc x.below)

abbrev quotient : Fraction → Fraction → Fraction
quotient x y = record { above = x.above * suc y.below; below = suc x.below * y.above - 1 }

rounded_back : (a b : ℕ) → 0 < a → rounded a (b * 1) (1 * a - 1) ≡ b
unfolding rounded
rounded_back a b h =
    let e : suc (1 * a - 1) ≡ a = omega arith in
    rw e (div-eq_of_lt-le (2 * a) {m = 2 * (a * (b * 1)) + a} (omega arith) (omega arith))

-- `mul (of_long a)`, `plus_half` and `to_long` in one.
abbrev scaled : ℕ → Fraction → ℕ
scaled a x =
    (2 * (a * x.above) + suc (1 * suc x.below - 1)) / suc (2 * suc (1 * suc x.below - 1) - 1)

scaled-rounded : (a : ℕ) (x : Fraction) → scaled a x ≡ rounded a x.above x.below
unfolding rounded
scaled-rounded a x =
    let e : suc (1 * suc x.below - 1) ≡ suc x.below = omega arith in
    let f : suc (2 * suc x.below - 1) ≡ 2 * suc x.below = omega arith in rw (e, f)

pub ltb_asym : (a b : ℕ) → ltb a b ≡ true → ltb b a ≡ false
ltb_asym a b h = ground arith

pub exact_mono : (a : ℕ) (x y : Fraction) → fraction_lt y x ≡ false → scaled a x ≤ scaled a y
exact_mono a x y h =
    rw (scaled-rounded a x, scaled-rounded a y)
      (rounded_mono a x.above x.below y.above y.below (ltb-false _ _ h))

pub exact_back :
    (a b : ℕ)
    → 0 < a
    → a < 2 ^ 31
    → b < 2 ^ 31
    → scaled a (quotient (record { above = b; below = 0 }) (record { above = a; below = 0 })) ≡ b
exact_back a b h k l = scaled-rounded a _ ∙ rounded_back a b h

-- `mul (of_long a)`, `plus_half` and `to_long` together are `rounded a`.
unfoldable pub exact : Double
exact = record {
  Number = Fraction;
  of_long = λ n. record { above = n; below = 0 };
  div = quotient;
  mul = λ x y. record { above = x.above * y.above; below = suc x.below * suc y.below - 1 };
  plus_half = λ x. record { above = 2 * x.above + suc x.below; below = 2 * suc x.below - 1 };
  is_lt = fraction_lt;
  to_long = λ x. x.above / suc x.below;
  scale_mono = exact_mono;
  lt_asym = λ x y h. ltb_asym _ _ h;
  scale_back = exact_back;
}
