-- ===== src/Pwg/Scale/Fits.antt =====
-- The scaled image lies inside the output image, in its middle.
use cnijfilter.Common.{
  ℕ, ◌-◌, ◌/◌, ◌^◌, ◌≤◌, ◌<◌, ◌≡◌, refl, inl, inr, ◌⊎◌, Bool-cases, pos, ap, arith,
}
use native.Mathlib.Nat.{le_trans}
use cnijfilter.Pwg.Scale.{Double, Placement, half_difference, compute_destination_size}

half_difference_fits : (a b : ℕ) → b ≤ a → half_difference a b ≡ pos ((a - b) / 2)
unfolding half_difference
half_difference_fits a b h = ground arith

none_left : (n : ℕ) → pos 0 ≡ pos ((n - n) / 2)
none_left n = ap pos (omega arith)

-- The image is as wide as the output or as high, and no larger; its offsets halve what is left.
pub record IsPlaced (out_w out_h : ℕ) (p : Placement) : Type 0 where
  pub wide : p.dst_w ≤ out_w
  pub high : p.dst_h ≤ out_h
  pub tight : (p.dst_w ≡ out_w) ⊎ (p.dst_h ≡ out_h)
  pub left : p.ofs_w ≡ pos ((out_w - p.dst_w) / 2)
  pub top : p.ofs_h ≡ pos ((out_h - p.dst_h) / 2)

module _ (double : Double) (in_w in_h out_w out_h : ℕ) (pw : 0 < in_w) (ph : 0 < in_h) where
  open double use {
    Number, of_long, div, mul, plus_half, is_lt, to_long, scale_mono, lt_asym, scale_back,
  }

  coef_w : Number
  coef_w = div (of_long out_w) (of_long in_w)

  coef_h : Number
  coef_h = div (of_long out_h) (of_long in_h)

  -- For an input image that is not empty, and sizes below 2 ^ 31, the destination has the output's
  -- width or height and exceeds neither, and the offsets are half of the space that is left.
  pub compute_destination_size-IsPlaced :
      in_w < 2 ^ 31
      → in_h < 2 ^ 31
      → out_w < 2 ^ 31
      → out_h < 2 ^ 31
      → IsPlaced out_w out_h (compute_destination_size double in_w in_h out_w out_h)
  unfolding compute_destination_size coef_w coef_h
  compute_destination_size-IsPlaced iw ih ow oh = elim (Bool-cases (is_lt coef_w coef_h)) [
    | inl t ↦
        let high =
          le_trans (scale_mono in_h coef_w coef_h (lt_asym coef_w coef_h t))
            (omega (arith, scale_back in_h out_h ph ih oh)) in
        rw t (record {
          wide = omega arith;
          high = high;
          tight = inl refl;
          left = none_left out_w;
          top = half_difference_fits _ _ high;
        })
    | inr f ↦
        let wide =
          le_trans (scale_mono in_w coef_h coef_w f)
            (omega (arith, scale_back in_w out_w pw iw ow)) in
        rw f (record {
          wide = wide;
          high = omega arith;
          tight = inr refl;
          left = half_difference_fits _ _ wide;
          top = none_left out_h;
        })
  ]
