-- ===== src/Tocanonij/Names/Sizes.antt =====
-- Which names `is_size_X` takes for a size.
use cnijfilter.Common.{
  ℕ, ◌<◌, ◌≡◌, ◌↔◌, refl, sym, ap, ap₂, ◌∙◌, true, false, Bool-cases, inl, inr, [], ◌∷◌, ◌++◌, All,
  length, ◌==◌, ==_iff, arith,
}
use cnijfilter.Text.{Text}
use cnijfilter.Tocanonij.Names.{
  is_number, SizeState, not_size, at_start, in_width, after_x, in_height, size_step, size_loop,
  is_full, is_size_x,
}

abbrev pub IsDigit : ℕ → Type 0
IsDigit c = is_number c ≡ true

-- Nothing, or what begins with a dot.
abbrev pub IsEnd : Text → Type 0
IsEnd [] = Unit
IsEnd (c ∷ s) = c ≡ b'.'

-- Digits, and the end.
pub record IsHeight (s : Text) : Type 0 where
  pub digits : Text
  pub end : Text
  pub all : All IsDigit digits
  pub is_end : IsEnd end
  pub split : s ≡ digits ++ end

-- Digits, `X`, digits of which there is one at least, and the end.
pub record IsWidth (s : Text) : Type 0 where
  pub width : Text
  pub height : Text
  pub end : Text
  pub some_height : 0 < length height
  pub widths : All IsDigit width
  pub heights : All IsDigit height
  pub is_end : IsEnd end
  pub split : s ≡ width ++ (b'X' ∷ (height ++ end))

-- A size, as 4X6 or 10X12.bl: the width has a digit too.
pub record IsSize (s : Text) : Type 0 where
  pub sides : IsWidth s
  pub some_width : 0 < length sides.width

not_full : (s : Text) → is_full (size_loop not_size s) ≡ true → ⊥
unfolding size_loop
not_full [] h = cc
not_full (c ∷ s) h = cc

size_loop-step :
    (st : SizeState) (c : ℕ) (s : Text)
    → (c == b'.') ≡ false
    → size_loop st (c ∷ s) ≡ size_loop (size_step st c) s
unfolding size_loop size_step
size_loop-step not_size c [] e = refl
size_loop-step not_size c (d ∷ s) e = refl
size_loop-step at_start c s e = rw e refl
size_loop-step in_width c s e = rw e refl
size_loop-step after_x c s e = rw e refl
size_loop-step in_height c s e = rw e refl

size_loop-dot : (st : SizeState) (c : ℕ) (s : Text) → (c == b'.') ≡ true → size_loop st (c ∷ s) ≡ st
unfolding size_loop
size_loop-dot not_size c s e = refl
size_loop-dot at_start c s e = rw e refl
size_loop-dot in_width c s e = rw e refl
size_loop-dot after_x c s e = rw e refl
size_loop-dot in_height c s e = rw e refl

-- The state after a byte that is no dot, from one that stands for the whole loop.
go_on :
    (st next : SizeState) (c : ℕ) (s : Text)
    → (c == b'.') ≡ false
    → size_step st c ≡ next
    → is_full (size_loop st (c ∷ s)) ≡ is_full (size_loop next s)
go_on st next c s e f = ap is_full (size_loop-step st c s e) ∙ ap (λ t. is_full (size_loop t s)) f

digit_step :
    (c : ℕ)
    → IsDigit c
    → ((c == b'.') ≡ false)
      × ((c == b'X') ≡ false)
      × (size_step at_start c ≡ in_width)
      × (size_step in_width c ≡ in_width)
      × (size_step after_x c ≡ in_height)
      × (size_step in_height c ≡ in_height)
unfolding size_step is_number
digit_step c h = ground arith

other_step :
    (c : ℕ)
    → is_number c ≡ false
    → (size_step at_start c ≡ not_size)
      × (size_step after_x c ≡ not_size)
      × (size_step in_height c ≡ not_size)
      × ((c == b'X') ≡ false → size_step in_width c ≡ not_size)
unfolding size_step
other_step c h = (rw h refl, rw h refl, rw h refl, λ e. rw (e, h) refl)

x_step : (c : ℕ) → (c == b'X') ≡ true → size_step in_width c ≡ after_x
unfolding size_step
x_step c e = rw e refl

in_height-IsHeight : (s : Text) → is_full (size_loop in_height s) ≡ true → IsHeight s
unfolding size_loop
in_height-IsHeight [] h = record { digits = []; end = []; all = tt; is_end = tt; split = refl }
in_height-IsHeight (c ∷ s) h = elim (Bool-cases (c == b'.')) [
  | inl e ↦ record {
    digits = [];
    end = c ∷ s;
    all = tt;
    is_end = (==_iff c b'.').0 e;
    split = refl;
  }
  | inr e ↦ elim (Bool-cases (is_number c)) [
    | inl d ↦
        let k =
          in_height-IsHeight s (sym (go_on in_height in_height c s e (digit_step c d).5) ∙ h) in
        record {
          digits = c ∷ k.digits;
          end = k.end;
          all = (d, k.all);
          is_end = k.is_end;
          split = ap (λ t. c ∷ t) k.split;
        }
    | inr n ↦ absurd (not_full s (sym (go_on in_height not_size c s e (other_step c n).2) ∙ h))
  ]
]

after_x-IsHeight :
    (s : Text) → is_full (size_loop after_x s) ≡ true → (k : IsHeight s) × (0 < length k.digits)
unfolding size_loop
after_x-IsHeight [] h = absurd (not_full [] h)
after_x-IsHeight (c ∷ s) h = elim (Bool-cases (c == b'.')) [
  | inl e ↦ absurd (not_full [] (sym (ap is_full (size_loop-dot after_x c s e)) ∙ h))
  | inr e ↦ elim (Bool-cases (is_number c)) [
    | inl d ↦
        let k = in_height-IsHeight s (sym (go_on after_x in_height c s e (digit_step c d).4) ∙ h) in
        (
          record {
            digits = c ∷ k.digits;
            end = k.end;
            all = (d, k.all);
            is_end = k.is_end;
            split = ap (λ t. c ∷ t) k.split;
          },
          omega arith,
        )
    | inr n ↦ absurd (not_full s (sym (go_on after_x not_size c s e (other_step c n).1) ∙ h))
  ]
]

in_width-IsWidth : (s : Text) → is_full (size_loop in_width s) ≡ true → IsWidth s
unfolding size_loop
in_width-IsWidth [] h = absurd (not_full [] h)
in_width-IsWidth (c ∷ s) h = elim (Bool-cases (c == b'.')) [
  | inl e ↦ absurd (not_full [] (sym (ap is_full (size_loop-dot in_width c s e)) ∙ h))
  | inr e ↦ elim (Bool-cases (c == b'X')) [
    | inl x ↦
        let k = after_x-IsHeight s (sym (go_on in_width after_x c s e (x_step c x)) ∙ h) in
        record {
          width = [];
          height = k.0.digits;
          end = k.0.end;
          some_height = k.1;
          widths = tt;
          heights = k.0.all;
          is_end = k.0.is_end;
          split = ap₂ (λ a t. a ∷ t) ((==_iff c b'X').0 x) k.0.split;
        }
    | inr x ↦ elim (Bool-cases (is_number c)) [
      | inl d ↦
          let k = in_width-IsWidth s (sym (go_on in_width in_width c s e (digit_step c d).3) ∙ h) in
          record {
            width = c ∷ k.width;
            height = k.height;
            end = k.end;
            some_height = k.some_height;
            widths = (d, k.widths);
            heights = k.heights;
            is_end = k.is_end;
            split = ap (λ t. c ∷ t) k.split;
          }
      | inr n ↦ absurd (not_full s (sym (go_on in_width not_size c s e ((other_step c n).3 x)) ∙ h))
    ]
  ]
]

is_size_x-IsSize : (s : Text) → is_size_x s ≡ true → IsSize s
unfolding is_size_x size_loop
is_size_x-IsSize [] h = absurd (not_full [] h)
is_size_x-IsSize (c ∷ s) h = elim (Bool-cases (c == b'.')) [
  | inl e ↦ absurd (not_full [] (sym (ap is_full (size_loop-dot at_start c s e)) ∙ h))
  | inr e ↦ elim (Bool-cases (is_number c)) [
    | inl d ↦
        let k = in_width-IsWidth s (sym (go_on at_start in_width c s e (digit_step c d).2) ∙ h) in
        record {
          sides = record {
            width = c ∷ k.width;
            height = k.height;
            end = k.end;
            some_height = k.some_height;
            widths = (d, k.widths);
            heights = k.heights;
            is_end = k.is_end;
            split = ap (λ t. c ∷ t) k.split;
          };
          some_width = omega arith;
        }
    | inr n ↦ absurd (not_full s (sym (go_on at_start not_size c s e (other_step c n).0) ∙ h))
  ]
]

-- The digits of the height, and the end.
height_full :
    (digits end : Text)
    → All IsDigit digits
    → IsEnd end
    → is_full (size_loop in_height (digits ++ end)) ≡ true
unfolding size_loop
height_full [] [] h f = refl
height_full [] (c ∷ end) h f = ap is_full (size_loop-dot in_height c end ((==_iff c b'.').1 f))
height_full (c ∷ digits) end h f =
    let d = digit_step c h.0 in
    go_on in_height in_height c (digits ++ end) d.0 d.5 ∙ height_full digits end h.1 f

width_full :
    (width height end : Text)
    → All IsDigit width
    → All IsDigit height
    → 0 < length height
    → IsEnd end
    → is_full (size_loop in_width (width ++ (b'X' ∷ (height ++ end)))) ≡ true
unfolding size_loop
width_full [] [] end hw hh l f = absurd (omega arith)
width_full [] (c ∷ height) end hw hh l f =
    let d = digit_step c hh.0 in
    go_on in_width after_x b'X' ((c ∷ height) ++ end) refl (x_step b'X' refl)
    ∙ go_on after_x in_height c (height ++ end) d.0 d.4
    ∙ height_full height end hh.1 f
width_full (c ∷ width) height end hw hh l f =
    let d = digit_step c hw.0 in
    go_on in_width in_width c (width ++ (b'X' ∷ (height ++ end))) d.0 d.3
    ∙ width_full width height end hw.1 hh l f

start_full :
    (width height end : Text)
    → All IsDigit width
    → 0 < length width
    → All IsDigit height
    → 0 < length height
    → IsEnd end
    → is_full (size_loop at_start (width ++ (b'X' ∷ (height ++ end)))) ≡ true
start_full [] height end hw lw hh l f = absurd (omega arith)
start_full (c ∷ width) height end hw lw hh l f =
    let d = digit_step c hw.0 in
    go_on at_start in_width c (width ++ (b'X' ∷ (height ++ end))) d.0 d.2
    ∙ width_full width height end hw.1 hh l f

-- `is_size_X` accepts exactly the names of digits, an X and digits, both of one at least, with
-- nothing behind them or what begins with a dot.
pub is_size_x_iff : (s : Text) → (is_size_x s ≡ true) ↔ IsSize s
unfolding is_size_x
is_size_x_iff s = (
  is_size_x-IsSize s,
  λ k.
      ap (λ t. is_full (size_loop at_start t)) k.sides.split
      ∙ start_full k.sides.width k.sides.height k.sides.end k.sides.widths k.some_width
          k.sides.heights k.sides.some_height k.sides.is_end,
)
