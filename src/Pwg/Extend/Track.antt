-- ===== src/Pwg/Extend/Track.antt =====
-- The bookkeeping of the scaling loops of `h_extend` and `CreatePWGPageData`: after `x` rounds the
-- position stands next to x * s / d.
use cnijfilter.Common.{
  ℕ, ◌+◌, ◌*◌, ◌/◌, ◌≤◌, ◌<◌, ◌≡◌, sym, ap, ◌∙◌, ==_iff, true, false, inl, inr, Bool-cases, ℤ, pos,
  negsuc, pos_part, neg_part, add_int, sub_int, add_int_parts, sub_int_parts, int_is, le_double,
  arith,
}
use native.Mathlib.Nat.{div-eq_of_lt-le}
use cnijfilter.Pwg.PackBits.{Pixel}
use cnijfilter.Pwg.Extend.{Cursor, carry, advance, start}

-- The position nearest to x * s / d; a tie goes to the higher one.
unfoldable pub nearest : ℕ → ℕ → ℕ → ℕ
nearest s d x = (2 * (x * s) + d) / (2 * d)

le_double-true : (d : ℕ) (z : ℤ) → le_double d z ≡ true → (d ≤ 2 * pos_part z) × (neg_part z ≡ 0)
unfolding le_double
le_double-true d (pos n) h = ground arith
le_double-true d (negsuc n) h = cc

sub_int_range :
    (d : ℕ) (z : ℤ)
    → (d ≤ 2 * pos_part z) × (neg_part z ≡ 0)
    → 2 * pos_part z < 3 * d
    → (2 * neg_part (sub_int z d) ≤ d) × (2 * pos_part (sub_int z d) < d)
unfolding sub_int
sub_int_range d (pos n) h k = ground arith
sub_int_range d (negsuc n) h k = absurd (omega arith)

pub int_is-true : (z : ℤ) (n : ℕ) → int_is z n ≡ true → z ≡ pos n
unfolding int_is
int_is-true (pos m) n h = ap pos ((==_iff m n).0 h)
int_is-true (negsuc m) n h = cc

add_int_range :
    (d r : ℕ) (z : ℤ)
    → r < d
    → 2 * neg_part z ≤ d
    → 2 * pos_part z < d
    → (2 * neg_part (add_int z r) ≤ d) × (2 * pos_part (add_int z r) < 3 * d)
unfolding add_int
add_int_range d r (pos n) h k l = ground arith
add_int_range d r (negsuc n) h k l = ground arith

le_double-false : (d : ℕ) (z : ℤ) → 0 < d → le_double d z ≡ false → 2 * pos_part z < d
unfolding le_double
le_double-false d (pos n) k h = ground arith
le_double-false d (negsuc n) k h = omega arith

module _ (place : ℕ → Pixel) (s d : ℕ) (pos_d : 0 < d) where
  -- Before the round for `x`: x * s is curr_pos * d + total_rest.
  pub record Tracks (x : ℕ) (c : Cursor) : Type 0 where
    pub total : x * s + neg_part c.total_rest ≡ c.curr_pos * d + pos_part c.total_rest
    pub low : 2 * neg_part c.total_rest ≤ d
    pub high : 2 * pos_part c.total_rest < 3 * d
    pub saved : (p : ℕ) → c.prev_pos ≡ pos p → c.saved ≡ place p

  -- After `total_rest` was brought into range.
  pub record Carried (x : ℕ) (c : Cursor) : Type 0 where
    pub total : x * s + neg_part c.total_rest ≡ c.curr_pos * d + pos_part c.total_rest
    pub low : 2 * neg_part c.total_rest ≤ d
    pub high : 2 * pos_part c.total_rest < d
    pub saved : (p : ℕ) → c.prev_pos ≡ pos p → c.saved ≡ place p

  pub carry-Carried : (x : ℕ) (c : Cursor) → Tracks x c → Carried x (carry d c)
  unfolding carry
  carry-Carried x c t = elim (Bool-cases (le_double d c.total_rest)) [
    | inl h ↦ rw h (record {
      total = omega (arith, t.total, sub_int_parts c.total_rest d, le_double-true d c.total_rest h);
      low = omega (arith, sub_int_range d c.total_rest (le_double-true d c.total_rest h) t.high);
      high = omega (arith, sub_int_range d c.total_rest (le_double-true d c.total_rest h) t.high);
      saved = t.saved;
    })
    | inr h ↦ rw h (record {
      total = t.total;
      low = t.low;
      high = le_double-false d c.total_rest pos_d h;
      saved = t.saved;
    })
  ]

  Carried-nearest : (x : ℕ) (c : Cursor) → Carried x c → c.curr_pos ≡ nearest s d x
  unfolding nearest
  Carried-nearest x c t = sym (
      div-eq_of_lt-le (2 * d) {m = 2 * (x * s) + d} (omega (arith, t.total, t.low, t.high))
        (omega (arith, t.total, t.low, t.high)))

  -- The block at the position was fetched.
  pub record Fetched (c c' : Cursor) : Type 0 where
    pub same_pos : c'.curr_pos ≡ c.curr_pos
    pub same_rest : c'.total_rest ≡ c.total_rest
    pub prev : c'.prev_pos ≡ pos c.curr_pos
    pub saved : c'.saved ≡ place c.curr_pos

  -- A round of a scaling loop: the block is the nearest one, and the next round may start.
  module _ (x : ℕ) (c c' : Cursor) (t : Tracks x c) (f : Fetched (carry d c) c') where
    pub Fetched-nearest : c'.saved ≡ place (nearest s d x)
    Fetched-nearest = f.saved ∙ ap place (Carried-nearest x (carry d c) (carry-Carried x c t))

    pub Fetched-Tracks :
        (quotient rest : ℕ)
        → s ≡ quotient * d + rest
        → rest < d
        → Tracks (x + 1) (advance quotient rest c')
    unfolding advance
    Fetched-Tracks quotient rest split small =
        let k = carry-Carried x c t in
        record {
          total =
              rw (f.same_pos, f.same_rest)
                (omega (arith, k.total, add_int_parts (carry d c).total_rest rest, split));
          low = rw f.same_rest (add_int_range d rest (carry d c).total_rest small k.low k.high).0;
          high = rw f.same_rest (add_int_range d rest (carry d c).total_rest small k.low k.high).1;
          saved = λ p e. f.saved ∙ ap place (ap pos_part (sym f.prev ∙ e));
        }

  pub start-Tracks : Tracks 0 start
  unfolding start
  start-Tracks = record {
    total = omega arith;
    low = omega arith;
    high = omega arith;
    saved = λ p e. cc;
  }
