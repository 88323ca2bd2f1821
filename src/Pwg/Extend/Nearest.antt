-- ===== src/Pwg/Extend/Nearest.antt =====
-- `h_extend` picks, for each pixel of the new row, the nearest pixel of the old row.
use cnijfilter.Common.{
  ℕ, zero, suc, ◌+◌, ◌*◌, ◌<◌, ◌≡◌, refl, ap₂, inl, inr, Bool-cases, ◌++◌, [], int_is,
}
use cnijfilter.Pwg.PackBits.{Bytes}
use cnijfilter.Pwg.Extend.{pixel_at, Cursor, carry, fetch, extend_loop}
use cnijfilter.Pwg.Extend.Track.{
  nearest, int_is-true, Tracks, Carried, carry-Carried, Fetched, Fetched-nearest, Fetched-Tracks,
}

-- The pixels at the nearest positions of `n` pixels from the `x`-th on.
unfoldable pub nearest_row : Bytes → ℕ → ℕ → ℕ → ℕ → ℕ → Bytes
nearest_row source component s d zero x = []
nearest_row source component s d (suc n) x =
    pixel_at source component (nearest s d x) ++ nearest_row source component s d n (x + 1)

module _ (source : Bytes) (component s d : ℕ) (pos_d : 0 < d) where
  fetch-Fetched :
      (x : ℕ) (c : Cursor)
      → Carried (pixel_at source component) s d pos_d x c
      → Fetched (pixel_at source component) s d pos_d c (fetch source component c)
  unfolding fetch
  fetch-Fetched x c k = elim (Bool-cases (int_is c.prev_pos c.curr_pos)) [
    | inl h ↦
        let e = int_is-true c.prev_pos c.curr_pos h in
        rw h (record { same_pos = refl; same_rest = refl; prev = e; saved = k.saved c.curr_pos e })
    | inr h ↦ rw h (record { same_pos = refl; same_rest = refl; prev = refl; saved = refl })
  ]

  module _ (quotient rest : ℕ) (split : s ≡ quotient * d + rest) (small : rest < d) where
    pub extend_loop-nearest_row :
        (n x : ℕ) (c : Cursor)
        → Tracks (pixel_at source component) s d pos_d x c
        → extend_loop n source component d quotient rest c ≡ nearest_row source component s d n x
    unfolding extend_loop nearest_row
    extend_loop-nearest_row zero x c t = refl
    extend_loop-nearest_row (suc n) x c t =
        let c' = fetch source component (carry d c) in
        let f = fetch-Fetched x (carry d c) (carry-Carried _ s d pos_d x c t) in
        ap₂ ◌++◌ (Fetched-nearest _ s d pos_d x c c' t f) (
          extend_loop-nearest_row n (x + 1) _
            (Fetched-Tracks _ s d pos_d x c c' t f quotient rest split small))
