-- ===== src/Pwg/Page/Lines.antt =====
-- The normal print of `CreatePWGPageData`: which lines it writes.
use cnijfilter.Common.{
  All, ℕ, zero, suc, ◌+◌, ◌-◌, ◌*◌, ◌≤◌, ◌<◌, ◌≡◌, refl, ap, ap₂, take-replicate, drop-replicate,
  ◌∙◌, true, false, inl, inr, Bool-cases, some, List, [], ◌∷◌, ◌++◌, drop, length, replicate,
  length-replicate, length-append, ℤ, pos, negsuc, pos_part, neg_part, int_is, le_double, is_zero,
  arith,
}
use cnijfilter.Pwg.PackBits.{Bytes}
use cnijfilter.Pwg.Raster.{Raster, write_pixels}
use cnijfilter.Pwg.Raster.Write.{write_all}
use cnijfilter.Pwg.Extend.{carry, advance, start, is_handled}
use cnijfilter.Pwg.Extend.Track.{
  nearest, int_is-true, Tracks, Carried, carry-Carried, start-Tracks, Fetched, Fetched-nearest,
  Fetched-Tracks,
}
use cnijfilter.Pwg.Extend.Nearest.{nearest_row}
use cnijfilter.Pwg.Extend.Row.{h_extend-nearest_row}
use cnijfilter.Pwg.Page.{done, LineState, Sizes, out_line, read_rows, fetch_rows, print_lines}

-- An input row at its place in the output line, between white pixels.
unfoldable pub placed : Sizes → ℕ → ℕ → Bytes → Bytes
placed z s d row =
    replicate (z.ofs_w * z.num_colors) z.white
    ++ (nearest_row row z.num_colors s d (suc d) 0
        ++ replicate (z.out_buf_size - z.ofs_w * z.num_colors - suc d * z.num_colors) z.white)

-- The sizes belong together: `suc s` input pixels and `suc d` output pixels a line.
pub record IsSized (z : Sizes) (s d : ℕ) : Type 0 where
  pub in_w : z.in_w ≡ suc s
  pub dst_w : z.dst_w ≡ suc d
  pub colors : is_handled z.num_colors ≡ true
  pub room : z.ofs_w * z.num_colors + suc d * z.num_colors ≤ z.out_buf_size

module _ (z : Sizes) (s d : ℕ) (v : IsSized z s d) where
  pub out_line-placed :
      (row : Bytes) → suc s * z.num_colors ≤ length row → out_line z row ≡ some (placed z s d row)
  unfolding out_line placed is_zero
  out_line-placed row h =
      let scaled =
        h_extend-nearest_row row (drop (z.ofs_w * z.num_colors) (replicate z.out_buf_size z.white))
          s d z.num_colors v.colors h in
      rw (v.in_w, v.dst_w, scaled.0)
        (ap₂ (λ a b. some (a ++ (nearest_row row z.num_colors s d (suc d) 0 ++ b)))
          (take-replicate (z.ofs_w * z.num_colors) z.out_buf_size z.white (omega (arith, v.room)))
          (ap (drop (suc d * z.num_colors))
              (drop-replicate (z.ofs_w * z.num_colors) z.out_buf_size z.white)
            ∙ drop-replicate (suc d * z.num_colors) _ z.white))

  pub length-placed :
      (row : Bytes) → suc s * z.num_colors ≤ length row → length (placed z s d row) ≡ z.out_buf_size
  unfolding placed
  length-placed row h = omega (
    arith,
    v.room,
    length-append (replicate (z.ofs_w * z.num_colors) z.white) (
        (nearest_row row z.num_colors s d (suc d) 0
          ++ replicate (z.out_buf_size - z.ofs_w * z.num_colors - suc d * z.num_colors) z.white)),
    length-append (nearest_row row z.num_colors s d (suc d) 0)
        (replicate (z.out_buf_size - z.ofs_w * z.num_colors - suc d * z.num_colors) z.white),
    length-replicate (z.ofs_w * z.num_colors) z.white,
    length-replicate (z.out_buf_size - z.ofs_w * z.num_colors - suc d * z.num_colors) z.white,
    (h_extend-nearest_row row [] s d z.num_colors v.colors h).1,
  )

-- A position that is not the last one lies behind it.
behind : (z : ℤ) (n : ℕ) → int_is z n ≡ false → pos_part z ≤ n → 0 < n + neg_part z - pos_part z
unfolding int_is
behind (pos m) n h l = ground arith
behind (negsuc m) n h l = omega arith

module _ (source : ℕ → Bytes) where
  read_rows-suc : (i n : ℕ) (buf : Bytes) → read_rows source (suc i) n buf ≡ source (n + i)
  unfolding read_rows
  read_rows-suc zero n buf = ap source (omega arith)
  read_rows-suc (suc i) n buf = read_rows-suc i (n + 1) (source n) ∙ ap source (omega arith)

  read_rows-last : (n k : ℕ) (buf : Bytes) → 0 < n → read_rows source n k buf ≡ source (k + n - 1)
  read_rows-last zero k buf h = absurd (omega arith)
  read_rows-last (suc i) k buf h = read_rows-suc i k buf ∙ ap source (omega arith)

  -- So many rows were read as the last position asks for.
  pub record Counts (t : LineState) : Type 0 where
    pub low : neg_part t.cursor.prev_pos ≤ 1
    pub calls : t.calls + neg_part t.cursor.prev_pos ≡ pos_part t.cursor.prev_pos + 1
    pub below : pos_part t.cursor.prev_pos ≤ t.cursor.curr_pos

  pub fetch_rows-Fetched :
      (s d : ℕ) (pos_d : 0 < d) (x : ℕ) (t : LineState)
      → Carried source s d pos_d x t.cursor
      → Counts t
      → Fetched source s d pos_d t.cursor (fetch_rows source t).cursor
        × Counts (fetch_rows source t)
  unfolding fetch_rows
  fetch_rows-Fetched s d pos_d x t k c =
      elim (Bool-cases (int_is t.cursor.prev_pos t.cursor.curr_pos)) [
        | inl h ↦
            let e = int_is-true t.cursor.prev_pos t.cursor.curr_pos h in
            rw h (record { same_pos = refl; same_rest = refl; prev = e; saved = k.saved _ e }, c)
        | inr h ↦ rw h (
          record { same_pos = refl; same_rest = refl; prev = refl; saved = saved h },
          record {
            low = omega arith;
            calls = omega (arith, c.calls, c.below, c.low);
            below = omega arith;
          },
        )
      ]
    where
      saved :
          int_is t.cursor.prev_pos t.cursor.curr_pos ≡ false
          → read_rows source
              (t.cursor.curr_pos + neg_part t.cursor.prev_pos - pos_part t.cursor.prev_pos)
              t.calls
              t.cursor.saved
            ≡ source t.cursor.curr_pos
      saved h =
          read_rows-last
            (t.cursor.curr_pos + neg_part t.cursor.prev_pos - pos_part t.cursor.prev_pos) t.calls
            t.cursor.saved (behind t.cursor.prev_pos t.cursor.curr_pos h c.below)
          ∙ ap source (
              omega (arith, c.calls, c.below, behind t.cursor.prev_pos t.cursor.curr_pos h c.below))

-- The output lines for `n` positions from the x-th on: each shows the nearest input row.
unfoldable pub placed_lines : Sizes → ℕ → ℕ → (ℕ → Bytes) → ℕ → ℕ → ℕ → ℕ → List Bytes
placed_lines z s d source sh dh zero x = []
placed_lines z s d source sh dh (suc n) x =
    placed z s d (source (nearest sh dh x)) ∷ placed_lines z s d source sh dh n (x + 1)

module _ (z : Sizes) (s d : ℕ) (v : IsSized z s d) (source : ℕ → Bytes) (sh dh : ℕ)
    (positive : 0 < dh) (long : (i : ℕ) → suc s * z.num_colors ≤ length (source i)) where
  pub Counts-carry :
      (t : LineState) → Counts source t → Counts source (record t { cursor = carry dh t.cursor })
  unfolding carry
  Counts-carry t c = elim (Bool-cases (le_double dh t.cursor.total_rest)) [
    | inl h ↦ rw h (record { low = c.low; calls = c.calls; below = omega (arith, c.below) })
    | inr h ↦ rw h c
  ]

  pub Counts-advance :
      (q e : ℕ) (t : LineState)
      → Counts source t
      → Counts source (record t { cursor = advance q e t.cursor })
  unfolding advance
  Counts-advance q e t c = record { low = c.low; calls = c.calls; below = omega (arith, c.below) }

  -- A line loop that never fails writes the lines of the nearest rows.
  pub print_lines-placed_lines :
      (n x q e : ℕ) (t : LineState) (r : Raster)
      → sh ≡ q * dh + e
      → e < dh
      → Tracks source sh dh positive x t.cursor
      → Counts source t
      → print_lines source z dh q e n t r ≡ done (write_all r (placed_lines z s d source sh dh n x))
  unfolding print_lines write_all placed_lines
  print_lines-placed_lines zero x q e t r split small k c = refl
  print_lines-placed_lines (suc n) x q e t r split small k c =
      let u = fetch_rows source (record t { cursor = carry dh t.cursor }) in
      let f =
        fetch_rows-Fetched source sh dh positive x _
          (carry-Carried source sh dh positive x t.cursor k) (Counts-carry t c) in
      let line : out_line z u.cursor.saved ≡ some (placed z s d (source (nearest sh dh x))) =
        ap (out_line z) (Fetched-nearest source sh dh positive x t.cursor u.cursor k f.0)
        ∙ out_line-placed z s d v (source (nearest sh dh x)) (long _) in
      rw (line, print_lines)
        (print_lines-placed_lines n (x + 1) q e (record u { cursor = advance q e u.cursor })
          (write_pixels r (placed z s d (source (nearest sh dh x)))).1 split small
          (Fetched-Tracks source sh dh positive x t.cursor u.cursor k f.0 q e split small)
          (Counts-advance q e u f.1))

  pub length-placed_lines : (n x : ℕ) → length (placed_lines z s d source sh dh n x) ≡ n
  unfolding placed_lines
  length-placed_lines zero x = refl
  length-placed_lines (suc n) x = ap suc (length-placed_lines n (x + 1))

  pub placed_lines-All :
      (n x : ℕ) → All (λ l. length l ≡ z.out_buf_size) (placed_lines z s d source sh dh n x)
  unfolding placed_lines
  placed_lines-All zero x = tt
  placed_lines-All (suc n) x =
      (length-placed z s d v (source (nearest sh dh x)) (long _), placed_lines-All n (x + 1))

  pub start-Counts :
      (in_ptr : Bytes)
      → Counts source (record { cursor = record start { saved = in_ptr }; calls = 0 })
  unfolding start
  start-Counts in_ptr = record { low = omega arith; calls = omega arith; below = omega arith }

  pub saved-Tracks :
      (in_ptr : Bytes) → Tracks source sh dh positive 0 (record start { saved = in_ptr })
  unfolding start
  saved-Tracks in_ptr =
      let t = start-Tracks source sh dh positive in
      record { total = t.total; low = t.low; high = t.high; saved = λ p e. cc }
