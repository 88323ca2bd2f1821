-- ===== src/Pwg/Raster/Lines.antt =====
-- Lines of a page: white lines are calls of `pwgRasterWritePixels` too, and calls add up.
use cnijfilter.Common.{
  ℕ, zero, suc, ◌*◌, ◌≡◌, refl, sym, ap, ◌∙◌, true, List, [], ◌∷◌, ◌++◌, length, replicate, All,
  append_assoc, length-append, arith,
}
use cnijfilter.Pwg.PackBits.{Bytes}
use cnijfilter.Pwg.Raster.{Raster, write_pixels, white_lines, write_white_line}
use cnijfilter.Pwg.Raster.Write.{write_all, joined}

-- The loop of white lines as calls of the page.
pub white_lines-write_all :
    (n : ℕ) (r : Raster) (line : Bytes) → white_lines n r line ≡ write_all r (replicate n line)
unfolding white_lines write_all
white_lines-write_all zero r line = refl
white_lines-write_all (suc n) r line = white_lines-write_all n (write_pixels r line).1 line

pub write_all-append :
    (r : Raster) (xs ys : List Bytes) → write_all r (xs ++ ys) ≡ write_all (write_all r xs) ys
unfolding write_all
write_all-append r [] ys = refl
write_all-append r (x ∷ xs) ys = write_all-append (write_pixels r x).1 xs ys

-- Where `malloc` grants the line, the white lines are calls of the page.
pub write_white_line-write_all :
    (r : Raster) (white out_buf_size line_num : ℕ)
    → r.device.grant out_buf_size ≡ true
    → (write_white_line r white out_buf_size line_num).1
      ≡ write_all r (replicate line_num (replicate out_buf_size white))
unfolding write_white_line
write_white_line-write_all r white size n h =
    rw h (white_lines-write_all n r (replicate size white))

pub joined-append : (xs ys : List Bytes) → joined (xs ++ ys) ≡ joined xs ++ joined ys
unfolding joined
joined-append [] ys = refl
joined-append (x ∷ xs) ys =
    ap (λ b. x ++ b) (joined-append xs ys) ∙ sym (append_assoc x (joined xs) (joined ys))

-- Lines of one length.
pub length-joined :
    (n : ℕ) (xs : List Bytes) → All (λ x. length x ≡ n) xs → length (joined xs) ≡ length xs * n
unfolding joined
length-joined n [] h = omega arith
length-joined n (x ∷ xs) h = omega (arith, length-append x (joined xs), h.0, length-joined n xs h.1)

pub All-replicate : (P : Bytes → Type 0) (n : ℕ) (x : Bytes) → P x → All P (replicate n x)
All-replicate P zero x h = tt
All-replicate P (suc n) x h = (h, All-replicate P n x h)
