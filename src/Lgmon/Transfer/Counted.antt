-- ===== src/Lgmon/Transfer/Counted.antt =====
-- The rounds whose writes report what the printer took.
use cnijfilter.Common.{
  ℕ, zero, suc, ◌≡◌, refl, sym, ap, ◌∙◌, min, Bool, true, false, not, ◌&&◌, List, [], ◌∷◌, drop,
  drop-nil, length, ℤ, pos, negsuc, arith,
}
use cnijfilter.Pwg.PackBits.{Bytes}
use cnijfilter.Lgmon.{IfType, usb, net, net2, is_negative, is_negsuc}
use cnijfilter.Lgmon.Response.{Parser}
use cnijfilter.Lgmon.Run.{Run, Turn, Step, passed, failed, waiting}
use cnijfilter.Lgmon.Transfer.{cnif_write, WriteRound, again, stop, stuck, round, send_chunk}

-- The call over USB is no time-out, whose count would be lost.
unfoldable pub is_counted : IfType → Turn → Bool
is_counted usb u = not (is_negsuc u.result 6)
is_counted net u = true
is_counted net2 u = true

unfoldable pub all_counted : IfType → List Turn → Bool
all_counted t [] = true
all_counted t (u ∷ turns) = is_counted t u && all_counted t turns

-- The turns that a part which passed leaves.
abbrev pub left_of : Step → List Turn
left_of (passed r turns) = turns
left_of (failed r) = []
left_of (waiting r) = []

pub counted_write :
    (t : IfType) (u : Turn) (size : ℕ)
    → is_counted t u ≡ true
    → (cnif_write t u size).1 ≡ min u.transfered size
unfolding cnif_write is_counted
counted_write usb u size h = ground arith
counted_write net u size h = refl
counted_write net2 u size h = refl

-- A write that goes well is no time-out.
not_timeout : (x : ℤ) → is_negative x ≡ false → is_negsuc x 6 ≡ false
unfolding is_negative is_negsuc
not_timeout (pos n) h = refl
not_timeout (negsuc n) h = cc

pub well_counted : (t : IfType) (u : Turn) → is_negative u.result ≡ false → is_counted t u ≡ true
unfolding is_counted
well_counted usb u h = ap not (not_timeout u.result h)
well_counted net u h = refl
well_counted net2 u h = refl

pub well_result :
    (t : IfType) (u : Turn) (size : ℕ)
    → is_negative u.result ≡ false
    → (cnif_write t u size).0 ≡ u.result
unfolding cnif_write
well_result usb u size h = rw (not_timeout u.result h, cnif_write) refl
well_result net u size h = refl
well_result net2 u size h = refl

pub drop-min : (n : ℕ) (xs : Bytes) → drop (min n (length xs)) xs ≡ drop n xs
drop-min n [] = drop-nil {A = ℕ} (min n 0) ∙ sym (drop-nil {A = ℕ} n)
drop-min zero (x ∷ xs) =
    let e : min 0 (length (x ∷ xs)) ≡ 0 = omega arith in ap (λ k. drop k (x ∷ xs)) e
drop-min (suc n) (x ∷ xs) =
    let e : min (suc n) (suc (length xs)) ≡ suc (min n (length xs)) = omega arith in
    ap (λ k. drop k (x ∷ xs)) e ∙ drop-min n xs

pub first_counted :
    (t : IfType) (u : Turn) (turns : List Turn)
    → all_counted t (u ∷ turns) ≡ true
    → (is_counted t u ≡ true) × (all_counted t turns ≡ true)
unfolding all_counted
first_counted t u turns h = ground arith

module _ (p : Parser) (grant : ℕ → Bool) (if_type : IfType) where
  pub send_chunk_left :
      (turns : List Turn) (chunk : Bytes) (r : Run)
      → all_counted if_type turns ≡ true
      → all_counted if_type (left_of (send_chunk p grant if_type turns chunk r)) ≡ true
  unfolding send_chunk all_counted
  send_chunk_left turns [] r k = k
  send_chunk_left [] (b ∷ chunk) r k = refl
  send_chunk_left (u ∷ turns) (b ∷ chunk) r k =
      cases (round p grant if_type u (b ∷ chunk) r) (λ r'. send_chunk_left turns more r' later)
    where
      more : Bytes
      more = drop (cnif_write if_type u (length (b ∷ chunk))).1 (b ∷ chunk)

      later : all_counted if_type turns ≡ true
      later = (first_counted if_type u turns k).1

      cases :
          (o : WriteRound)
          → ((r' : Run)
              → all_counted if_type (left_of (send_chunk p grant if_type turns more r')) ≡ true)
          → all_counted if_type (
              left_of (elim o as (λ x. Step) [
                | again r' ↦ send_chunk p grant if_type turns more r'
                | stop r' ↦ failed r'
                | stuck r' ↦ waiting r'
              ]))
            ≡ true
      cases (again r') ih = ih r'
      cases (stop r') ih = unfold all_counted in refl
      cases (stuck r') ih = unfold all_counted in refl
