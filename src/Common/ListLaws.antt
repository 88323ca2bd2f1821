-- ===== src/Common/ListLaws.antt =====
-- More laws of lists: splitting at a length, reading after a write, and equality by elements.
use Prim.Native.Nat.{ℕ, zero, suc, ◌+◌, ◌-◌, ◌≤◌, ◌<◌}
use mathlib.Core.Path.{◌≡◌, refl, sym, ap, ap₂, ◌∙◌, subst}
use mathlib.Core.Logic.{inl, inr}
use mathlib.Core.List.{List, [], ◌∷◌, ◌++◌, reverse, reverse-append}
use native.Mathlib.Omega.{arith}
use cnijfilter.Common.Lists.{replicate, length, take, drop, set, get_or, length-append}
use cnijfilter.Common.Tests.{◌==◌, ltb, Bool-cases, ltb→lt, ltb-false, if◌then◌else◌}

module _ {ℓ} {A : Type ℓ} where
  pub take-append_length : (n : ℕ) (xs ys : List A) → length xs ≡ n → take n (xs ++ ys) ≡ xs
  take-append_length zero [] ys h = refl
  take-append_length zero (x ∷ xs) ys h = absurd (omega arith)
  take-append_length (suc n) [] ys h = absurd (omega arith)
  take-append_length (suc n) (x ∷ xs) ys h =
      ap (λ t. x ∷ t) (take-append_length n xs ys (omega arith))

  pub drop-append_length : (n : ℕ) (xs ys : List A) → length xs ≡ n → drop n (xs ++ ys) ≡ ys
  drop-append_length zero [] ys h = refl
  drop-append_length zero (x ∷ xs) ys h = absurd (omega arith)
  drop-append_length (suc n) [] ys h = absurd (omega arith)
  drop-append_length (suc n) (x ∷ xs) ys h = drop-append_length n xs ys (omega arith)

  abbrev pub All {κ} : (A → Type κ) → List A → Type κ
  All P [] = Unit {κ}
  All P (x ∷ xs) = P x × All P xs

  pub All-drop {κ} : (P : A → Type κ) (n : ℕ) (xs : List A) → All P xs → All P (drop n xs)
  All-drop P zero xs h = h
  All-drop P (suc n) [] h = h
  All-drop P (suc n) (x ∷ xs) h = All-drop P n xs h.1

  pub All-take {κ} : (P : A → Type κ) (n : ℕ) (xs : List A) → All P xs → All P (take n xs)
  All-take P zero xs h = tt
  All-take P (suc n) [] h = h
  All-take P (suc n) (x ∷ xs) h = (h.0, All-take P n xs h.1)

  pub drop-suc : (n : ℕ) (xs : List A) → drop (suc n) xs ≡ drop 1 (drop n xs)
  drop-suc zero xs = refl
  drop-suc (suc n) [] = refl
  drop-suc (suc n) (x ∷ xs) = drop-suc n xs

  pub take-length : (xs : List A) → take (length xs) xs ≡ xs
  take-length [] = refl
  take-length (x ∷ xs) = ap (λ t. x ∷ t) (take-length xs)

  pub All-append {κ} : (P : A → Type κ) (xs ys : List A) → All P xs → All P ys → All P (xs ++ ys)
  All-append P [] ys h k = k
  All-append P (x ∷ xs) ys h k = (h.0, All-append P xs ys h.1 k)

  pub All-reverse {κ} : (P : A → Type κ) (xs : List A) → All P xs → All P (reverse xs)
  All-reverse P [] h = h
  All-reverse P (x ∷ xs) h =
      subst (All P) (sym (reverse-append (x ∷ []) xs))
        (All-append P (reverse xs) (x ∷ []) (All-reverse P xs h.1) (h.0, tt))

  pub All-split {κ} : (P : A → Type κ) (xs ys : List A) → All P (xs ++ ys) → All P xs × All P ys
  All-split P [] ys h = (tt, h)
  All-split P (x ∷ xs) ys h = let rest = All-split P xs ys h.1 in ((h.0, rest.0), rest.1)

  pub take-add : (m n : ℕ) (xs : List A) → take (m + n) xs ≡ take m xs ++ take n (drop m xs)
  take-add zero n xs = ap (λ k. take k xs) (omega arith)
  take-add (suc m) n [] = ap (λ k. take k []) shift ∙ sym (take_nil n)
    where
      shift : suc m + n ≡ suc (m + n)
      shift = omega arith

      take_nil : (k : ℕ) → take {A = A} k [] ≡ []
      take_nil zero = refl
      take_nil (suc k) = refl
  take-add (suc m) n (x ∷ xs) = ap (λ k. take k (x ∷ xs)) shift ∙ ap (λ t. x ∷ t) (take-add m n xs)
    where
      shift : suc m + n ≡ suc (m + n)
      shift = omega arith

  pub nil_of_length : (xs : List A) → length xs ≡ 0 → xs ≡ []
  nil_of_length [] h = refl
  nil_of_length (x ∷ xs) h = absurd (omega arith)

  pub get_or-set :
      (xs : List A) (i j : ℕ) (v d : A)
      → i < length xs
      → get_or (set xs i v) j d ≡ (if i == j then v else get_or xs j d)
  get_or-set [] i j v d h = absurd (omega arith)
  get_or-set (x ∷ xs) zero zero v d h = refl
  get_or-set (x ∷ xs) zero (suc j) v d h = ground arith
  get_or-set (x ∷ xs) (suc i) zero v d h = ground arith
  get_or-set (x ∷ xs) (suc i) (suc j) v d h = get_or-set xs i j v d (omega arith) ∙ ground arith

  pub get_or-append :
      (xs ys : List A) (k : ℕ) (d : A)
      → get_or (xs ++ ys) k d
        ≡ (if ltb k (length xs) then get_or xs k d else get_or ys (k - length xs) d)
  get_or-append [] ys k d = ground arith
  get_or-append (x ∷ xs) ys zero d = ground arith
  get_or-append (x ∷ xs) ys (suc k) d = get_or-append xs ys k d ∙ ground arith

  pub length-reverse : (xs : List A) → length (reverse xs) ≡ length xs
  length-reverse [] = refl
  length-reverse (x ∷ xs) =
      ap length (reverse-append (x ∷ []) xs)
      ∙ omega (arith, length-append (reverse xs) (x ∷ []), length-reverse xs)

  pub get_or-reverse :
      (xs : List A) (k : ℕ) (d : A)
      → k < length xs
      → get_or (reverse xs) k d ≡ get_or xs (length xs - 1 - k) d
  get_or-reverse [] k d h = absurd (omega arith)
  get_or-reverse (x ∷ xs) k d h =
      ap (λ l. get_or l k d) (reverse-append (x ∷ []) xs)
      ∙ get_or-append (reverse xs) (x ∷ []) k d
      ∙ elim (Bool-cases (ltb k (length (reverse xs)))) [
        | inl t ↦
            let short : k < length xs = omega (arith, ltb→lt k _ t, length-reverse xs) in
            let place : length (x ∷ xs) - 1 - k ≡ suc (length xs - 1 - k) = omega arith in
            rw (t, place) (get_or-reverse xs k d short)
        | inr f ↦
            let last : k - length (reverse xs) ≡ 0 = omega (arith, length-reverse xs) in
            let place : length (x ∷ xs) - 1 - k ≡ 0 =
              omega (arith, ltb-false k _ f, length-reverse xs) in
            rw (f, last, place)
      ]

  -- Lists of one length with the same elements are equal.
  pub get_or_ext :
      (xs ys : List A) (d : A)
      → length xs ≡ length ys
      → ((k : ℕ) → k < length xs → get_or xs k d ≡ get_or ys k d)
      → xs ≡ ys
  get_or_ext [] [] d e h = refl
  get_or_ext [] (y ∷ ys) d e h = absurd (omega arith)
  get_or_ext (x ∷ xs) [] d e h = absurd (omega arith)
  get_or_ext (x ∷ xs) (y ∷ ys) d e h =
      ap₂ ◌∷◌ (h 0 (omega arith))
        (get_or_ext xs ys d (omega arith) (λ k l. h (suc k) (omega arith)))

  pub take-append_le : (n : ℕ) (xs ys : List A) → n ≤ length xs → take n (xs ++ ys) ≡ take n xs
  take-append_le zero xs ys h = refl
  take-append_le (suc n) [] ys h = absurd (omega arith)
  take-append_le (suc n) (x ∷ xs) ys h = ap (λ t. x ∷ t) (take-append_le n xs ys (omega arith))

  pub drop-append_le :
      (n : ℕ) (xs ys : List A) → n ≤ length xs → drop n (xs ++ ys) ≡ drop n xs ++ ys
  drop-append_le zero xs ys h = refl
  drop-append_le (suc n) [] ys h = absurd (omega arith)
  drop-append_le (suc n) (x ∷ xs) ys h = drop-append_le n xs ys (omega arith)

module _ {ℓ} {A : Type ℓ} where
  pub take-replicate : (k n : ℕ) (a : A) → k ≤ n → take k (replicate n a) ≡ replicate k a
  take-replicate zero n a h = refl
  take-replicate (suc k) zero a h = absurd (omega arith)
  take-replicate (suc k) (suc n) a h = ap (λ l. a ∷ l) (take-replicate k n a (omega arith))

  pub drop-replicate : (k n : ℕ) (a : A) → drop k (replicate n a) ≡ replicate (n - k) a
  drop-replicate zero n a = let e : n ≡ n - 0 = omega arith in ap (λ m. replicate m a) e
  drop-replicate (suc k) zero a = let e : 0 ≡ 0 - suc k = omega arith in ap (λ m. replicate m a) e
  drop-replicate (suc k) (suc n) a =
      let e : n - k ≡ suc n - suc k = omega arith in
      drop-replicate k n a ∙ ap (λ m. replicate m a) e

module _ {ℓ} {A : Type ℓ} where
  pub take-nil : (n : ℕ) → take {A = A} n [] ≡ []
  take-nil zero = refl
  take-nil (suc n) = refl

  pub drop-nil : (n : ℕ) → drop {A = A} n [] ≡ []
  drop-nil zero = refl
  drop-nil (suc n) = refl
