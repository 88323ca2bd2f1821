-- ===== src/Canonij/ParamList/Laws.antt =====
-- The list is a map from keys to values.
use cnijfilter.Common.{
  ℕ, ◌≡◌, refl, sym, ap, ◌∙◌, Bool, true, false, Bool-cases, inl, inr, Option, none, some, List, [],
  ◌∷◌, if◌then◌else◌, ◌&&◌, ◌||◌, not, take,
}
use cnijfilter.Text.{Text, same_text, same_text→eq}
use cnijfilter.Canonij.ParamList.{
  Param, param_list_add, is_found, param_list_find, param_list_delete, param_list_add_multi,
  ref_value_from_list,
}

-- The list as a partial map, and the update of a map.
abbrev pub Lookup : Type 0
Lookup = Text → Option (List ℕ)

abbrev pub has_value : Option (List ℕ) → Bool
has_value none = false
has_value (some v) = true

-- No two nodes have the same key.
unfoldable pub IsUnique : List Param → Type 0
IsUnique [] = Unit
IsUnique (p ∷ pl) = (ref_value_from_list pl p.key ≡ none) × IsUnique pl

skip :
    (p : Param) (pl : List Param) (key : Text)
    → same_text p.key key ≡ false
    → ref_value_from_list (p ∷ pl) key ≡ ref_value_from_list pl key
unfolding ref_value_from_list
skip p pl key e = rw e refl

hit :
    (p : Param) (pl : List Param) (key : Text)
    → same_text p.key key ≡ true
    → ref_value_from_list (p ∷ pl) key ≡ some p.value
unfolding ref_value_from_list
hit p pl key e = rw e refl

delete-other :
    (pl : List Param) (key other : Text)
    → same_text key other ≡ false
    → ref_value_from_list (param_list_delete pl key) other ≡ ref_value_from_list pl other
unfolding param_list_delete ref_value_from_list
delete-other [] key other h = refl
delete-other (p ∷ pl) key other h = elim (Bool-cases (same_text p.key key)) [
  | inl e ↦
      let f : same_text p.key other ≡ false =
        ap (λ k. same_text k other) (same_text→eq p.key key e) ∙ h in
      rw (e, f) refl
  | inr e ↦ rw e (
      ap (λ more. if same_text p.key other then some p.value else more)
        (delete-other pl key other h))
]

delete-none :
    (pl : List Param) (key : Text)
    → ref_value_from_list pl key ≡ none
    → param_list_delete pl key ≡ pl
unfolding param_list_delete ref_value_from_list
delete-none [] key h = refl
delete-none (p ∷ pl) key h = elim (Bool-cases (same_text p.key key)) [
  | inl e ↦ cc
  | inr e ↦ rw e (ap (λ more. p ∷ more) (delete-none pl key (sym (skip p pl key e) ∙ h)))
]

delete-gone :
    (pl : List Param) (key : Text)
    → IsUnique pl
    → ref_value_from_list (param_list_delete pl key) key ≡ none
unfolding param_list_delete ref_value_from_list IsUnique
delete-gone [] key u = refl
delete-gone (p ∷ pl) key u = elim (Bool-cases (same_text p.key key)) [
  | inl e ↦ rw e (ap (ref_value_from_list pl) (sym (same_text→eq p.key key e)) ∙ u.0)
  | inr e ↦ rw (e, ref_value_from_list) (rw e (delete-gone pl key u.1))
]

find-ref_value :
    (pl : List Param) (key : Text)
    → is_found (param_list_find pl key) ≡ has_value (ref_value_from_list pl key)
unfolding param_list_find ref_value_from_list
find-ref_value [] key = refl
find-ref_value (p ∷ pl) key = elim (Bool-cases (same_text p.key key)) [
  | inl e ↦ rw e refl
  | inr e ↦ rw e (find-ref_value pl key)
]

-- A key that is absent stays absent.
delete-absent :
    (pl : List Param) (key other : Text)
    → ref_value_from_list pl other ≡ none
    → ref_value_from_list (param_list_delete pl key) other ≡ none
delete-absent pl key other h = elim (Bool-cases (same_text key other)) [
  | inl e ↦
      ap (λ q. ref_value_from_list q other)
        (delete-none pl key (ap (ref_value_from_list pl) (same_text→eq key other e) ∙ h))
      ∙ h
  | inr e ↦ delete-other pl key other e ∙ h
]

-- Deleting a key leaves each key at most once.
pub IsUnique-delete :
    (pl : List Param) (key : Text) → IsUnique pl → IsUnique (param_list_delete pl key)
unfolding IsUnique param_list_delete
IsUnique-delete [] key u = tt
IsUnique-delete (p ∷ pl) key u = elim (Bool-cases (same_text p.key key)) [
  | inl e ↦ rw e u.1
  | inr e ↦ rw e (delete-absent pl key p.key u.0, IsUnique-delete pl key u.1)
]

-- Adding to a list that has each key at most once, with any `multi_key`, gives such a list.
pub add_multi-IsUnique :
    (pl : List Param) (key : Text) (value : List ℕ) (value_size : ℕ) (multi_key : Bool)
    → IsUnique pl
    → IsUnique (param_list_add_multi pl key value value_size multi_key)
unfolding IsUnique param_list_add_multi
add_multi-IsUnique pl key value value_size multi_key u =
    elim (Bool-cases (multi_key || not (is_found (param_list_find pl key)))) [
      | inl e ↦ rw e (delete-gone pl key u, IsUnique-delete pl key u)
      | inr e ↦ rw e u
    ]

-- After adding a value, its key has the first `value_size` bytes of it if the key had no value or
-- may be added again; every other key, and a key that keeps its value, is looked up as before.
pub ref_value-add_multi :
    (pl : List Param) (key other : Text) (value : List ℕ) (value_size : ℕ) (multi_key : Bool)
    → ref_value_from_list (param_list_add_multi pl key value value_size multi_key) other ≡ (
        if same_text key other && (multi_key || not (has_value (ref_value_from_list pl key)))
        then some (take value_size value)
        else ref_value_from_list pl other)
unfolding param_list_add_multi
ref_value-add_multi pl key other value size multi =
    rw (find-ref_value pl key)
      (elim (Bool-cases (multi || not (has_value (ref_value_from_list pl key)))) [
        | inl e ↦ rw e (new pl key other value size)
        | inr e ↦ rw e (kept (same_text key other) _ _)
      ])
  where
    kept : (b : Bool) (x y : Option (List ℕ)) → y ≡ (if b && false then x else y)
    kept false x y = refl
    kept true x y = refl

    new :
        (pl : List Param) (key other : Text) (value : List ℕ) (size : ℕ)
        → ref_value_from_list
            (record { key = key; value = take size value; value_size = size }
              ∷ param_list_delete pl key)
            other
          ≡ (if same_text key other && true
              then some (take size value)
              else ref_value_from_list pl other)
    new pl key other value size = elim (Bool-cases (same_text key other)) [
      | inl e ↦ rw e (hit _ _ other e)
      | inr e ↦ rw e (skip _ _ other e ∙ delete-other pl key other e)
    ]

-- The same for the macro.
pub ref_value-add :
    (pl : List Param) (key other : Text) (value : List ℕ) (value_size : ℕ)
    → ref_value_from_list (param_list_add pl key value value_size) other ≡ (
        if same_text key other && not (has_value (ref_value_from_list pl key))
        then some (take value_size value)
        else ref_value_from_list pl other)
unfolding param_list_add
ref_value-add pl key other value value_size =
    ref_value-add_multi pl key other value value_size false

pub add-IsUnique :
    (pl : List Param) (key : Text) (value : List ℕ) (value_size : ℕ)
    → IsUnique pl
    → IsUnique (param_list_add pl key value value_size)
unfolding param_list_add
add-IsUnique pl key value value_size u = add_multi-IsUnique pl key value value_size false u
