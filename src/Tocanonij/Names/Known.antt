-- ===== src/Tocanonij/Names/Known.antt =====
-- Every name of the tables is found, in upper and lower case.
use cnijfilter.Common.{
  ◌≡◌, refl, sym, ap, ◌∙◌, Bool, true, false, Bool-cases, inl, inr, List, [], ◌∷◌, All, pos, int_is,
  ◌&&◌,
}
use cnijfilter.Text.{Text, same_text}
use cnijfilter.Pwg.Extend.Track.{int_is-true}
use cnijfilter.Tocanonij.Names.{
  MapTbl, buf_name, convert_str_to_id, to_lower_except_size_x, is_size_x, size_loop, size_step,
  is_number, to_lower,
}
use cnijfilter.Tocanonij.Names.Tables.{mediatype_tbl, papersize_tbl, colormode_tbl, duplexprint_tbl}

-- The look-up sees a name only as it is compared.
convert_str_to_id_same :
    (s t : Text) (tbl : List MapTbl)
    → buf_name s ≡ buf_name t
    → convert_str_to_id s tbl ≡ convert_str_to_id t tbl
unfolding convert_str_to_id
convert_str_to_id_same s t [] h = refl
convert_str_to_id_same s t (cur ∷ tbl) h = rw (h, convert_str_to_id_same s t tbl h) refl

-- A name that is compared like the name of an entry has the entry's number.
abbrev pub IsKnown : List MapTbl → Text → MapTbl → Type 0
IsKnown tbl s e = buf_name s ≡ buf_name e.opt_name → convert_str_to_id s tbl ≡ pos e.opt_num

known :
    (s : Text) (tbl rest : List MapTbl)
    → All (λ e. convert_str_to_id e.opt_name tbl ≡ pos e.opt_num) rest
    → All (IsKnown tbl s) rest
known s tbl [] h = tt
known s tbl (e ∷ rest) h =
    ((λ same. convert_str_to_id_same s e.opt_name tbl same ∙ h.0), known s tbl rest h.1)

-- The entries of `rest` have their numbers in `tbl`.
found : List MapTbl → List MapTbl → Bool
found tbl [] = true
found tbl (e ∷ rest) = int_is (convert_str_to_id e.opt_name tbl) e.opt_num && found tbl rest

found_lem :
    (tbl rest : List MapTbl)
    → found tbl rest ≡ true
    → All (λ e. convert_str_to_id e.opt_name tbl ≡ pos e.opt_num) rest
unfolding found
found_lem tbl [] h = tt
found_lem tbl (e ∷ rest) h =
    elim (Bool-cases (int_is (convert_str_to_id e.opt_name tbl) e.opt_num)) [
      | inl t ↦ (
        int_is-true (convert_str_to_id e.opt_name tbl) e.opt_num t,
        found_lem tbl rest (ap (λ b. b && found tbl rest) (sym t) ∙ h),
      )
      | inr f ↦ absurd (false_lem (ap (λ b. b && found tbl rest) (sym f) ∙ h))
    ]
  where
    false_lem : false ≡ true → ⊥
    false_lem e = cc

all_found :
    (found mediatype_tbl mediatype_tbl ≡ true)
    × (found papersize_tbl papersize_tbl ≡ true)
    × (found colormode_tbl colormode_tbl ≡ true)
    × (found duplexprint_tbl duplexprint_tbl ≡ true)
unfolding found convert_str_to_id buf_name same_text to_lower_except_size_x is_size_x size_loop
    size_step is_number to_lower int_is
all_found = (refl, refl, refl, refl)

-- A name that is compared like the name of an entry, of whichever of the four tables, has the
-- number of that entry in its table: no entry hides another.
pub convert_str_to_id-IsKnown :
    (s : Text)
    → All (IsKnown mediatype_tbl s) mediatype_tbl
      × All (IsKnown papersize_tbl s) papersize_tbl
      × All (IsKnown colormode_tbl s) colormode_tbl
      × All (IsKnown duplexprint_tbl s) duplexprint_tbl
convert_str_to_id-IsKnown s = (
  known s mediatype_tbl mediatype_tbl (found_lem mediatype_tbl mediatype_tbl all_found.0),
  known s papersize_tbl papersize_tbl (found_lem papersize_tbl papersize_tbl all_found.1),
  known s colormode_tbl colormode_tbl (found_lem colormode_tbl colormode_tbl all_found.2),
  known s duplexprint_tbl duplexprint_tbl (found_lem duplexprint_tbl duplexprint_tbl all_found.3),
)
