-- ===== src/Canonij/ParamList.antt =====
-- rastertocanonij/src/paramlist.c: options and their values, each key at most once.
pub mod Laws
use cnijfilter.Common.{
  ℕ, zero, suc, ◌+◌, Bool, true, false, ◌||◌, not, Option, none, some, List, [], ◌∷◌, if◌then◌else◌,
  take,
}
use cnijfilter.Text.{Text, same_text}

-- `struct param_list_s`, without `next`: the list is a list. `value` is the block of `value_size`
-- bytes.
pub record Param : Type 0 where
  pub key : Text
  pub value : List ℕ
  pub value_size : ℕ

-- `param_list_find`: the node with the key, with those behind it.
pub param_list_find : List Param → Text → Option (List Param)
param_list_find [] key = none
param_list_find (curs ∷ pl) key =
    let more = param_list_find pl key in if same_text curs.key key then some (curs ∷ pl) else more

-- `param_list_delete`: the first node with the key goes.
pub param_list_delete : List Param → Text → List Param
param_list_delete [] key = []
param_list_delete (curs ∷ pl) key =
    let more = param_list_delete pl key in if same_text curs.key key then pl else curs ∷ more

abbrev pub is_found : Option (List Param) → Bool
is_found none = false
is_found (some pl) = true

-- `param_list_add_multi`, where `malloc` grants all it asks for.
pub param_list_add_multi : List Param → Text → List ℕ → ℕ → Bool → List Param
param_list_add_multi root key value value_size multi_key =
    if multi_key || not (is_found (param_list_find root key))
    then record { key = key; value = take value_size value; value_size = value_size }
      ∷ param_list_delete root key
    else root

-- The macro `param_list_add`.
pub param_list_add : List Param → Text → List ℕ → ℕ → List Param
param_list_add root key value value_size = param_list_add_multi root key value value_size false

pub param_list_num : List Param → ℕ
param_list_num [] = 0
param_list_num (p ∷ pl) = param_list_num pl + 1

unfoldable pub ref_value_from_list : List Param → Text → Option (List ℕ)
ref_value_from_list [] key = none
ref_value_from_list (curs ∷ pl) key =
    let more = ref_value_from_list pl key in
    if same_text curs.key key then some curs.value else more
