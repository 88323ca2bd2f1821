-- ===== src/Tocanonij/Names.antt =====
-- tocanonij/src/main.c, `is_size_X` to `IsBorderless`: the names of the options' choices.
pub mod Sizes
pub mod Tables
pub mod Known
use cnijfilter.Common.{
  ℕ, zero, suc, ◌+◌, ◌-◌, Bool, true, false, not, ◌&&◌, Option, none, some, List, [], ◌∷◌, map,
  take, leb, ◌==◌, if◌then◌else◌, ℤ, pos, negsuc,
}
use cnijfilter.Text.{Text, codes, same_text, strstr}

-- IS_NUMBER
unfoldable pub is_number : ℕ → Bool
is_number c = leb b'0' c && leb c b'9'

-- The values 0 to 4 of `is_size`.
pub data SizeState : Type 0 where
  not_size : SizeState
  at_start : SizeState
  in_width : SizeState
  after_x : SizeState
  in_height : SizeState

unfoldable pub size_step : SizeState → ℕ → SizeState
size_step not_size c = not_size
size_step at_start c = if is_number c then in_width else not_size
size_step in_width c =
    if c == b'X' then after_x else if not (is_number c) then not_size else in_width
size_step after_x c = if is_number c then in_height else not_size
size_step in_height c = if is_number c then in_height else not_size

-- `while (*str && is_size)`
unfoldable pub size_loop : SizeState → Text → SizeState
size_loop s [] = s
size_loop not_size (c ∷ str) = not_size
size_loop s (c ∷ str) = let more = size_loop (size_step s c) str in if c == b'.' then s else more

abbrev pub is_full : SizeState → Bool
is_full not_size = false
is_full at_start = false
is_full in_width = false
is_full after_x = false
is_full in_height = true

unfoldable pub is_size_x : Text → Bool
is_size_x str = is_full (size_loop at_start str)

unfoldable pub to_lower : ℕ → ℕ
to_lower c = if leb b'A' c && leb c b'Z' then c - b'A' + b'a' else c

unfoldable pub to_lower_except_size_x : Text → Text
to_lower_except_size_x str = if not (is_size_x str) then map to_lower str else str

-- `MapTbl`
pub record MapTbl : Type 0 where
  pub opt_name : Text
  pub opt_num : ℕ

-- TMP_BUF_SIZE
abbrev pub tmp_buf_size : ℕ
tmp_buf_size = 256

-- A name as it is compared.
unfoldable pub buf_name : Text → Text
buf_name str = to_lower_except_size_x (take (tmp_buf_size - 1) str)

-- `ConvertStrToID`, on a table up to its end mark.
unfoldable pub convert_str_to_id : Text → List MapTbl → ℤ
convert_str_to_id str [] = negsuc 0
convert_str_to_id str (cur ∷ tbl) =
    let more = convert_str_to_id str tbl in
    if same_text (buf_name cur.opt_name) (buf_name str) then pos cur.opt_num else more

-- `IsBorderless`
unfoldable pub is_borderless : Text → Bool
is_borderless str = elim (strstr str (codes ".bl")) [ none ↦ false | some found ↦ true ]
