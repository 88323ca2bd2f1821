-- ===== src/Canonij/PrintArea.antt =====
-- rastertocanonij/src/canonopt.c, `alloc_size_to_print_area_table` and `size_to_print_area_table`,
-- and getsettings.c, `GetPrinterableAreaOptionFromPPD`: the printable area of a paper size.
pub mod Look
use cnijfilter.Common.{
  ℕ, ◌+◌, ◌-◌, ◌*◌, Bool, true, false, not, ◌&&◌, Option, none, some, List, [], ◌∷◌, ◌++◌,
  if◌then◌else◌, length, take, ℤ, pos, negsuc, int_is,
}
use cnijfilter.Text.{Text, codes, same_text}
use cnijfilter.Canonij.ParamList.{Param, param_list_add}
use cnijfilter.Canonij.Table.{file_lines, c_string, strtok, has_mark, count_marks}
use cnijfilter.Canonij.Settings.{buf_size}

-- "*%CNSizeToPrintArea"
abbrev pub print_area_mark : Text
print_area_mark = codes "*%CNSizeToPrintArea"

pub record SizeToPrintArea : Type 0 where
  pub size_key : Text
  pub width : ℤ
  pub height : ℤ

-- What a line with the mark gives: nothing, an entry, or a call of `atol` on NULL.
pub data AreaLine : Type 0 where
  skipped : AreaLine
  area : SizeToPrintArea → AreaLine
  no_number : AreaLine

-- The table: there is none, the call went wrong (a cleared NULL, or `atol` on NULL), or so many
-- places were allocated and these entries stand before the one that ends the table.
pub data AreaTable : Type 0 where
  no_table : AreaTable
  broken : AreaTable
  table : ℕ → List SizeToPrintArea → AreaTable

-- `atol` is that of C; `malloc` grants a size or not.
module _ (atol : Text → ℤ) (grant : ℕ → Bool) where
  -- `strtok (NULL, " ")` three times after the mark, the test, and the copy of the key.
  unfoldable pub area_of_tokens : Option Text → Option Text → Option Text → AreaLine
  area_of_tokens none w h = no_number
  area_of_tokens (some k) none h = no_number
  area_of_tokens (some k) (some w) none = no_number
  area_of_tokens (some k) (some w) (some h) =
      if not (int_is (atol w) 0) && (not (int_is (atol h) 0) && grant (length k + 1))
      then area (record { size_key = k; width = atol w; height = atol h })
      else skipped

  unfoldable pub area_line : Text → AreaLine
  area_line line =
      let after_mark = (strtok (c_string line)).1 in
      let after_key = (strtok after_mark).1 in
      area_of_tokens (strtok after_mark).0 (strtok after_key).0 (strtok (strtok after_key).1).0

  -- The second pass; `none` where it goes wrong.
  unfoldable pub area_entries : List Text → Option (List SizeToPrintArea)
  area_entries [] = some []
  area_entries (line ∷ lines) =
      let more = area_entries lines in
      if has_mark print_area_mark line
      then elim (area_line line) [
        | skipped ↦ more
        | area e ↦ elim more [ none ↦ none | some es ↦ some (e ∷ es) ]
        | no_number ↦ none
      ]
      else more

  unfoldable pub alloc_size_to_print_area_table : Option Text → AreaTable
  alloc_size_to_print_area_table none = no_table
  alloc_size_to_print_area_table (some file) =
      let opt_num = count_marks print_area_mark (file_lines file) in
      if grant (24 * (opt_num + 1))
      then elim (area_entries (file_lines file)) [
        | none ↦ broken
        | some es ↦ table (opt_num + 1) es
      ]
      else broken

-- The loop of `size_to_print_area_table`: where no entry has the key, the sizes are kept.
unfoldable pub find_area : List SizeToPrintArea → Text → ℤ × ℤ → ℤ × ℤ
find_area [] size_key kept = kept
find_area (e ∷ es) size_key kept =
    if same_text e.size_key size_key then (e.width, e.height) else find_area es size_key kept

-- `snprintf (num_buf, BUF_SIZE, "%ld", n)` and `param_list_add`; `ltoa` prints a number.
unfoldable pub add_number : (ℤ → Text) → List Param → Text → ℤ → List Param
add_number ltoa pl key n =
    let num_buf = take (buf_size - 1) (ltoa n) in
    param_list_add pl key (num_buf ++ (0 ∷ [])) (length num_buf + 1)

-- `GetPrinterableAreaOptionFromPPD` with a size and a place for the number: the result, the list
-- and its number. `none` stands for a call that went wrong.
unfoldable pub get_printable_area_option :
    (ℤ → Text) → AreaTable → Text → Option (ℤ × List Param × ℕ)
get_printable_area_option ltoa no_table size_str = some (negsuc 0, [], 0)
get_printable_area_option ltoa broken size_str = none
get_printable_area_option ltoa (table n es) size_str =
    let (width, height) = find_area es size_str (pos 0, pos 0) in
    some (
      pos 0,
      add_number ltoa (add_number ltoa [] (codes "--printable_width") width)
          (codes "--printable_height") height,
      2,
    )
