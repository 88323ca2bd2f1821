-- ===== src/Canonij/PrintArea/Look.antt =====
-- The printable area that is found is the one that the PPD file has for the size.
use cnijfilter.Common.{◌+◌, ◌<◌, ◌≡◌, false, List, [], ◌∷◌, ◌++◌, length, All, ℤ, int_is}
use cnijfilter.Text.{Text}
use cnijfilter.Canonij.Table.{line_buf_size, has_mark}
use cnijfilter.Canonij.Table.Lines.{IsInner}
use cnijfilter.Canonij.Table.Entries.{IsWord}
use cnijfilter.Canonij.PrintArea.{print_area_mark, SizeToPrintArea}

-- An entry as it is written: a key and two numbers.
pub record Written : Type 0 where
  pub key : Text
  pub width : Text
  pub height : Text

pub data AreaPpdLine : Type 0 where
  area_entry : Written → AreaPpdLine
  area_other : Text → AreaPpdLine

unfoldable pub render_area : AreaPpdLine → Text
render_area (area_entry e) =
    print_area_mark ++ (32 ∷ (e.key ++ (32 ∷ (e.width ++ (32 ∷ e.height)))))
render_area (area_other line) = line

module _ (atol : Text → ℤ) where
  -- A line that fits the buffer; an entry of three words whose numbers are not 0, or a line without
  -- the mark.
  abbrev pub IsAreaLine : AreaPpdLine → Type 0
  IsAreaLine (area_entry e) =
      IsWord e.key
      × IsWord e.width
      × IsWord e.height
      × (int_is (atol e.width) 0 ≡ false)
      × (int_is (atol e.height) 0 ≡ false)
      × (30 + length e.key + length e.width + length e.height < line_buf_size)
  IsAreaLine (area_other line) =
      All IsInner line × (length line < line_buf_size) × (has_mark print_area_mark line ≡ false)

  unfoldable pub area_of : Written → SizeToPrintArea
  area_of e = record { size_key = e.key; width = atol e.width; height = atol e.height }

  unfoldable pub areas_of : List AreaPpdLine → List SizeToPrintArea
  areas_of [] = []
  areas_of (area_entry e ∷ ls) = area_of e ∷ areas_of ls
  areas_of (area_other line ∷ ls) = areas_of ls
