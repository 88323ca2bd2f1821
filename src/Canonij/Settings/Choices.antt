-- ===== src/Canonij/Settings/Choices.antt =====
-- Each option has the choice of the first table entry that gives it one.
use cnijfilter.Common.{ℕ, ◌+◌, ◌-◌, Option, none, some, List, [], ◌∷◌, if◌then◌else◌, take, length}
use cnijfilter.Text.{Text, same_text}
use cnijfilter.Canonij.Table.{PpdToOptKey}
use cnijfilter.Canonij.Settings.{buf_size, choice_buf}

-- The choice of the first entry of the table for an option that has a marked choice.
unfoldable pub first_choice : (Text → Option Text) → List PpdToOptKey → Text → Option (List ℕ)
first_choice marked [] key = none
first_choice marked (e ∷ table) key = elim (marked e.ppd_key) [
  | none ↦ first_choice marked table key
  | some choice ↦
      if same_text e.opt_key key
      then some (take (length (take (buf_size - 1) choice) + 1) (choice_buf choice))
      else first_choice marked table key
]

abbrev or_else : Option (List ℕ) → Option (List ℕ) → Option (List ℕ)
or_else none b = b
or_else (some v) b = some v
