-- ===== src/Canonij/Settings.antt =====
-- rastertocanonij/src/getsettings.c, `GetPrinterSettings`: the options that the job's choices give.
pub mod Choices
use cnijfilter.Common.{
  ℕ, zero, suc, ◌+◌, ◌-◌, Option, none, some, List, [], ◌∷◌, ◌++◌, take, length,
}
use cnijfilter.Text.{Text}
use cnijfilter.Canonij.ParamList.{Param, param_list_add}
use cnijfilter.Canonij.Table.{PpdToOptKey}

-- BUF_SIZE
abbrev pub buf_size : ℕ
buf_size = 256

-- The text with its zero, as `strncpy` and the zero at the end of the buffer leave it.
pub choice_buf : Text → List ℕ
choice_buf choice = take (buf_size - 1) choice ++ (0 ∷ [])

-- `param_list_add (&local_p_list, p_table->opt_key, choice, strlen (choice) + 1)`
pub add_choice : List Param → Text → Text → List Param
add_choice pl opt_key choice =
    param_list_add pl opt_key (choice_buf choice) (length (take (buf_size - 1) choice) + 1)

-- The loop over the table: the list, and `numCnt`. `marked` is `ppdFindMarkedChoice` on the PPD
-- file after the defaults and the job's options were marked.
pub settings_loop : (Text → Option Text) → List PpdToOptKey → List Param → ℕ → List Param × ℕ
settings_loop marked [] pl num_cnt = (pl, num_cnt)
settings_loop marked (e ∷ table) pl num_cnt = elim (marked e.ppd_key) [
  | none ↦ settings_loop marked table pl num_cnt
  | some choice ↦ settings_loop marked table (add_choice pl e.opt_key choice) (num_cnt + 1)
]

-- "--filterpath"
abbrev pub filterpath : Text
filterpath = b'-' ∷ b'-' ∷ b'f' ∷ b'i' ∷ b'l' ∷ b't' ∷ b'e' ∷ b'r' ∷ b'p' ∷ b'a' ∷ b't' ∷ b'h' ∷ []

-- `GetPrinterSettings`, once the PPD file is open and its table read.
pub get_printer_settings : Text → (Text → Option Text) → List PpdToOptKey → List Param × ℕ
get_printer_settings libpath marked table =
    settings_loop marked table
      (param_list_add [] filterpath (libpath ++ (0 ∷ [])) (length libpath + 1)) 0
