-- ===== src/Canonij/Command.antt =====
-- rastertocanonij/src/main.c, `GetOptionBufSize`, `MakeExecCommand` and `main` up to the start of
-- the filters, and common.c, `GetExecProgPath`: the command line of a job.
pub mod Words
use cnijfilter.Common.{
  ℕ, zero, suc, ◌+◌, ◌-◌, ◌*◌, Bool, true, false, not, ◌&&◌, ◌||◌, Option, none, some, List, [],
  ◌∷◌, ◌++◌, ◌==◌, ltb, leb, if◌then◌else◌, take, drop, length, get_or, ℤ, pos, negsuc, is_zero,
}
use cnijfilter.Text.{Text, codes, strstr}
use cnijfilter.Canonij.ParamList.{Param, param_list_add, ref_value_from_list}
use cnijfilter.Canonij.Table.{c_string}

-- CMD_BUF_SIZE
abbrev pub cmd_buf_size : ℕ
cmd_buf_size = 1024 * 3

-- The loop of `GetExecProgPath` from the place `len` down: the path up to its last slash, that at
-- the beginning left out; without one, the whole path. `buf` is what readlink gave.
unfoldable pub prog_dir : ℕ → Text → Text
prog_dir zero buf = buf
prog_dir (suc len) buf =
    let shorter = prog_dir len buf in
    if get_or buf (suc len) 0 == 47 then take (suc len + 1) buf else shorter

unfoldable pub get_exec_prog_path : Text → Text
get_exec_prog_path buf = prog_dir (length buf) buf

-- A program beside this one, or else in PROG_PATH, if it can be read. `snprintf` cuts at the size
-- of the buffer.
unfoldable pub find_program : (Text → Bool) → Text → Text → Text → Option Text
find_program readable dir prog_path bin =
    let beside = take (cmd_buf_size - 1) (dir ++ bin) in
    let installed = take (cmd_buf_size - 1) (prog_path ++ (codes "/" ++ bin)) in
    if readable beside then some beside else if readable installed then some installed else none

-- The loop over a list: each option and its value, each behind a space.
unfoldable pub options_text : List Param → Text
options_text [] = []
options_text (p ∷ pl) = codes " " ++ (p.key ++ (codes " " ++ (c_string p.value ++ options_text pl)))

-- How `MakeExecCommand` ends. `strcat` has no bound: a text that does not fit the buffer is
-- undefined behaviour.
pub data Built : Type 0 where
  made : Text → Built
  not_found : Built
  too_long : Text → Built

unfoldable pub make_exec_command : (Text → Bool) → Text → Text → List Param → List Param → Built
make_exec_command readable dir prog_path p_list p_list2 =
    elim (find_program readable dir prog_path (codes "tocnpwg")) [
      | none ↦ not_found
      | some topwg ↦ elim (find_program readable dir prog_path (codes "tocanonij")) [
        | none ↦
            let front =
              take (cmd_buf_size - 1) topwg ++ (options_text p_list ++ options_text p_list2) in
            if ltb (length front) cmd_buf_size then not_found else too_long front
        | some tocnij ↦
            let cmd =
              take (cmd_buf_size - 1) topwg
              ++ (options_text p_list
                  ++ (options_text p_list2 ++ (codes " | " ++ (tocnij ++ options_text p_list)))) in
            if ltb (length cmd) cmd_buf_size then made cmd else too_long cmd
      ]
    ]

-- `GetOptionBufSize`; the bytes of the options, twice, with those of the programs.
unfoldable pub options_len : List Param → ℕ
options_len [] = 0
options_len (p ∷ pl) = length p.key + 1 + length (c_string p.value) + 1 + options_len pl

unfoldable pub get_option_buf_size : Text → List Param → ℤ
get_option_buf_size prog_path [] = negsuc 0
get_option_buf_size prog_path (p ∷ pl) = pos (
    (length prog_path + 1 + 7 + 1 + 2 + (length prog_path + 1 + 9 + 1) + options_len (p ∷ pl) + 1)
    * 2)

-- The arguments of the filter that `main` looks at.
pub record Arguments : Type 0 where
  pub argc : ℕ
  pub job_id : Text
  pub options : Text

-- "job-uuid=urn:uuid:", and the UUID_LEN - 1 bytes behind it; `jobID` has 20 bytes, so a longer
-- number, and one of 20 digits, which leaves no zero, is undefined behaviour.
unfoldable pub uuid_of : Text → Text
uuid_of options = elim (strstr options (codes "job-uuid=urn:uuid:")) [
  | none ↦ []
  | some cnt ↦ take 36 (drop 18 cnt)
]

unfoldable pub with_job : Arguments → List Param → List Param
with_job a p_list =
    let uuid = uuid_of a.options in
    param_list_add
      (param_list_add p_list (codes "--jobid") (a.job_id ++ (0 ∷ [])) (length a.job_id + 1))
      (codes "--uuid") (uuid ++ (0 ∷ [])) (length uuid + 1)

-- How `main` goes on to the start of the filters: with the command, with result -1, or by
-- undefined behaviour.
pub data Prepared : Type 0 where
  command : Text → Prepared
  refused : Prepared
  ill_defined : Prepared

-- The calls that `main` makes: `cupsParseOptions` (its result), `GetPrinterSettings` and
-- `GetPrinterableAreaOptionFromPPD` (a list, or an error), `malloc` of the buffers for data and for
-- the command, and the programs.
pub record Calls : Type 0 where
  pub parse_options : Text → ℤ
  pub settings : Option (List Param)
  pub area_option : Option (List ℕ) → Option (List Param)
  pub has_data_buf : Bool
  pub has_cmd_buf : Bool
  pub readable : Text → Bool
  pub exe : Text
  pub prog_path : Text

unfoldable pub accepts : Calls → Arguments → Bool
accepts c a =
    not (ltb a.argc 6 || ltb 7 a.argc)
    && (elim (strstr a.options (codes "PageSize=Custom")) [
      | some rest ↦ false
      | none ↦ elim (c.parse_options a.options) [ pos n ↦ true | negsuc n ↦ false ]
    ]
        && c.has_data_buf)

-- `>= 0`
unfoldable pub has_size : ℤ → Bool
has_size (pos n) = true
has_size (negsuc n) = false

-- `main` before the filters are started, where no SIGTERM came.
unfoldable pub prepare : Calls → Arguments → Prepared
prepare c a = if not (accepts c a) then refused else elim c.settings [
  | none ↦ refused
  | some p_list ↦ elim (c.area_option (ref_value_from_list p_list (codes "--papersize"))) [
    | none ↦ refused
    | some p_list2 ↦
        if not (has_size (get_option_buf_size c.prog_path p_list))
        then refused
        else if leb 20 (length a.job_id)
        then ill_defined
        else if not c.has_cmd_buf
        then refused
        else elim (make_exec_command c.readable (get_exec_prog_path c.exe) c.prog_path
            (with_job a p_list) p_list2) [
              | made cmd ↦ command cmd
              | not_found ↦ refused
              | too_long cmd ↦ ill_defined
            ]
  ]
]
