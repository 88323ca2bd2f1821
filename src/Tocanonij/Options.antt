-- ===== src/Tocanonij/Options.antt =====
-- tocanonij/src/main.c, `InitpSettings`, `CheckSettings` and the loop over the options in `main`.
pub mod Last
use cnijfilter.Common.{
  ℕ, zero, suc, ◌+◌, ◌-◌, ◌||◌, Bool, true, false, Option, none, some, List, [], ◌∷◌, ◌++◌, take,
  drop, length, if◌then◌else◌, ◌==◌, ℤ, pos, negsuc, int_is,
}
use cnijfilter.Text.{Text, codes}
use cnijfilter.Tocanonij.Names.{convert_str_to_id, is_borderless}
use cnijfilter.Tocanonij.Names.Tables.{mediatype_tbl, papersize_tbl, colormode_tbl, duplexprint_tbl}

-- `CNCL_P_SETTINGS`, without its version
pub record Settings : Type 0 where
  pub papersize : ℤ
  pub mediatype : ℤ
  pub borderlessprint : ℤ
  pub colormode : ℤ
  pub duplexprint : ℤ

-- `InitpSettings`
unfoldable pub init_settings : Settings
init_settings = record {
  papersize = negsuc 0;
  mediatype = negsuc 0;
  borderlessprint = negsuc 0;
  colormode = negsuc 0;
  duplexprint = negsuc 0;
}

-- `== -1`
unfoldable pub is_unset : ℤ → Bool
is_unset (pos n) = false
is_unset (negsuc n) = n == 0

-- `CheckSettings`
unfoldable pub check_settings : Settings → ℤ
check_settings s =
    if is_unset s.papersize
      || is_unset s.mediatype
      || is_unset s.borderlessprint
      || is_unset s.colormode
      || is_unset s.duplexprint
    then negsuc 0
    else pos 0

-- What `getopt_long` gives, with `optarg`.
pub data Opt : Type 0 where
  opt_version : Text → Opt
  opt_filterpath : Text → Opt
  opt_papersize : Text → Opt
  opt_mediatype : Text → Opt
  opt_colormode : Text → Opt
  opt_duplexprint : Text → Opt
  opt_jobid : Text → Opt
  opt_uuid : Text → Opt
  opt_invalid : Opt

-- The variables that the loop sets. `uuid` is what stands in the buffer, which starts out with
-- zeros, and `lib_path` what `libPathBuf` holds, if it was set.
pub record Parsed : Type 0 where
  pub settings : Settings
  pub lib_path : Option Text
  pub uuid : Text

-- `strncpy (uuid, optarg, strlen (optarg))`: no zero is written. The buffer has 37 bytes; for a
-- longer argument the code writes behind it.
unfoldable pub copy_uuid : Text → Text → Text
copy_uuid uuid optarg = optarg ++ drop (length optarg) uuid

-- CNCL_PSET_BORDERLESS_ON and CNCL_PSET_BORDERLESS_OFF
unfoldable pub borderless : Text → ℤ
borderless optarg = if is_borderless optarg then pos 2 else pos 1

unfoldable pub apply_option : Opt → Parsed → Parsed
apply_option (opt_version optarg) p = p
apply_option (opt_filterpath optarg) p = record p {
  lib_path = some (take 511 (optarg ++ codes "libcnbpcnclapicom2.so"));
}
apply_option (opt_papersize optarg) p = record p {
  settings = record p.settings {
    papersize = convert_str_to_id optarg papersize_tbl;
    borderlessprint = borderless optarg;
  };
}
apply_option (opt_mediatype optarg) p = record p {
  settings = record p.settings { mediatype = convert_str_to_id optarg mediatype_tbl };
}
apply_option (opt_colormode optarg) p = record p {
  settings = record p.settings { colormode = convert_str_to_id optarg colormode_tbl };
}
apply_option (opt_duplexprint optarg) p = record p {
  settings = record p.settings { duplexprint = convert_str_to_id optarg duplexprint_tbl };
}
apply_option (opt_jobid optarg) p =
    if length p.uuid == 0 then record p { uuid = copy_uuid p.uuid optarg } else p
apply_option (opt_uuid optarg) p = record p { uuid = copy_uuid p.uuid optarg }
apply_option opt_invalid p = p

-- `while ((opt = getopt_long (...)) != -1)`
unfoldable pub apply_options : List Opt → Parsed → Parsed
apply_options [] p = p
apply_options (opt ∷ opts) p = apply_options opts (apply_option opt p)

unfoldable pub parse_options : List Opt → Parsed
parse_options opts =
    apply_options opts (record { settings = init_settings; lib_path = none; uuid = [] })
