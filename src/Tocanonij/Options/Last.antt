-- ===== src/Tocanonij/Options/Last.antt =====
-- Each setting is that of the last option of its kind.
use cnijfilter.Common.{Option, none, some, List, [], ◌∷◌, ℤ}
use cnijfilter.Text.{Text}
use cnijfilter.Tocanonij.Names.{convert_str_to_id}
use cnijfilter.Tocanonij.Names.Tables.{mediatype_tbl, papersize_tbl, colormode_tbl, duplexprint_tbl}
use cnijfilter.Tocanonij.Options.{
  Settings, Opt, opt_papersize, opt_mediatype, opt_colormode, opt_duplexprint, borderless,
}

abbrev papersize_of : Opt → Option Text
papersize_of (opt_papersize t) = some t
papersize_of o = none

abbrev mediatype_of : Opt → Option Text
mediatype_of (opt_mediatype t) = some t
mediatype_of o = none

abbrev colormode_of : Opt → Option Text
colormode_of (opt_colormode t) = some t
colormode_of o = none

abbrev duplexprint_of : Opt → Option Text
duplexprint_of (opt_duplexprint t) = some t
duplexprint_of o = none

abbrev or_else {ℓ} : {A : Type ℓ} → Option A → Option A → Option A
or_else none b = b
or_else (some a) b = some a

-- The argument of the last option of a kind.
last_arg : (Opt → Option Text) → List Opt → Option Text
last_arg kind [] = none
last_arg kind (opt ∷ opts) = or_else (last_arg kind opts) (kind opt)

abbrev number : (Text → ℤ) → Option Text → ℤ → ℤ
number convert none unset = unset
number convert (some t) unset = convert t

-- The settings from the last arguments.
pub settings_from : List Opt → Settings → Settings
settings_from opts s = record {
  papersize =
      number (λ t. convert_str_to_id t papersize_tbl) (last_arg papersize_of opts) s.papersize;
  mediatype =
      number (λ t. convert_str_to_id t mediatype_tbl) (last_arg mediatype_of opts) s.mediatype;
  borderlessprint = number borderless (last_arg papersize_of opts) s.borderlessprint;
  colormode =
      number (λ t. convert_str_to_id t colormode_tbl) (last_arg colormode_of opts) s.colormode;
  duplexprint =
      number (λ t. convert_str_to_id t duplexprint_tbl) (last_arg duplexprint_of opts)
        s.duplexprint;
}
