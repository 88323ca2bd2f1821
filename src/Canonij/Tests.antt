-- ===== src/Canonij/Tests.antt =====
-- Concrete runs of the parts of rastertocanonij/src, and the theorems at concrete inputs.
use cnijfilter.Common.{
  ◌≡◌, refl, ◌+◌, Bool, true, false, ◌&&◌, ◌||◌, not, if◌then◌else◌, Option, some, List, [], ◌∷◌,
  ◌++◌, ◌-◌, ℤ, pos, negsuc, take, arith,
}
use cnijfilter.Text.{Text, codes, same_text}
use cnijfilter.Canonij.ParamList.{Param, param_list_add_multi, ref_value_from_list}
use cnijfilter.Canonij.ParamList.Laws.{IsUnique, has_value, add_multi-IsUnique, ref_value-add_multi}
use cnijfilter.Canonij.PrintArea.Look.{Written, AreaPpdLine, area_other}
use cnijfilter.Canonij.Command.{prog_dir, get_exec_prog_path}
use cnijfilter.Canonij.Command.Words.{option_words}
use cnijfilter.Canonij.Forward.{forward_all}
use cnijfilter.Canonij.Forward.Whole.{Kept, forward_all-Kept}
use cnijfilter.Pwg.Device.{Device, taken, interrupted}
use cnijfilter.Posix.{Source, offers, read_interrupted}
use cnijfilter.Canonij.Table.{PpdToOptKey, alloc_opt_key_table}
use cnijfilter.Canonij.Table.Lines.{IsWithin, alloc_opt_key_table-IsWithin}
use cnijfilter.Canonij.Table.Entries.{PpdLine, entry, other}

abbrev duplex : Param
duplex = record { key = b'-' ∷ b'd' ∷ []; value = b'1' ∷ 0 ∷ []; value_size = 2 }

duplex-IsUnique : IsUnique (duplex ∷ [])
unfolding IsUnique ref_value_from_list
duplex-IsUnique = (refl, tt)

add_multi-IsUnique_example :
    IsUnique (param_list_add_multi (duplex ∷ []) (b'-' ∷ b'd' ∷ []) (b'2' ∷ 0 ∷ []) 2 true)
add_multi-IsUnique_example =
    add_multi-IsUnique (duplex ∷ []) (b'-' ∷ b'd' ∷ []) (b'2' ∷ 0 ∷ []) 2 true duplex-IsUnique

ref_value-add_multi_example :
    ref_value_from_list
      (param_list_add_multi (duplex ∷ []) (b'-' ∷ b'd' ∷ []) (b'2' ∷ 0 ∷ []) 2 false)
      (b'-' ∷ b'd' ∷ [])
    ≡ (if same_text (b'-' ∷ b'd' ∷ []) (b'-' ∷ b'd' ∷ [])
          && (false || not (has_value (ref_value_from_list (duplex ∷ []) (b'-' ∷ b'd' ∷ []))))
        then some (take 2 (b'2' ∷ 0 ∷ []))
        else ref_value_from_list (duplex ∷ []) (b'-' ∷ b'd' ∷ []))
ref_value-add_multi_example =
    ref_value-add_multi (duplex ∷ []) (b'-' ∷ b'd' ∷ []) (b'-' ∷ b'd' ∷ []) (b'2' ∷ 0 ∷ []) 2 false

-- A line that is no comment, and an entry.
abbrev ppd_lines : List PpdLine
ppd_lines =
    other (b'*' ∷ b'P' ∷ b'x' ∷ [])
    ∷ entry (record { ppd_key = b'D' ∷ []; opt_key = b'-' ∷ b'd' ∷ [] })
    ∷ []

alloc_opt_key_table-IsWithin_example :
    IsWithin (alloc_opt_key_table (λ n. true) (some (b'*' ∷ b'%' ∷ 10 ∷ [])))
alloc_opt_key_table-IsWithin_example =
    alloc_opt_key_table-IsWithin (λ n. true) (b'*' ∷ b'%' ∷ 10 ∷ [])

abbrev sizes : List PpdToOptKey
sizes = record { ppd_key = b'P' ∷ []; opt_key = b'-' ∷ b'p' ∷ [] } ∷ []

abbrev a4 : Text → Option Text
a4 key = some (b'A' ∷ b'4' ∷ [])

-- A line that is no comment, before the entry.
abbrev area_lines : List AreaPpdLine
area_lines = area_other (b'*' ∷ b'P' ∷ []) ∷ []

abbrev a4_area : Written
a4_area = record { key = b'A' ∷ b'4' ∷ []; width = b'8' ∷ []; height = b'9' ∷ [] }

-- `atol` and `%ld` for numbers of one digit.
abbrev digit : Text → ℤ
digit [] = pos 0
digit (c ∷ s) = pos (c - 48)

abbrev print_digit : ℤ → Text
print_digit (pos n) = (n + 48) ∷ []
print_digit (negsuc n) = b'-' ∷ []

abbrev reads_all : Text → Bool
reads_all path = true

abbrev bin_dir : Text
bin_dir = codes "/usr/bin/"

path_of_program : get_exec_prog_path (codes "/usr/bin/filter") ≡ bin_dir
unfolding get_exec_prog_path prog_dir
path_of_program = refl

abbrev args : List Text
args =
    option_words (duplex ∷ [])
    ++ (option_words [] ++ (codes "|" ∷ (codes "/usr/bin/tocanonij" ∷ option_words (duplex ∷ []))))

-- Two reads, of which a signal interrupts the first, and a pipe that takes a byte at first.
abbrev raster_in : Source
raster_in = record { bytes = 1 ∷ (2 ∷ (3 ∷ [])); answers = read_interrupted ∷ (offers 2 ∷ []) }

abbrev pipe : Device
pipe = record { bytes = []; answers = taken 1 ∷ (interrupted ∷ []); grant = λ n. true }

forward_all-Kept_example :
    Kept (some 3) pipe (1 ∷ (2 ∷ (3 ∷ []))) (forward_all (some 3) raster_in pipe)
forward_all-Kept_example =
    forward_all-Kept (some 3) raster_in pipe (tt, (omega arith, tt)) (tt, (tt, tt))
