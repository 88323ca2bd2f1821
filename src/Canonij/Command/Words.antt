-- ===== src/Canonij/Command/Words.antt =====
-- The words of the command line, as a split at blanks gives them.
use cnijfilter.Common.{ℕ, zero, suc, ◌<◌, ◌≡◌, Bool, none, some, List, [], ◌∷◌, ◌++◌, length}
use cnijfilter.Text.{Text, codes}
use cnijfilter.Canonij.ParamList.{Param}
use cnijfilter.Canonij.Table.{c_string, strtok}
use cnijfilter.Canonij.Command.{cmd_buf_size, find_program}

-- The words between blanks. What else the shell would read into a line (quotes, operators) is not
-- part of it.
unfoldable pub words : ℕ → Text → List Text
words zero line = []
words (suc fuel) line = elim (strtok line).0 [ none ↦ [] | some w ↦ w ∷ words fuel (strtok line).1 ]

-- Words behind a first one, each after a space.
unfoldable pub spaced : List Text → Text
spaced [] = []
spaced (w ∷ ws) = codes " " ++ (w ++ spaced ws)

-- The words of the options.
unfoldable pub option_words : List Param → List Text
option_words [] = []
option_words (p ∷ pl) = p.key ∷ (c_string p.value ∷ option_words pl)

module _ (readable : Text → Bool) (dir prog_path topwg tocnij : Text) (l1 l2 : List Param)
    (first : find_program readable dir prog_path (codes "tocnpwg") ≡ some topwg)
    (second : find_program readable dir prog_path (codes "tocanonij") ≡ some tocnij)
    (short : length topwg < cmd_buf_size) where
  -- The words behind the first program.
  abbrev pub arguments : List Text
  arguments = option_words l1 ++ (option_words l2 ++ (codes "|" ∷ (tocnij ∷ option_words l1)))
