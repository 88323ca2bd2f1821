-- ===== src/Text.antt =====
-- C strings: the bytes before the zero at the end.
use Prim.Native.Char.{code}
use Prim.Native.String.{String}
use cnijfilter.Common.{
  Option, none, some, if◌then◌else◌, ℕ, ◌≡◌, refl, Bool, true, false, ◌&&◌, List, [], ◌∷◌, ◌==◌,
  ==_iff, arith,
}

abbrev pub Text : Type 0
Text = List ℕ

-- The bytes of an ASCII text.
abbrev pub codes : String → Text
codes String.[] = []
codes (String.◌∷◌ c s) = code c ∷ codes s

-- `!strcmp (a, b)`
unfoldable pub same_text : Text → Text → Bool
same_text [] [] = true
same_text [] (y ∷ ys) = false
same_text (x ∷ xs) [] = false
same_text (x ∷ xs) (y ∷ ys) = x == y && same_text xs ys

pub same_text_refl : (a : Text) → same_text a a ≡ true
unfolding same_text
same_text_refl [] = refl
same_text_refl (x ∷ xs) = rw ((==_iff x x).1 refl, same_text_refl xs) refl

pub same_text→eq : (a b : Text) → same_text a b ≡ true → a ≡ b
unfolding same_text
same_text→eq [] [] h = refl
same_text→eq [] (y ∷ ys) h = cc
same_text→eq (x ∷ xs) [] h = cc
same_text→eq (x ∷ xs) (y ∷ ys) h = ground (arith, same_text→eq xs ys)

-- `!strncmp (a, b, strlen (b))`
unfoldable pub has_prefix : Text → Text → Bool
has_prefix a [] = true
has_prefix [] (y ∷ ys) = false
has_prefix (x ∷ xs) (y ∷ ys) = x == y && has_prefix xs ys

-- `strstr (a, b)`: the text from the first place on where `b` stands.
unfoldable pub strstr : Text → Text → Option Text
strstr [] b = if has_prefix [] b then some [] else none
strstr (x ∷ a) b = let more = strstr a b in if has_prefix (x ∷ a) b then some (x ∷ a) else more
