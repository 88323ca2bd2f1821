-- ===== src/Common/Int.antt =====
-- C's signed numbers: `negsuc n` is -(n + 1).
use Prim.Native.Nat.{ℕ, suc, ◌+◌, ◌-◌, ◌*◌, ◌%◌, ◌^◌}
use mathlib.Core.Path.{◌≡◌}
use mathlib.Core.Bool.{Bool, false}
use native.Mathlib.Omega.{arith}
use cnijfilter.Common.Tests.{◌==◌, leb, if◌then◌else◌}

pub data ℤ : Type 0 where
  pos : ℕ → ℤ
  negsuc : ℕ → ℤ

abbrev pub pos_part : ℤ → ℕ
pos_part (pos n) = n
pos_part (negsuc n) = 0

abbrev pub neg_part : ℤ → ℕ
neg_part (pos n) = 0
neg_part (negsuc n) = suc n

-- a - b, as an integer.
abbrev pub sub_ℕ : ℕ → ℕ → ℤ
sub_ℕ a b = if leb b a then pos (a - b) else negsuc (b - a - 1)

-- z + n and z - n.
unfoldable pub add_int : ℤ → ℕ → ℤ
add_int z n = sub_ℕ (pos_part z + n) (neg_part z)

unfoldable pub sub_int : ℤ → ℕ → ℤ
sub_int z n = sub_ℕ (pos_part z) (neg_part z + n)

pub add_int_parts :
    (z : ℤ) (n : ℕ) → pos_part (add_int z n) + neg_part z ≡ neg_part (add_int z n) + pos_part z + n
unfolding add_int
add_int_parts z n = ground arith

pub sub_int_parts :
    (z : ℤ) (n : ℕ) → pos_part (sub_int z n) + neg_part z + n ≡ neg_part (sub_int z n) + pos_part z
unfolding sub_int
sub_int_parts z n = ground arith

-- Not both parts of an integer are there.
pub parts_apart : (z : ℤ) → pos_part z * neg_part z ≡ 0
parts_apart (pos n) = omega arith
parts_apart (negsuc n) = omega arith

-- `z == n`
unfoldable pub int_is : ℤ → ℕ → Bool
int_is (pos m) n = m == n
int_is (negsuc m) n = false

-- `n <= z * 2`, for 0 < n
unfoldable pub le_double : ℕ → ℤ → Bool
le_double n (pos m) = leb n (m * 2)
le_double n (negsuc m) = false

-- `! n`
unfoldable pub is_zero : ℤ → Bool
is_zero (pos n) = n == 0
is_zero (negsuc n) = false

-- The conversion of an `int` to `unsigned`.
unfoldable pub to_unsigned : ℤ → ℕ
to_unsigned (pos n) = n % 2 ^ 32
to_unsigned (negsuc n) = 2 ^ 32 - 1 - n % 2 ^ 32
