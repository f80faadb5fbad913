-- ===== src/Base/Int.antt =====
-- Signed integers over the native numbers: C's `int` where the code uses negative values as marks
-- or tests the sign. `negsuc n` is -(n + 1).
use Prim.Native.Nat.{ℕ, ◌-◌, ◌%◌, ◌^◌}
use mathlib.Core.Path.{◌≡◌}
use mathlib.Core.Logic.{◌↔◌}
use native.Mathlib.Omega.{arith}
use mathlib.Core.Bool.{Bool, true, false}
use xcm.Base.Tests.{◌==◌, ltb, if◌then◌else◌}

pub data ℤ : Type 0 where
  pos : ℕ → ℤ
  negsuc : ℕ → ℤ

abbrev pub minus_one : ℤ
minus_one = negsuc 0

-- i >= 0
abbrev pub is_nonneg : ℤ → Bool
is_nonneg (pos n) = true
is_nonneg (negsuc n) = false

-- i, and 0 where it is negative; i == j
abbrev pub pos_part : ℤ → ℕ
pos_part (pos n) = n
pos_part (negsuc n) = 0

abbrev pub eq_ℤ : ℤ → ℤ → Bool
eq_ℤ (pos a) (pos b) = a == b
eq_ℤ (pos a) (negsuc b) = false
eq_ℤ (negsuc a) (pos b) = false
eq_ℤ (negsuc a) (negsuc b) = a == b

pub eq_ℤ_iff : (i j : ℤ) → (eq_ℤ i j ≡ true) ↔ (i ≡ j)
eq_ℤ_iff i j = ground arith

-- The conversion of an integer of 64 bits to an int of 32 bits, of a number given modulo 2^32.
abbrev residue_int : ℕ → ℤ
residue_int m = if ltb m (2 ^ 31) then pos m else negsuc (2 ^ 32 - m - 1)

-- The conversion of an integer of 64 bits to an int of 32 bits.
abbrev pub to_int : ℤ → ℤ
to_int (pos n) = residue_int (n % 2 ^ 32)
to_int (negsuc n) = residue_int (2 ^ 32 - 1 - n % 2 ^ 32)
