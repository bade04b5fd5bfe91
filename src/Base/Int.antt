-- ===== src/Base/Int.antt =====
-- The `int` results of the code: a count, an index, or a negative error code.
use Prim.Native.Nat.{ℕ, zero, suc, ◌+◌}
use mathlib.Core.Bool.{Bool, true, false}
use esp32_template.Base.Tests.{ltb}

-- `negsuc n` is -(n + 1).
pub data ℤ : Type 0 where
  pos : ℕ → ℤ
  negsuc : ℕ → ℤ

-- `-n`
abbrev pub minus : ℕ → ℤ
minus zero = pos 0
minus (suc n) = negsuc n

-- `res - n`
abbrev pub sub_int : ℤ → ℕ → ℤ
sub_int (pos a) n = if_below a n
  where
    if_below : ℕ → ℕ → ℤ
    if_below x zero = pos x
    if_below zero (suc y) = negsuc y
    if_below (suc x) (suc y) = if_below x y
sub_int (negsuc a) n = negsuc (a + n)

abbrev pub is_negative : ℤ → Bool
is_negative (pos n) = false
is_negative (negsuc n) = true

-- `result > 0`
abbrev pub is_positive : ℤ → Bool
is_positive (pos n) = ltb 0 n
is_positive (negsuc n) = false
