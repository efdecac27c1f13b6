-- ===== src/Base/Int.antt =====
-- Signed numbers over the native ones.
use Prim.Native.Nat.{ℕ, suc, ◌+◌, ◌-◌, ◌^◌}
use mathlib.Core.Bool.{Bool, true, false}
use meshrustic.Base.Tests.{ltb, leb, if◌then◌else◌}

-- 0, 1, 2, … and -1, -2, -3, …
pub data ℤ : Type 0 where
  pos : ℕ → ℤ
  negsuc : ℕ → ℤ

infixl 20 ◌⊖◌
infixl 20 ◌-ℤ◌
infixl 20 ◌+ℤ◌
-- The difference of two numbers.
abbrev pub ◌⊖◌ : ℕ → ℕ → ℤ
m ⊖ n = if leb n m then pos (m - n) else negsuc (n - m - 1)

abbrev pub ◌-ℤ◌ : ℤ → ℤ → ℤ
pos m -ℤ pos n = m ⊖ n
pos m -ℤ negsuc n = pos (m + n + 1)
negsuc m -ℤ pos n = negsuc (m + n)
negsuc m -ℤ negsuc n = n ⊖ m

abbrev pub ltbℤ : ℤ → ℤ → Bool
ltbℤ (pos m) (pos n) = ltb m n
ltbℤ (pos m) (negsuc n) = false
ltbℤ (negsuc m) (pos n) = true
ltbℤ (negsuc m) (negsuc n) = ltb n m

-- `x.clamp(low, high)`
abbrev pub clampℤ : ℤ → ℤ → ℤ → ℤ
clampℤ x low high = if ltbℤ x low then low else if ltbℤ high x then high else x

-- `as u32` of an `i32`
abbrev pub as_u32 : ℤ → ℕ
as_u32 (pos n) = n
as_u32 (negsuc n) = 2 ^ 32 - 1 - n

abbrev pub ◌+ℤ◌ : ℤ → ℤ → ℤ
pos m +ℤ pos n = pos (m + n)
pos m +ℤ negsuc n = m ⊖ suc n
negsuc m +ℤ pos n = n ⊖ suc m
negsuc m +ℤ negsuc n = negsuc (m + n + 1)

abbrev pub opposite : ℕ → ℤ
opposite n = 0 ⊖ n

abbrev pub abs : ℤ → ℕ
abs (pos n) = n
abs (negsuc n) = n + 1

abbrev pub is_negative : ℤ → Bool
is_negative (pos n) = false
is_negative (negsuc n) = true
