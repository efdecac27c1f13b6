-- ===== src/Base/Words.antt =====
-- Unsigned machine words as native numbers: each operation writes its wrap or saturation out.
use Prim.Native.Nat.{ℕ, ◌+◌, ◌-◌, ◌*◌, ◌%◌, ◌^◌, min}

abbrev pub u8_max : ℕ
u8_max = 255

abbrev pub u32_mod : ℕ
u32_mod = 2 ^ 32

-- `u32::wrapping_add`
abbrev pub wrapping_add : ℕ → ℕ → ℕ
wrapping_add a b = (a + b) % 2 ^ 32

-- `u32::wrapping_sub`. `-` on ℕ stops at 0, so the modulus is added first.
abbrev pub wrapping_sub : ℕ → ℕ → ℕ
wrapping_sub a b = (a + 2 ^ 32 - b) % 2 ^ 32

-- `u32::saturating_add`
abbrev pub saturating_add : ℕ → ℕ → ℕ
saturating_add a b = min (a + b) (2 ^ 32 - 1)

-- `u32::saturating_mul`
abbrev pub saturating_mul : ℕ → ℕ → ℕ
saturating_mul a b = min (a * b) (2 ^ 32 - 1)

-- `u8::saturating_add`
abbrev pub saturating_add8 : ℕ → ℕ → ℕ
saturating_add8 a b = min (a + b) 255

-- `u16::saturating_add`
abbrev pub saturating_add16 : ℕ → ℕ → ℕ
saturating_add16 a b = min (a + b) 65_535
