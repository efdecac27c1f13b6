-- ===== src/Base/Float/Thousandths.antt =====
-- Whole numbers of thousandths, rounded to 0, in the place of the floats, for concrete runs with fractions
-- and negative numbers.
use Prim.Native.Nat.{ℕ, ◌*◌, ◌/◌, ◌≤◌}
use mathlib.Core.Path.{◌≡◌}
use mathlib.Core.Bool.{true, not}
use native.Mathlib.Omega.{arith}
use meshrustic.Base.Tests.{if◌then◌else◌}
use meshrustic.Base.Int.{ℤ, pos, negsuc, ◌+ℤ◌, ◌-ℤ◌, ltbℤ, clampℤ, opposite, abs, is_negative}
use meshrustic.Base.Float.{Float32}

-- A number of the size, with the sign of a product.
abbrev pub signed : ℤ → ℤ → ℕ → ℤ
signed (pos _) (pos _) n = pos n
signed (pos _) (negsuc _) n = opposite n
signed (negsuc _) (pos _) n = opposite n
signed (negsuc _) (negsuc _) n = pos n

abbrev pub at_most_byte : ℤ → ℤ
at_most_byte x = clampℤ x (negsuc 127) (pos 127)

abbrev pub whole_part : ℤ → ℤ
whole_part x = if is_negative x then opposite (abs x / 1000) else pos (abs x / 1000)

pub ltbℤ-whole :
    (x : ℤ) (a b : ℕ) → a ≤ b → ltbℤ x (pos (a * 1000)) ≡ true → ltbℤ x (pos (b * 1000)) ≡ true
ltbℤ-whole (pos n) a b h e = ground arith
ltbℤ-whole (negsuc n) a b h e = e

abbrev pub thousandths : Float32
thousandths = record {
  F32 = ℤ;
  lt = ltbℤ;
  le = λ a b. not (ltbℤ b a);
  is_finite = λ _. true;
  add = λ a b. a +ℤ b;
  sub = λ a b. a -ℤ b;
  abs = λ a. pos (abs a);
  mul = λ a b. signed a b (abs a * abs b / 1000);
  div = λ a b. signed a b (abs a * 1000 / abs b);
  min_of = λ a b. if ltbℤ a b then a else b;
  max_of = λ a b. if ltbℤ a b then b else a;
  clamp = clampℤ;
  whole = λ n. pos (n * 1000);
  half = pos 500;
  ratio = λ n d. pos (n * 1000 / d);
  largest = pos 1_000_000_000;
  least = negsuc 999_999_999;
  to_u32 = λ a. if is_negative a then 0 else abs a / 1000;
  to_i8 = λ a. at_most_byte (whole_part a);
  lt-whole = ltbℤ-whole;
}
