-- ===== src/Base/Float.antt =====
-- `f32`. There are no floats here: the type, the operations that the code uses and the numbers that
-- it writes are a parameter, with the one law of IEEE 754 that most theorems lean on, that `<` carries
-- over to a larger whole number. A NaN is a value below no number.
pub mod Percent
pub mod Thousandths
use meshrustic.Base.Int.{ℤ}
use Prim.Native.Nat.{ℕ, ◌≤◌}
use mathlib.Core.Path.{◌≡◌}
use mathlib.Core.Bool.{Bool, true, false}

pub record Float32 : Type 1 where
  pub F32 : Type 0
  pub lt : F32 → F32 → Bool
  pub le : F32 → F32 → Bool
  pub is_finite : F32 → Bool
  pub add : F32 → F32 → F32
  pub sub : F32 → F32 → F32
  pub abs : F32 → F32
  pub mul : F32 → F32 → F32
  pub div : F32 → F32 → F32
  pub min_of : F32 → F32 → F32
  -- `x.clamp(low, high)`
  pub clamp : F32 → F32 → F32 → F32
  -- The numbers 0, 1, 2, …; one half; the number nearest to a fraction; the largest and the least
  -- finite number.
  pub whole : ℕ → F32
  pub half : F32
  pub ratio : ℕ → ℕ → F32
  pub largest : F32
  pub least : F32
  pub max_of : F32 → F32 → F32
  -- `as u32` and `as i8`, which saturate.
  pub to_u32 : F32 → ℕ
  pub to_i8 : F32 → ℤ
  pub lt-whole : (x : F32) (a b : ℕ) → a ≤ b → lt x (whole a) ≡ true → lt x (whole b) ≡ true

-- What the gap of 1 in a comparison does by IEEE 754, also where a sum is rounded: `a + 1 < b` goes on
-- over a further gap, for `b` is no more than `b + 1`, and no number stands before itself by a gap. A
-- NaN is neither less nor more than any number, and an infinity plus 1 is itself.
pub record IsGapped (fl : Float32) : Type 0 where
  pub gap_trans :
      (a b c : fl.F32)
      → fl.lt (fl.add a (fl.whole 1)) b ≡ true
      → fl.lt (fl.add b (fl.whole 1)) c ≡ true
      → fl.lt (fl.add a (fl.whole 1)) c ≡ true
  pub gap_irrefl : (a : fl.F32) → fl.lt (fl.add a (fl.whole 1)) a ≡ false
