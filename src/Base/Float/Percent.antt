-- ===== src/Base/Float/Percent.antt =====
-- Whole percentages, rounded down, in the place of the floats, for concrete runs.
use meshrustic.Base.Tests.{ltb, leb}
use Prim.Native.Nat.{ℕ, ◌+◌, ◌-◌, ◌*◌, ◌/◌, min, max, ◌≤◌}
use mathlib.Core.Path.{◌≡◌}
use mathlib.Core.Bool.{true}
use native.Mathlib.Omega.{arith}
use meshrustic.Base.Int.{pos}
use meshrustic.Base.Float.{Float32, IsGapped}

pub ltb_mono : (x a b : ℕ) → a ≤ b → ltb x a ≡ true → ltb x b ≡ true
ltb_mono x a b le h = ground arith

abbrev pub percent : Float32
percent = record {
  F32 = ℕ;
  lt = ltb;
  le = leb;
  is_finite = λ _. true;
  add = λ a b. a + b;
  sub = λ a b. a - b;
  abs = λ a. a;
  mul = λ a b. a * b;
  div = λ a b. a / b;
  min_of = λ a b. min a b;
  clamp = λ a low high. min (max a low) high;
  whole = λ n. n;
  half = 0;
  ratio = λ n d. n / d;
  largest = 1000;
  least = 0;
  max_of = λ a b. max a b;
  to_u32 = λ n. n;
  to_i8 = λ n. pos (min n 127);
  lt-whole = ltb_mono;
}

pub percent-IsGapped : IsGapped percent
percent-IsGapped = record { gap_trans = λ a b c h g. ground arith; gap_irrefl = λ a. ground arith }
