-- ===== src/Base/Mod.antt =====
-- Indices that go round a ring of `n` places.
use Prim.Native.Nat.{ℕ, ◌+◌, ◌-◌, ◌%◌, ◌<◌}
use mathlib.Core.Path.{◌≡◌, ◌∙◌, ap}
use native.Mathlib.Nat.{mod-add-mod, mod-eq_of_lt, mod-eq-sub-mod, mod-lt}
use native.Mathlib.Decide.{dec_lt}
use native.Mathlib.Omega.{arith}

pub mod_wrap : (a n : ℕ) → (a + n) % n ≡ a % n
mod_wrap a n = mod-eq-sub-mod {n = a + n} {m = n} (omega arith) ∙ ap (λ k. k % n) (omega arith)

pub mod_shift : (a b n : ℕ) → (a % n + b) % n ≡ (a + b) % n
mod_shift a b n = mod-add-mod a n b

pub mod_in : (a n : ℕ) → 0 < n → a % n < n
mod_in a n h = mod-lt a h

-- The next index.
pub mod_next : (h l n : ℕ) → ((h + l) % n + 1) % n ≡ (h + (l + 1)) % n
mod_next h l n = mod_shift (h + l) 1 n ∙ ap (λ k. k % n) (omega arith)

-- From the next index, an offset reaches what one more reached before.
pub mod_ahead : (h j n : ℕ) → ((h + 1) % n + j) % n ≡ (h + (j + 1)) % n
mod_ahead h j n = mod_shift (h + 1) j n ∙ ap (λ k. k % n) (omega arith)

-- From the index before, one more offset reaches what the offset reached.
pub mod_behind : (h j n : ℕ) → 0 < n → ((h + n - 1) % n + (j + 1)) % n ≡ (h + j) % n
mod_behind h j n lt =
    mod_shift (h + n - 1) (j + 1) n ∙ ap (λ k. k % n) (omega arith) ∙ mod_wrap (h + j) n

-- Different offsets below `n` reach different indices.
pub offset-injective : (h i j n : ℕ) → h < n → i < n → j < n → (h + i) % n ≡ (h + j) % n → i ≡ j
offset-injective h i j n hh hi hj e = elim (dec_lt (h + i) n) [
  | yes p ↦ elim (dec_lt (h + j) n) [
    | yes q ↦ omega (arith, mod-eq_of_lt p, mod-eq_of_lt q)
    | no q ↦ omega (arith, mod-eq_of_lt p, low j q hj)
  ]
  | no p ↦ elim (dec_lt (h + j) n) [
    | yes q ↦ omega (arith, low i p hi, mod-eq_of_lt q)
    | no q ↦ omega (arith, low i p hi, low j q hj)
  ]
]
  where
    low : (k : ℕ) → ¬ (h + k < n) → k < n → (h + k) % n ≡ h + k - n
    low k p lt =
        mod-eq-sub-mod {n = h + k} {m = n} (omega arith)
        ∙ mod-eq_of_lt {n = h + k - n} {m = n} (omega arith)
