-- ===== src/Base/Search.antt =====
-- What `find` and `position` give on an array after a write.
use Prim.Native.Nat.{ℕ, zero, suc, ◌<◌}
use mathlib.Core.Path.{◌≡◌, refl}
use mathlib.Core.Logic.{inl, inr}
use mathlib.Core.Bool.{Bool, true, false}
use mathlib.Core.List.{List, [], ◌∷◌}
use mathlib.Core.Option.{none, some}
use native.Mathlib.Omega.{arith}
use meshrustic.Base.Tests.{Option-cases}
use meshrustic.Base.Lists.{length, get_or, set, find?, position}

module _ {ℓ} {A : Type ℓ} (p : A → Bool) where
  pub find?-position :
      (xs : List A) (i : ℕ) (d : A) → position p xs ≡ some i → find? p xs ≡ some (get_or xs i d)
  find?-position [] i d e = absurd (cc)
  find?-position (x ∷ xs) i d e = elim (Option-cases (position p xs)) [
    | inl miss ↦ ground arith
    | inr (j, hit) ↦ ground (arith, find?-position xs j d hit)
  ]

  pub find?-none : (xs : List A) → position p xs ≡ none → find? p xs ≡ none
  find?-none [] e = refl
  find?-none (x ∷ xs) e = ground (arith, find?-none xs)

  -- A write over the first match, that matches itself.
  pub find?-set_hit :
      (xs : List A) (i : ℕ) (v : A)
      → position p xs ≡ some i
      → p v ≡ true
      → find? p (set xs i v) ≡ some v
  find?-set_hit [] i v e h = absurd (cc)
  find?-set_hit (x ∷ xs) i v e h = elim (Option-cases (position p xs)) [
    | inl miss ↦ ground arith
    | inr (j, hit) ↦ ground (arith, find?-set_hit xs j v hit)
  ]

  -- A write of a match where there was none.
  pub find?-set_miss :
      (xs : List A) (i : ℕ) (v : A)
      → find? p xs ≡ none
      → p v ≡ true
      → i < length xs
      → find? p (set xs i v) ≡ some v
  find?-set_miss [] i v e h lt = absurd (omega arith)
  find?-set_miss (x ∷ xs) zero v e h lt = ground arith
  find?-set_miss (x ∷ xs) (suc i) v e h lt = ground (arith, find?-set_miss xs i v)

  -- A write between elements that do not match.
  pub find?-set_other :
      (xs : List A) (i : ℕ) (v d : A)
      → p v ≡ false
      → p (get_or xs i d) ≡ false
      → find? p (set xs i v) ≡ find? p xs
  find?-set_other [] i v d h k = refl
  find?-set_other (x ∷ xs) zero v d h k = ground arith
  find?-set_other (x ∷ xs) (suc i) v d h k = ground (arith, find?-set_other xs i v d)

  -- A write of an element that does not match finds nothing new.
  pub find?-set_unmatched :
      (xs : List A) (i : ℕ) (v : A) → p v ≡ false → find? p xs ≡ none → find? p (set xs i v) ≡ none
  find?-set_unmatched [] i v h e = refl
  find?-set_unmatched (x ∷ xs) zero v h e = ground arith
  find?-set_unmatched (x ∷ xs) (suc i) v h e = ground (arith, find?-set_unmatched xs i v)
