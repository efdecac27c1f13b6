-- ===== src/Base/Lists.antt =====
-- Fixed arrays as lists with native indices, and the searches that `Iterator` offers over them.
use Prim.Native.Nat.{ℕ, zero, suc, ◌+◌, ◌≤◌, ◌<◌}
use mathlib.Core.Path.{◌≡◌, refl, ap}
use mathlib.Core.Logic.{◌≢◌, inl, inr}
use mathlib.Core.Bool.{Bool, true, false, ◌||◌}
use mathlib.Core.List.{List, [], ◌∷◌, ◌++◌}
use mathlib.Core.Option.{Option, none, some}
use native.Mathlib.Omega.{arith}
use meshrustic.Base.Tests.{if◌then◌else◌, Bool-cases, Option-cases, is_some}

module _ {ℓ} {A : Type ℓ} where
  abbrev pub length : List A → ℕ
  length [] = 0
  length (x ∷ xs) = suc (length xs)

  abbrev pub get_elem? : List A → ℕ → Option A
  get_elem? [] i = none
  get_elem? (x ∷ xs) zero = some x
  get_elem? (x ∷ xs) (suc i) = get_elem? xs i

  abbrev pub get_or : List A → ℕ → A → A
  get_or [] i d = d
  get_or (x ∷ xs) zero d = x
  get_or (x ∷ xs) (suc i) d = get_or xs i d

  -- A write out of bounds changes nothing.
  abbrev pub set : List A → ℕ → A → List A
  set [] i v = []
  set (x ∷ xs) zero v = v ∷ xs
  set (x ∷ xs) (suc i) v = x ∷ set xs i v

  abbrev pub replicate : ℕ → A → List A
  replicate zero a = []
  replicate (suc n) a = a ∷ replicate n a

  abbrev pub drop : ℕ → List A → List A
  drop zero xs = xs
  drop (suc n) [] = []
  drop (suc n) (x ∷ xs) = drop n xs

  abbrev pub take : ℕ → List A → List A
  take zero xs = []
  take (suc n) [] = []
  take (suc n) (x ∷ xs) = x ∷ take n xs

  -- `iter().find(p)`
  abbrev pub find? : (A → Bool) → List A → Option A
  find? p [] = none
  find? p (x ∷ xs) = if p x then some x else find? p xs

  -- `iter().position(p)`
  abbrev pub position : (A → Bool) → List A → Option ℕ
  position p [] = none
  position p (x ∷ xs) =
      if p x then some 0 else elim (position p xs) [ none ↦ none | some i ↦ some (i + 1) ]

  -- `iter().any(p)`
  abbrev pub any : (A → Bool) → List A → Bool
  any p [] = false
  any p (x ∷ xs) = p x || any p xs

  -- `iter_mut().find(p)` followed by an update of what it found.
  abbrev pub update_first : (A → Bool) → (A → A) → List A → List A
  update_first p f [] = []
  update_first p f (x ∷ xs) = if p x then f x ∷ xs else x ∷ update_first p f xs

  -- `iter().filter(p).count()`
  abbrev pub count_if : (A → Bool) → List A → ℕ
  count_if p [] = 0
  count_if p (x ∷ xs) = (if p x then 1 else 0) + count_if p xs

module _ {ℓ} {A : Type ℓ} where
  pub length-append : (xs ys : List A) → length (xs ++ ys) ≡ length xs + length ys
  length-append [] ys = omega arith
  length-append (x ∷ xs) ys = omega (arith, length-append xs ys)

  pub length-set : (xs : List A) (i : ℕ) (v : A) → length (set xs i v) ≡ length xs
  length-set [] i v = refl
  length-set (x ∷ xs) zero v = refl
  length-set (x ∷ xs) (suc i) v = ap suc (length-set xs i v)

  pub length-replicate : (n : ℕ) (a : A) → length (replicate n a) ≡ n
  length-replicate zero a = refl
  length-replicate (suc n) a = ap suc (length-replicate n a)

  pub take-append_length : (xs ys : List A) → take (length xs) (xs ++ ys) ≡ xs
  take-append_length [] ys = refl
  take-append_length (x ∷ xs) ys = ap (◌∷◌ x) (take-append_length xs ys)

  pub length-update_first :
      (p : A → Bool) (f : A → A) (xs : List A) → length (update_first p f xs) ≡ length xs
  length-update_first p f [] = refl
  length-update_first p f (x ∷ xs) = ground (arith, length-update_first p f xs)

  pub get_elem?-eq-get_or :
      (xs : List A) (i : ℕ) (d : A) → i < length xs → get_elem? xs i ≡ some (get_or xs i d)
  get_elem?-eq-get_or [] i d h = absurd (omega arith)
  get_elem?-eq-get_or (x ∷ xs) zero d h = refl
  get_elem?-eq-get_or (x ∷ xs) (suc i) d h = get_elem?-eq-get_or xs i d (omega arith)

  pub get_or-set_self :
      (xs : List A) (i : ℕ) (v d : A) → i < length xs → get_or (set xs i v) i d ≡ v
  get_or-set_self [] i v d h = absurd (omega arith)
  get_or-set_self (x ∷ xs) zero v d h = refl
  get_or-set_self (x ∷ xs) (suc i) v d h = get_or-set_self xs i v d (omega arith)

  pub get_or-set_ne :
      (xs : List A) (i j : ℕ) (v d : A) → i ≢ j → get_or (set xs i v) j d ≡ get_or xs j d
  get_or-set_ne [] i j v d h = refl
  get_or-set_ne (x ∷ xs) zero zero v d h = absurd (h refl)
  get_or-set_ne (x ∷ xs) zero (suc j) v d h = refl
  get_or-set_ne (x ∷ xs) (suc i) zero v d h = refl
  get_or-set_ne (x ∷ xs) (suc i) (suc j) v d h = get_or-set_ne xs i j v d (λ e. h (ap suc e))

  pub get_or-set_default : (xs : List A) (i : ℕ) (d : A) → get_or (set xs i d) i d ≡ d
  get_or-set_default [] i d = refl
  get_or-set_default (x ∷ xs) zero d = refl
  get_or-set_default (x ∷ xs) (suc i) d = get_or-set_default xs i d

  -- What `position` returns is an index in range at which the test holds.
  pub position_sound :
      (p : A → Bool) (xs : List A) (d : A) {i : ℕ}
      → position p xs ≡ some i
      → (i < length xs) × (p (get_or xs i d) ≡ true)
  position_sound p [] d e = absurd (cc)
  position_sound p (x ∷ xs) d e = elim (Option-cases (position p xs)) [
    | inl miss ↦ ground arith
    | inr (j, hit) ↦ ground (arith, position_sound p xs d hit)
  ]

  -- `position` misses exactly when `any` does.
  pub position-none : (p : A → Bool) (xs : List A) → position p xs ≡ none → any p xs ≡ false
  position-none p [] e = refl
  position-none p (x ∷ xs) e = ground (arith, position-none p xs)

  -- An index at which the test holds is one that `position` finds, or one behind it.
  pub position-le :
      (p : A → Bool) (xs : List A) (d : A) (j : ℕ)
      → j < length xs
      → p (get_or xs j d) ≡ true
      → (i : ℕ) × (position p xs ≡ some i) × (i ≤ j)
  position-le p [] d j lt h = absurd (omega arith)
  position-le p (x ∷ xs) d zero lt h = (0, ground arith, omega arith)
  position-le p (x ∷ xs) d (suc j) lt h =
      let (i, found, le) = position-le p xs d j (omega arith) h in
      elim (Bool-cases (p x)) [
        | inl here ↦ (0, ground arith, omega arith)
        | inr later ↦ (i + 1, ground arith, omega arith)
      ]

  -- An element in range at which the test holds is enough for `find?`.
  pub is_some-find? :
      (p : A → Bool) (xs : List A) (d : A) (j : ℕ)
      → j < length xs
      → p (get_or xs j d) ≡ true
      → is_some (find? p xs) ≡ true
  is_some-find? p [] d j lt h = absurd (omega arith)
  is_some-find? p (x ∷ xs) d zero lt h = ground arith
  is_some-find? p (x ∷ xs) d (suc j) lt h = ground (arith, is_some-find? p xs d j)
