-- ===== src/Base/Each.antt =====
-- A predicate on every element of a list, through the operations on lists.
use Prim.Native.Nat.{◌+◌, ℕ, zero, suc, ◌-◌, ◌≤◌, ◌<◌}
use mathlib.Core.Path.{◌≡◌, refl, subst, sym, ◌∙◌}
use mathlib.Core.Option.{some}
use mathlib.Core.Logic.{inl, inr}
use mathlib.Core.Bool.{Bool, true}
use mathlib.Core.List.{List, [], ◌∷◌, ◌++◌, map}
use native.Mathlib.Omega.{arith}
use meshrustic.Base.Lists.{length, get_or, set, take, count_if, update_first, find?}
use meshrustic.Base.Tests.{if-true, if-false, Bool-cases, ltb}
use meshrustic.Base.Retain.{keep_if}
use meshrustic.Base.SwapRemove.{swap_remove}

pub some_eq {ℓ} : {A : Type ℓ} {a b : A} → some a ≡ some b → a ≡ b
some_eq e = cc

module _ {ℓ κ} {A : Type ℓ} (P : A → Type κ) where
  abbrev pub All : List A → Type κ
  All [] = Unit
  All (x ∷ xs) = P x × All xs

  pub All-append : (xs ys : List A) → All xs → All ys → All (xs ++ ys)
  All-append [] ys hx hy = hy
  All-append (x ∷ xs) ys hx hy = (hx.0, All-append xs ys hx.1 hy)

  pub All-get : (xs : List A) (i : ℕ) (d : A) → All xs → P d → P (get_or xs i d)
  All-get [] i d h hd = hd
  All-get (x ∷ xs) zero d h hd = h.0
  All-get (x ∷ xs) (suc i) d h hd = All-get xs i d h.1 hd

  pub All-set : (xs : List A) (i : ℕ) (v : A) → All xs → P v → All (set xs i v)
  All-set [] i v h hv = h
  All-set (x ∷ xs) zero v h hv = (hv, h.1)
  All-set (x ∷ xs) (suc i) v h hv = (h.0, All-set xs i v h.1 hv)

  pub All-take : (n : ℕ) (xs : List A) → All xs → All (take n xs)
  All-take zero xs h = tt
  All-take (suc n) [] h = tt
  All-take (suc n) (x ∷ xs) h = (h.0, All-take n xs h.1)

  pub All-map : (f : A → A) (xs : List A) → ((x : A) → P x → P (f x)) → All xs → All (map f xs)
  All-map f [] keep h = tt
  All-map f (x ∷ xs) keep h = (keep x h.0, All-map f xs keep h.1)

  pub All-update_first :
      (p : A → Bool) (f : A → A) (xs : List A)
      → ((x : A) → P x → P (f x))
      → All xs
      → All (update_first p f xs)
  All-update_first p f [] keep h = tt
  All-update_first p f (x ∷ xs) keep h = elim (Bool-cases (p x)) [
    | inl hit ↦ rw (hit) (keep x h.0, h.1)
    | inr miss ↦ rw (miss) (h.0, All-update_first p f xs keep h.1)
  ]

  pub find?-All :
      (p : A → Bool) (xs : List A) (x : A) → find? p xs ≡ some x → All xs → P x × (p x ≡ true)
  find?-All p [] x found h = absurd (cc)
  find?-All p (y ∷ xs) x found h = elim (Bool-cases (p y)) [
    | inl hit ↦
        let same : y ≡ x = some_eq (sym (if-true (some y) (find? p xs) hit) ∙ found) in
        (subst P same h.0, subst (λ z. p z ≡ true) same hit)
    | inr miss ↦ find?-All p xs x (sym (if-false (some y) (find? p xs) miss) ∙ found) h.1
  ]

  -- A change of the element that is found.
  pub All-update_first_found :
      (p : A → Bool) (f : A → A) (xs : List A) (x : A)
      → find? p xs ≡ some x
      → P (f x)
      → All xs
      → All (update_first p f xs)
  All-update_first_found p f [] x found hf h = tt
  All-update_first_found p f (y ∷ xs) x found hf h = elim (Bool-cases (p y)) [
    | inl hit ↦
        let same : y ≡ x = some_eq (sym (if-true (some y) (find? p xs) hit) ∙ found) in
        rw (hit) (subst (λ z. P (f z)) (sym same) hf, h.1)
    | inr miss ↦ rw (miss) (
      h.0,
      All-update_first_found p f xs x (sym (if-false (some y) (find? p xs) miss) ∙ found) hf h.1,
    )
  ]

  pub All-swap_remove :
      (blank : A) (i : ℕ) (xs : List A) → All xs → P blank → All (swap_remove blank i xs)
  unfolding swap_remove
  All-swap_remove blank i xs h hb =
      let n = length xs - 1 in
      elim (Bool-cases (ltb i n)) [
        | inl inner ↦ rw (inner) (All-take n _ (All-set xs i _ h (All-get xs n blank h hb)))
        | inr end ↦ rw (end) (All-take n xs h)
      ]

-- How often a test holds, through these operations.
module _ {ℓ} {A : Type ℓ} (q : A → Bool) where
  pub count_if-map_same :
      (f : A → A) (xs : List A) → ((x : A) → q (f x) ≡ q x) → count_if q (map f xs) ≡ count_if q xs
  count_if-map_same f [] same = refl
  count_if-map_same f (x ∷ xs) same = ground (arith, count_if-map_same f xs same, same x)

  pub count_if-update_first_same :
      (p : A → Bool) (f : A → A) (xs : List A)
      → ((x : A) → q (f x) ≡ q x)
      → count_if q (update_first p f xs) ≡ count_if q xs
  count_if-update_first_same p f [] same = refl
  count_if-update_first_same p f (x ∷ xs) same = elim (Bool-cases (p x)) [
    | inl hit ↦ rw (hit) ground (arith, same x)
    | inr miss ↦ rw (miss) ground (arith, count_if-update_first_same p f xs same)
  ]

  pub count_if-append : (xs ys : List A) → count_if q (xs ++ ys) ≡ count_if q xs + count_if q ys
  count_if-append [] ys = omega arith
  count_if-append (x ∷ xs) ys = ground (arith, count_if-append xs ys)

  pub count_if-keep_if :
      (keep : A → Bool) (xs : List A) → count_if q (keep_if keep xs) ≤ count_if q xs
  unfolding keep_if
  count_if-keep_if keep [] = omega arith
  count_if-keep_if keep (x ∷ xs) = elim (Bool-cases (keep x)) [
    | inl stays ↦ rw (stays) omega (arith, count_if-keep_if keep xs)
    | inr goes ↦ rw (goes) omega (arith, count_if-keep_if keep xs)
  ]

pub one_hit {ℓ} :
    {A : Type ℓ} (p : A → Bool) (xs : List A) (d : A) (k : ℕ)
    → k < length xs
    → p (get_or xs k d) ≡ true
    → 1 ≤ count_if p xs
one_hit p [] d k bound h = absurd (omega arith)
one_hit p (x ∷ xs) d zero bound h = ground arith
one_hit p (x ∷ xs) d (suc k) bound h = ground (arith, one_hit p xs d k (omega arith) h)

-- Two places at which a test holds.
pub two_hits {ℓ} :
    {A : Type ℓ} (p : A → Bool) (xs : List A) (d : A) (j k : ℕ)
    → j < k
    → k < length xs
    → p (get_or xs j d) ≡ true
    → p (get_or xs k d) ≡ true
    → 2 ≤ count_if p xs
two_hits p [] d j k lt bound hj hk = absurd (omega arith)
two_hits p (x ∷ xs) d zero (suc k) lt bound hj hk =
    ground (arith, one_hit p xs d k (omega arith) hk)
two_hits p (x ∷ xs) d (suc j) (suc k) lt bound hj hk =
    ground (arith, two_hits p xs d j k (omega arith) (omega arith) hj hk)
two_hits p (x ∷ xs) d j zero lt bound hj hk = absurd (omega arith)
