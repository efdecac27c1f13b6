-- ===== src/Base/Retain.antt =====
-- The loop that keeps some elements of an array in place, with a read and a write position.
use Prim.Native.Nat.{ℕ, zero, suc, ◌+◌, ◌≤◌, ◌<◌}
use mathlib.Core.Path.{◌≡◌, refl, ap, sym, ◌∙◌}
use mathlib.Core.Logic.{inl, inr}
use mathlib.Core.Bool.{Bool}
use mathlib.Core.List.{List, [], ◌∷◌, ◌++◌}
use native.Mathlib.Omega.{arith}
use meshrustic.Base.Lists.{length, get_or, set, take, drop, length-set}
use meshrustic.Base.Tests.{if◌then◌else◌, Bool-cases, ◌==◌}

module _ {ℓ} {A : Type ℓ} where
  -- With so many elements not yet read: where the next element goes, and the array.
  unfoldable pub compact_from : A → (A → Bool) → ℕ → ℕ → ℕ → List A → ℕ × List A
  compact_from blank keep zero read write t = (write, t)
  compact_from blank keep (suc left) read write t =
      let x = get_or t read blank in
      let kept =
        compact_from blank keep left (suc read) (suc write)
          (if write == read then t else set t write x) in
      let dropped = compact_from blank keep left (suc read) write t in
      if keep x then kept else dropped

  abbrev cut : ℕ × List A → List A
  cut (write, t) = take write t

  unfoldable pub retain : A → (A → Bool) → List A → List A
  retain blank keep t = cut (compact_from blank keep (length t) 0 0 t)

  unfoldable pub keep_if : (A → Bool) → List A → List A
  keep_if keep [] = []
  keep_if keep (x ∷ t) = if keep x then x ∷ keep_if keep t else keep_if keep t

  take-set_at :
      (t : List A) (i : ℕ) (x : A) → i < length t → take (suc i) (set t i x) ≡ take i t ++ (x ∷ [])
  take-set_at [] i x lt = absurd (omega arith)
  take-set_at (y ∷ t) zero x lt = refl
  take-set_at (y ∷ t) (suc i) x lt = ap (◌∷◌ y) (take-set_at t i x (omega arith))

  take-get_or :
      (t : List A) (i : ℕ) (d : A) → i < length t → take (suc i) t ≡ take i t ++ (get_or t i d ∷ [])
  take-get_or [] i d lt = absurd (omega arith)
  take-get_or (y ∷ t) zero d lt = refl
  take-get_or (y ∷ t) (suc i) d lt = ap (◌∷◌ y) (take-get_or t i d (omega arith))

  drop-set_before : (t : List A) (i j : ℕ) (x : A) → i < j → drop j (set t i x) ≡ drop j t
  drop-set_before [] i j x lt = refl
  drop-set_before (y ∷ t) zero (suc j) x lt = refl
  drop-set_before (y ∷ t) (suc i) (suc j) x lt = drop-set_before t i j x (omega arith)
  drop-set_before (y ∷ t) i zero x lt = absurd (omega arith)

  drop-get_or :
      (t : List A) (i : ℕ) (d : A) → i < length t → drop i t ≡ get_or t i d ∷ drop (suc i) t
  drop-get_or [] i d lt = absurd (omega arith)
  drop-get_or (y ∷ t) zero d lt = refl
  drop-get_or (y ∷ t) (suc i) d lt = drop-get_or t i d (omega arith)

  drop-length : (t : List A) (n : ℕ) → n ≡ length t → drop n t ≡ []
  drop-length [] zero e = refl
  drop-length [] (suc n) e = refl
  drop-length (y ∷ t) zero e = absurd (omega arith)
  drop-length (y ∷ t) (suc n) e = drop-length t n (omega arith)

  append_nil : (xs : List A) → xs ++ [] ≡ xs
  append_nil [] = refl
  append_nil (x ∷ xs) = ap (◌∷◌ x) (append_nil xs)

  append_assoc : (xs ys zs : List A) → (xs ++ ys) ++ zs ≡ xs ++ (ys ++ zs)
  append_assoc [] ys zs = refl
  append_assoc (x ∷ xs) ys zs = ap (◌∷◌ x) (append_assoc xs ys zs)

  -- The array after an element has been moved, or stands at its place already.
  moved : ℕ → ℕ → A → List A → List A
  moved write read x t = if write == read then t else set t write x

  length-moved : (write read : ℕ) (x : A) (t : List A) → length (moved write read x t) ≡ length t
  unfolding moved
  length-moved write read x t = ground (arith, length-set t write x)

  take-moved :
      (write read : ℕ) (t : List A) (d : A)
      → write ≤ read
      → read < length t
      → take (suc write) (moved write read (get_or t read d) t)
        ≡ take write t ++ (get_or t read d ∷ [])
  unfolding moved
  take-moved write read t d le lt = elim (Bool-cases (write == read)) [
    | inl here ↦ let same : write ≡ read = ground arith in rw (here, same) (take-get_or t read d lt)
    | inr behind ↦ rw (behind) (take-set_at t write (get_or t read d) (omega arith))
  ]

  drop-moved :
      (write read : ℕ) (x : A) (t : List A)
      → write ≤ read
      → drop (suc read) (moved write read x t) ≡ drop (suc read) t
  unfolding moved
  drop-moved write read x t le = elim (Bool-cases (write == read)) [
    | inl here ↦ rw (here) refl
    | inr behind ↦ rw (behind) (drop-set_before t write (suc read) x (omega arith))
  ]

  cut-compact_from :
      (blank : A) (keep : A → Bool) (left read write : ℕ) (t : List A)
      → write ≤ read
      → read + left ≡ length t
      → cut (compact_from blank keep left read write t) ≡ take write t ++ keep_if keep (drop read t)
  unfolding compact_from keep_if moved
  cut-compact_from blank keep zero read write t le e =
      let done = drop-length t read (omega arith) in rw (done) (sym (append_nil (take write t)))
  cut-compact_from blank keep (suc left) read write t le e =
      let x = get_or t read blank in
      let lt : read < length t = omega arith in
      let split = drop-get_or t read blank lt in
      elim (Bool-cases (keep x)) [
        | inl stays ↦
            let t' = moved write read x t in
            let rest =
              cut-compact_from blank keep left (suc read) (suc write) t' (omega arith)
                (omega (arith, length-moved write read x t)) in
            let front = take-moved write read t blank le lt in
            let back = drop-moved write read x t le in
            let join = append_assoc (take write t) (x ∷ []) (keep_if keep (drop (suc read) t)) in
            rw (stays, split, stays) (rw (front, back) at rest ∙ join)
        | inr goes ↦
            let rest =
              cut-compact_from blank keep left (suc read) write t (omega arith) (omega arith) in
            rw (goes, split, goes) rest
      ]

  -- The loop keeps the elements at which the test holds, in order.
  pub retain-keep_if :
      (blank : A) (keep : A → Bool) (t : List A) → retain blank keep t ≡ keep_if keep t
  unfolding retain
  retain-keep_if blank keep t =
      cut-compact_from blank keep (length t) 0 0 t (omega arith) (omega arith)
