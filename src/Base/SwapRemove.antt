-- ===== src/Base/SwapRemove.antt =====
-- Removal of an element by moving the last one to its place, and the loop that does so wherever a test
-- holds.
use Prim.Native.Nat.{ℕ, zero, suc, ◌+◌, ◌-◌, ◌≤◌, ◌<◌}
use mathlib.Core.Path.{◌≡◌, refl, ap}
use mathlib.Core.Logic.{inl, inr}
use mathlib.Core.Bool.{Bool, true, false, not, ◌&&◌}
use mathlib.Core.List.{List, [], ◌∷◌}
use native.Mathlib.Omega.{arith}
use meshrustic.Base.Lists.{length, get_or, set, take, count_if, length-set, get_or-set_ne}
use meshrustic.Base.Tests.{if◌then◌else◌, Bool-cases, ltb}

module _ {ℓ} {A : Type ℓ} where
  unfoldable pub swap_remove : A → ℕ → List A → List A
  swap_remove blank i t =
      let last = length t - 1 in take last (if ltb i last then set t i (get_or t last blank) else t)

  -- At index `i`, with so many elements not yet looked at.
  unfoldable pub sweep : A → (A → Bool) → ℕ → ℕ → List A → List A
  sweep blank gone zero i t = t
  sweep blank gone (suc left) i t =
      let removed = sweep blank gone left i (swap_remove blank i t) in
      let kept = sweep blank gone left (i + 1) t in
      if gone (get_or t i blank) then removed else kept

  unfoldable pub weigh : (A → Bool) → A → ℕ
  weigh q x = if q x then 1 else 0

  pub length-take_le : (n : ℕ) (t : List A) → n ≤ length t → length (take n t) ≡ n
  length-take_le zero t le = refl
  length-take_le (suc n) [] le = absurd (omega arith)
  length-take_le (suc n) (x ∷ t) le = ap suc (length-take_le n t (omega arith))

  pub get_or-take :
      (n j : ℕ) (t : List A) (d : A) → j < n → n ≤ length t → get_or (take n t) j d ≡ get_or t j d
  get_or-take zero j t d lt le = absurd (omega arith)
  get_or-take (suc n) j [] d lt le = absurd (omega arith)
  get_or-take (suc n) zero (x ∷ t) d lt le = refl
  get_or-take (suc n) (suc j) (x ∷ t) d lt le = get_or-take n j t d (omega arith) (omega arith)

  count_if-take_last :
      (q : A → Bool) (n : ℕ) (t : List A) (d : A)
      → length t ≡ n + 1
      → count_if q (take n t) + weigh q (get_or t n d) ≡ count_if q t
  unfolding weigh
  count_if-take_last q n [] d e = absurd (omega arith)
  count_if-take_last q zero (x ∷ []) d e = omega arith
  count_if-take_last q zero (x ∷ y ∷ t) d e = absurd (omega arith)
  count_if-take_last q (suc n) (x ∷ t) d e = omega (arith, count_if-take_last q n t d (omega arith))

  pub count_if-set :
      (q : A → Bool) (t : List A) (i : ℕ) (v d : A)
      → i < length t
      → count_if q (set t i v) + weigh q (get_or t i d) ≡ count_if q t + weigh q v
  unfolding weigh
  count_if-set q [] i v d lt = absurd (omega arith)
  count_if-set q (x ∷ t) zero v d lt = omega arith
  count_if-set q (x ∷ t) (suc i) v d lt = omega (arith, count_if-set q t i v d (omega arith))

  pub length-swap_remove :
      (blank : A) (i : ℕ) (t : List A) → length (swap_remove blank i t) ≡ length t - 1
  unfolding swap_remove
  length-swap_remove blank i t =
      let n = length t - 1 in
      let v = get_or t n blank in
      elim (Bool-cases (ltb i n)) [
        | inl inner ↦ ground (arith, length-take_le n (set t i v), length-set t i v)
        | inr end ↦ ground (arith, length-take_le n t)
      ]

  -- What went is what stood at the index.
  pub count_if-swap_remove :
      (q : A → Bool) (blank : A) (i : ℕ) (t : List A)
      → i < length t
      → count_if q (swap_remove blank i t) + weigh q (get_or t i blank) ≡ count_if q t
  unfolding swap_remove
  count_if-swap_remove q blank i t lt =
      let n = length t - 1 in
      let v = get_or t n blank in
      elim (Bool-cases (ltb i n)) [
        | inl inner ↦
            let same : get_or (set t i v) n blank ≡ v =
              get_or-set_ne t i n v blank (ground arith) in
            let last = count_if-take_last q n (set t i v) blank (omega (arith, length-set t i v)) in
            let moved = count_if-set q t i v blank lt in
            ground (arith, last, moved, ap (weigh q) same)
        | inr end ↦
            let last = count_if-take_last q n t blank (omega arith) in
            let here : i ≡ n = ground arith in ground (arith, last)
      ]

  get_or-swap_remove :
      (blank : A) (i j : ℕ) (t : List A)
      → j < i
      → i < length t
      → get_or (swap_remove blank i t) j blank ≡ get_or t j blank
  unfolding swap_remove
  get_or-swap_remove blank i j t before lt =
      let n = length t - 1 in
      let v = get_or t n blank in
      elim (Bool-cases (ltb i n)) [
        | inl inner ↦ ground (
          arith,
          get_or-take n j (set t i v) blank,
          length-set t i v,
          get_or-set_ne t i j v blank (ground arith),
        )
        | inr end ↦ ground (arith, get_or-take n j t blank)
      ]

  count_if-none_gone :
      (gone q : A → Bool) (blank : A) (t : List A)
      → ((j : ℕ) → j < length t → gone (get_or t j blank) ≡ false)
      → count_if q t ≡ count_if (λ e. q e && not (gone e)) t
  count_if-none_gone gone q blank [] stay = refl
  count_if-none_gone gone q blank (x ∷ t) stay =
      let first = stay 0 (omega arith) in
      let others = count_if-none_gone gone q blank t (λ j lt. stay (suc j) (omega arith)) in
      ground (arith, first, others)

  weigh-gone : (gone q : A → Bool) (x : A) → gone x ≡ true → weigh (λ e. q e && not (gone e)) x ≡ 0
  unfolding weigh
  weigh-gone gone q x goes = ground arith

  -- The loop keeps what the test does not hold of, each as often as it was there.
  pub count_if-sweep :
      (gone q : A → Bool) (blank : A) (left i : ℕ) (t : List A)
      → i + left ≡ length t
      → ((j : ℕ) → j < i → gone (get_or t j blank) ≡ false)
      → count_if q (sweep blank gone left i t) ≡ count_if (λ e. q e && not (gone e)) t
  unfolding sweep
  count_if-sweep gone q blank zero i t e stay =
      count_if-none_gone gone q blank t (λ j lt. stay j (omega arith))
  count_if-sweep gone q blank (suc left) i t e stay =
      let t' = swap_remove blank i t in
      let kept_q : A → Bool = λ x. q x && not (gone x) in
      elim (Bool-cases (gone (get_or t i blank))) [
        | inl goes ↦
            let rest =
              count_if-sweep gone q blank left i t' (omega (arith, length-swap_remove blank i t))
                (λ j lt. cc (stay j lt, get_or-swap_remove blank i j t lt (omega arith))) in
            let less = count_if-swap_remove kept_q blank i t (omega arith) in
            let none_lost = weigh-gone gone q (get_or t i blank) goes in
            rw (goes) (omega (arith, rest, less, none_lost))
        | inr stays ↦
            let rest =
              count_if-sweep gone q blank left (i + 1) t (omega arith)
                (λ j lt. grind (arith, stay j)) in
            rw (stays) rest
      ]
