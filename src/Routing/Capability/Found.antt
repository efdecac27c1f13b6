-- ===== src/Routing/Capability/Found.antt =====
-- What a search of records finds after a place has been written, and which record the insertion of
-- crates/mesh-routing/src/capability.rs gives up.
use meshrustic.Base.{
  ℕ, zero, suc, ◌+◌, ◌<◌, ◌≡◌, refl, sym, ◌∙◌, ap, Bool, true, false, not, Option, none, some, List,
  [], ◌∷◌, ◌++◌, if◌then◌else◌, length, get_or, set, find?, count_if, update_first, inl, inr,
  Bool-cases, if-true, if-false, wrapping_sub, some_eq, subst, arith,
}
use meshrustic.Routing.Capability.{Cache, blank, is_signal_routing, victim_from}

module _ {ℓ} {A : Type ℓ} (p : A → Bool) where
  -- A write of what does not match over an element that differs from the match.
  pub find?-set_kept :
      (q : A → Bool) (t : List A) (i : ℕ) (r v d : A)
      → find? p t ≡ some r
      → p v ≡ false
      → q r ≡ true
      → q (get_or t i d) ≡ false
      → find? p (set t i v) ≡ some r
  find?-set_kept q [] i r v d found other kept given_up = found
  find?-set_kept q (x ∷ t) zero r v d found other kept given_up = elim (Bool-cases (p x)) [
    | inl hit ↦
        let same : x ≡ r = some_eq (sym (if-true (some x) (find? p t) hit) ∙ found) in
        absurd (cc (ap q same, kept, given_up))
    | inr miss ↦ rw (other) (sym (if-false (some x) (find? p t) miss) ∙ found)
  ]
  find?-set_kept q (x ∷ t) (suc i) r v d found other kept given_up = elim (Bool-cases (p x)) [
    | inl hit ↦ rw (hit) (sym (if-true (some x) (find? p t) hit) ∙ found)
    | inr miss ↦ rw (miss) (
        find?-set_kept q t i r v d (sym (if-false (some x) (find? p t) miss) ∙ found) other kept
          given_up)
  ]

  pub find?-append : (t u : List A) (r : A) → find? p t ≡ some r → find? p (t ++ u) ≡ some r
  find?-append [] u r found = absurd (cc)
  find?-append (x ∷ t) u r found = elim (Bool-cases (p x)) [
    | inl hit ↦ rw (hit) (sym (if-true (some x) (find? p t) hit) ∙ found)
    | inr miss ↦ rw (miss) (find?-append t u r (sym (if-false (some x) (find? p t) miss) ∙ found))
  ]

  pub find?-append_new :
      (t : List A) (v : A) → find? p t ≡ none → p v ≡ true → find? p (t ++ (v ∷ [])) ≡ some v
  find?-append_new [] v missing hit = ground arith
  find?-append_new (x ∷ t) v missing hit = ground (arith, find?-append_new t v)

  pub find?-update_first :
      (f : A → A) (t : List A) (r : A)
      → ((x : A) → p (f x) ≡ p x)
      → find? p t ≡ some r
      → find? p (update_first p f t) ≡ some (f r)
  find?-update_first f [] r same found = absurd (cc)
  find?-update_first f (x ∷ t) r same found = elim (Bool-cases (p x)) [
    | inl hit ↦
        let here : x ≡ r = some_eq (sym (if-true (some x) (find? p t) hit) ∙ found) in
        rw (hit, same x, hit, here) refl
    | inr miss ↦
        rw (miss, miss)
          (find?-update_first f t r same (sym (if-false (some x) (find? p t) miss) ∙ found))
  ]

  pub find?-update_first_other :
      (p' : A → Bool) (f : A → A) (t : List A)
      → ((x : A) → p (f x) ≡ p x)
      → ((x : A) → p' x ≡ true → p x ≡ false)
      → find? p (update_first p' f t) ≡ find? p t
  find?-update_first_other p' f [] same apart = refl
  find?-update_first_other p' f (x ∷ t) same apart = elim (Bool-cases (p' x)) [
    | inl there ↦ ground (arith, same x, apart x there)
    | inr miss ↦ ground (arith, find?-update_first_other p' f t same apart)
  ]

  pub count_if-missing : (t : List A) → find? p t ≡ none → count_if p t ≡ 0
  count_if-missing [] missing = refl
  count_if-missing (x ∷ t) missing = ground (arith, count_if-missing t)

-- The index that was chosen, if there is one, is as `P` says.
abbrev pub Holds : (ℕ → Type 0) → Option (ℕ × ℕ) → Type 0
Holds P none = Unit {0}
Holds P (some (i, _)) = P i

if-Holds :
    (P : ℕ → Type 0) (b : Bool) (i age : ℕ) (best : Option (ℕ × ℕ))
    → (b ≡ true → P i)
    → Holds P best
    → Holds P (if b then some (i, age) else best)
if-Holds P true i age best here before = here refl
if-Holds P false i age best here before = before

pub victim_from-Holds :
    (P : ℕ → Type 0) (now_ms : ℕ) (c : Cache) (i : ℕ) (best : Option (ℕ × ℕ))
    → ((k j : ℕ)
        → j ≡ i + k
        → k < length c
        → is_signal_routing (get_or c k blank).status ≡ false
        → P j)
    → Holds P best
    → Holds P (victim_from now_ms c i best)
unfolding victim_from
victim_from-Holds P now_ms [] i best each before = before
victim_from-Holds P now_ms (r ∷ rest) i best each before =
    let age = wrapping_sub now_ms r.last_updated_ms in
    victim_from-Holds P now_ms rest (i + 1) _
      (λ k j e lt idle. each (suc k) j (omega arith) (omega arith) idle)
      (if-Holds P _ i age best (λ b. each 0 i (omega arith) (omega arith) (ground arith)) before)

-- What is written into a full cache, is written over a record of a node that does not take part.
abbrev pub IsIdle : Cache → ℕ → Type 0
IsIdle c i = (i < length c) × (is_signal_routing (get_or c i blank).status ≡ false)

pub victim-IsIdle : (now_ms : ℕ) (c : Cache) → Holds (IsIdle c) (victim_from now_ms c 0 none)
victim-IsIdle now_ms c =
    victim_from-Holds (IsIdle c) now_ms c 0 none
      (λ k j e lt idle. let here : k ≡ j = omega arith in subst (IsIdle c) here (lt, idle)) tt

-- A victim is found as soon as one record may go.
pub victim_from-found :
    (now_ms : ℕ) (c : Cache) (i : ℕ) (best : Option (ℕ × ℕ))
    → victim_from now_ms c i best ≡ none
    → (best ≡ none) × (count_if (λ r. not (is_signal_routing r.status)) c ≡ 0)
unfolding victim_from
victim_from-found now_ms [] i best e = (e, refl)
victim_from-found now_ms (r ∷ rest) i none e =
    let later = victim_from-found now_ms rest (i + 1) _ e in
    (refl, ground (arith, later.0, later.1))
victim_from-found now_ms (r ∷ rest) i (some b) e =
    let later = victim_from-found now_ms rest (i + 1) _ e in absurd (ground (arith, later.0))
