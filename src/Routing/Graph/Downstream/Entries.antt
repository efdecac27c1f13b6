-- ===== src/Routing/Graph/Downstream/Entries.antt =====
-- What a downstream table is made of (crates/mesh-routing/src/graph/downstream.rs): its size, its pairs
-- of a destination and a relay, the oldest entry, and that an update keeps this.
use meshrustic.Base.{
  count_if-append, ℕ, zero, suc, ◌+◌, ◌≤◌, ◌<◌, ◌≡◌, ◌⊎◌, refl, Bool, true, false, ◌||◌, List, [],
  ◌∷◌, ◌++◌, ◌==◌, ltb, if◌then◌else◌, length, get_or, set, position, position_sound, position-none,
  any, count_if, weigh, count_if-set, length-set, length-append, inl, inr, Bool-cases, Option-cases,
  wrapping_sub, arith,
}
use meshrustic.Routing.Graph.Downstream.{
  Table, DownstreamEntry, blank, is_pair, oldest_from, oldest_idx, upsert_entry,
}

-- An entry that names no node, or whose cost is no u16.
abbrev pub is_bad : DownstreamEntry → Bool
is_bad e = (e.destination == 0 || e.relay == 0) || ltb 65_535 e.cost_fixed

-- No pair of a destination and a relay stands twice, and no entry is bad.
pub record IsTable (t : Table) : Type 0 where
  pub small : length t ≤ 900
  pub distinct : (destination relay : ℕ) → count_if (is_pair destination relay) t ≤ 1
  pub sound : count_if is_bad t ≡ 0

module _ {ℓ} {A : Type ℓ} where
  pub count_if-any : (p : A → Bool) (t : List A) → any p t ≡ false → count_if p t ≡ 0
  count_if-any p [] h = refl
  count_if-any p (x ∷ t) h = ground (arith, count_if-any p t)

  pub weigh-count_if :
      (p : A → Bool) (t : List A) (i : ℕ) (d : A)
      → i < length t
      → weigh p (get_or t i d) ≤ count_if p t
  unfolding weigh
  weigh-count_if p [] i d lt = absurd (omega arith)
  weigh-count_if p (x ∷ t) zero d lt = omega arith
  weigh-count_if p (x ∷ t) (suc i) d lt = omega (arith, weigh-count_if p t i d (omega arith))

  pub none_at :
      (p : A → Bool) (t : List A) (i : ℕ) (d : A)
      → count_if p t ≡ 0
      → i < length t
      → p (get_or t i d) ≡ false
  unfolding weigh
  none_at p t i d none_of lt = ground (arith, weigh-count_if p t i d lt)

abbrev pub age_of : ℕ → DownstreamEntry → ℕ
age_of now_ms e = wrapping_sub now_ms e.last_update_ms

oldest_from_bound :
    (now_ms : ℕ) (t : Table) (i j oldest : ℕ)
    → j < i
    → oldest_from now_ms t i j oldest < i + length t
unfolding oldest_from
oldest_from_bound now_ms [] i j oldest lt = omega arith
oldest_from_bound now_ms (e ∷ t) i j oldest lt = elim (Bool-cases (ltb oldest (age_of now_ms e))) [
  | inl older ↦
      rw (older)
        (omega (arith, oldest_from_bound now_ms t (i + 1) i (age_of now_ms e) (omega arith)))
  | inr younger ↦
      rw (younger) (omega (arith, oldest_from_bound now_ms t (i + 1) j oldest (omega arith)))
]

pub oldest_idx_bound : (now_ms : ℕ) (t : Table) → 0 < length t → oldest_idx now_ms t < length t
oldest_idx_bound now_ms [] lt = absurd (omega arith)
oldest_idx_bound now_ms (e ∷ t) lt =
    omega (arith, oldest_from_bound now_ms t 1 0 (age_of now_ms e) (omega arith))

-- What the entry at hand becomes.
abbrev pub merged : DownstreamEntry → DownstreamEntry → DownstreamEntry
merged old new = record old {
  cost_fixed = new.cost_fixed;
  last_update_ms = new.last_update_ms;
  via_radio = new.via_radio;
  list_learned = if new.list_learned then true else old.list_learned;
}

IsTable-set :
    (t : Table) (i : ℕ) (new : DownstreamEntry)
    → IsTable t
    → i < length t
    → is_bad new ≡ false
    → ((destination relay : ℕ)
        → is_pair destination relay new ≡ true
        → (is_pair destination relay (get_or t i blank) ≡ true)
          ⊎ (count_if (is_pair destination relay) t ≡ 0))
    → IsTable (set t i new)
unfolding weigh
IsTable-set t i new ok lt good fresh = record {
  small = omega (arith, length-set t i new, ok.small);
  distinct = λ d r.
      let moved = count_if-set (is_pair d r) t i new blank lt in
      elim (Bool-cases (is_pair d r new)) [
        | inl same ↦ elim (fresh d r same) [
          | inl before ↦ ground (arith, moved, ok.distinct d r)
          | inr none_yet ↦ ground (arith, moved)
        ]
        | inr other ↦ ground (arith, moved, ok.distinct d r)
      ];
  sound = ground (arith, count_if-set is_bad t i new blank lt, ok.sound);
}

pair_none :
    (t : Table) (d r : ℕ) (e : DownstreamEntry)
    → is_pair d r e ≡ true
    → count_if (is_pair e.destination e.relay) t ≡ 0
    → count_if (is_pair d r) t ≡ 0
pair_none t d r e same nowhere =
    let to : e.destination ≡ d = ground arith in
    let via : e.relay ≡ r = ground arith in rw (← to, ← via) nowhere

IsTable-append :
    (t : Table) (new : DownstreamEntry)
    → IsTable t
    → length t < 900
    → is_bad new ≡ false
    → count_if (is_pair new.destination new.relay) t ≡ 0
    → IsTable (t ++ (new ∷ []))
IsTable-append t new ok room good nowhere = record {
  small = omega (arith, length-append t (new ∷ []));
  distinct = λ d r.
      let both = count_if-append (is_pair d r) t (new ∷ []) in
      elim (Bool-cases (is_pair d r new)) [
        | inl same ↦ ground (arith, both, pair_none t d r new same nowhere)
        | inr other ↦ ground (arith, both, ok.distinct d r)
      ];
  sound = ground (arith, count_if-append is_bad t (new ∷ []), ok.sound);
}

pub upsert_entry-IsTable :
    (t : Table) (new : DownstreamEntry)
    → IsTable t
    → is_bad new ≡ false
    → IsTable (upsert_entry t new)
unfolding upsert_entry
upsert_entry-IsTable t new ok good =
    elim (Option-cases (position (is_pair new.destination new.relay) t)) [
      | inl missing ↦
          let nowhere =
            count_if-any (is_pair new.destination new.relay) t (position-none _ t missing) in
          elim (Bool-cases (ltb (length t) 900)) [
            | inl room ↦
                rw (missing, room, upsert_entry)
                  (IsTable-append t new ok (ground arith) good nowhere)
            | inr full ↦
                rw (missing, full, upsert_entry)
                  (IsTable-set t (oldest_idx new.last_update_ms t) new ok
                    (oldest_idx_bound new.last_update_ms t (ground arith)) good
                    (λ d r same. inr (pair_none t d r new same nowhere)))
          ]
      | inr (i, found) ↦
          let (lt, hit) = position_sound (is_pair new.destination new.relay) t blank found in
          let old = get_or t i blank in
          let old_good : is_bad old ≡ false = none_at is_bad t i blank ok.sound lt in
          rw (found, upsert_entry)
            (IsTable-set t i (merged old new) ok lt (ground arith) (λ d r same. inl same))
    ]

pub length-upsert_entry :
    (t : Table) (new : DownstreamEntry) → length t ≤ length (upsert_entry t new)
unfolding upsert_entry
length-upsert_entry t new = elim (Option-cases (position (is_pair new.destination new.relay) t)) [
  | inl missing ↦
      let idx = oldest_idx new.last_update_ms t in
      elim (Bool-cases (ltb (length t) 900)) [
        | inl room ↦ rw (missing, room, upsert_entry) (omega (arith, length-append t (new ∷ [])))
        | inr full ↦ rw (missing, full, upsert_entry) (omega (arith, length-set t idx new))
      ]
  | inr (i, found) ↦
      rw (found, upsert_entry) (omega (arith, length-set t i (merged (get_or t i blank) new)))
]

pub empty-IsTable : IsTable []
empty-IsTable = record { small = omega arith; distinct = λ d r. omega arith; sound = refl }
