-- ===== src/Routing/RateLimit/Queries/Gate.antt =====
-- The gate that the coverage computation is given, against the question that `should_drop` asks.
use meshrustic.Base.{
  ℕ, suc, ◌≤◌, ◌≡◌, refl, arith, Bool, true, false, not, ◌||◌, ◌⊎◌, inl, inr, ◌≢◌, some, none, List,
  [], ◌∷◌, ◌++◌, ◌==◌, leb, get_or, position, any, count_if, Bool-cases, Option-cases,
}
use meshrustic.Routing.RateLimit.Types.{YoungSighting, NodeRateLimiter, max_young}
use meshrustic.Routing.RateLimit.Young.{
  warmed_up, young_age_active, active_young_count, young_table_full, is_young, find_young,
  in_alumni, no_sighting,
}
use meshrustic.Routing.RateLimit.Queries.{YoungCoverageGate, blocks, coverage_gate, split_young}

any-append : (p : ℕ → Bool) (xs ys : List ℕ) → any p (xs ++ ys) ≡ any p xs || any p ys
any-append p [] ys = refl
any-append p (x ∷ xs) ys = ground (arith, any-append p xs ys)

module _ (id now : ℕ) where
  abbrev here : YoungSighting → Bool
  here s = s.node_id == id

  abbrev active : YoungSighting → Bool
  active s = (young_age_active s now).0

  position-absent :
      (young : List YoungSighting) → count_if here young ≡ 0 → position here young ≡ none
  position-absent [] h = refl
  position-absent (s ∷ rest) h = elim (Bool-cases (here s)) [
    | inl same ↦ absurd (ground arith)
    | inr other ↦ ground (arith, position-absent rest)
  ]

  -- A node without a sighting is in neither part.
  split-absent :
      (young : List YoungSighting)
      → position here young ≡ none
      → let (ids, aged) = split_young young now in
        (any (λ a. a == id) ids ≡ false) × (any (λ a. a == id) aged ≡ false)
  unfolding split_young
  split-absent [] h = (refl, refl)
  split-absent (s ∷ rest) h = elim (Option-cases (position here rest)) [
    | inl miss ↦ ground (arith, split-absent rest miss)
    | inr (j, later) ↦ absurd (ground arith)
  ]

  -- A node with one sighting is in the part that the age of that sighting says.
  split-once :
      (young : List YoungSighting) (i : ℕ)
      → count_if here young ≤ 1
      → position here young ≡ some i
      → let (ids, aged) = split_young young now in
        (any (λ a. a == id) ids ≡ active (get_or young i no_sighting))
        × (any (λ a. a == id) aged ≡ not (active (get_or young i no_sighting)))
  unfolding split_young
  split-once [] i h hit = absurd (cc)
  split-once (s ∷ rest) i h hit = elim (Bool-cases (here s)) [
    | inl same ↦
        let first : i ≡ 0 = ground arith in
        let gone = split-absent rest (position-absent rest (ground arith)) in
        rw first (ground arith)
    | inr other ↦ elim (Option-cases (position here rest)) [
      | inl miss ↦ absurd (ground arith)
      | inr (j, later) ↦
          let next : i ≡ suc j = ground arith in
          let both = split-once rest j (ground arith) later in rw next (ground arith)
    ]
  ]

-- The table of young nodes holds a node once, and none that is established.
abbrev pub Separate : NodeRateLimiter → ℕ → Type 0
Separate l id =
    (count_if (λ s. s.node_id == id) l.young ≤ 1)
    × ((find_young l id ≡ none) ⊎ (in_alumni l id ≡ false))

abbrev open_gate : NodeRateLimiter → ℕ → YoungCoverageGate
open_gate l now =
    let (ids, aged) = split_young l.young now in
    record {
      active = true;
      table_full = leb max_young (active_young_count l now).0;
      ids = ids;
      established = l.alumni ++ aged;
    }

coverage_gate-open :
    (l : NodeRateLimiter) (now : ℕ)
    → (coverage_gate l now).0.active ≡ true
    → (coverage_gate l now).0 ≡ open_gate l now
unfolding coverage_gate warmed_up young_table_full active_young_count
coverage_gate-open l now on = ground arith

-- While the gate is active it blocks, of the nodes other than 0 that have one young sighting at most,
-- and none if they are established, exactly those that `is_young` holds of at that time.
pub blocks-coverage_gate :
    (l : NodeRateLimiter) (id now : ℕ)
    → id ≢ 0
    → Separate l id
    → (coverage_gate l now).0.active ≡ true
    → blocks (coverage_gate l now).0 id ≡ (is_young l id now).0
unfolding blocks is_young find_young in_alumni
blocks-coverage_gate l id now nz (once, apart) on =
    let (ids, aged) = split_young l.young now in
    let joined = any-append (λ a. a == id) l.alumni aged in
    rw (coverage_gate-open l now on) (elim (Option-cases (find_young l id)) [
      | inl miss ↦ let absent = split-absent id now l.young miss in ground arith
      | inr (i, hit) ↦ let both = split-once id now l.young i once hit in ground arith
    ])
