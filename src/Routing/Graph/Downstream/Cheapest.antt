-- ===== src/Routing/Graph/Downstream/Cheapest.antt =====
-- What the look-ups of crates/mesh-routing/src/graph/downstream.rs find: the first entry of least cost.
use meshrustic.Base.{
  ℕ, zero, suc, ◌≤◌, ◌<◌, ◌≡◌, ◌⊎◌, refl, Bool, true, ◌&&◌, Option, none, some, [], ◌∷◌, ltb,
  length, get_or, inl, inr, Bool-cases, arith,
}
use meshrustic.Routing.Graph.Downstream.{
  Table, DownstreamEntry, blank, cheapest, leads_to, relay_and_cost,
}

-- No entry that passes costs less than `bound`.
abbrev pub NoneBelow : (DownstreamEntry → Bool) → Table → ℕ → Type 0
NoneBelow passes t bound =
    (k : ℕ)
    → k < length t
    → passes (get_or t k blank) ≡ true
    → bound ≤ (get_or t k blank).cost_fixed

-- The entry at `j` passes, costs less than `bound` and no more than any other that does, and less than
-- those before it.
pub record IsFirstCheapest (passes : DownstreamEntry → Bool) (t : Table) (bound j : ℕ)
    : Type 0 where
  pub in_range : j < length t
  pub its_passes : passes (get_or t j blank) ≡ true
  pub below : (get_or t j blank).cost_fixed < bound
  pub least : NoneBelow passes t (get_or t j blank).cost_fixed
  pub first :
      (k : ℕ)
      → k < j
      → passes (get_or t k blank) ≡ true
      → (get_or t j blank).cost_fixed < (get_or t k blank).cost_fixed

-- What a look-up answers with the entry at `j`.
abbrev pub answer_at : Table → ℕ → ℕ × ℕ
answer_at t j = ((get_or t j blank).relay, (get_or t j blank).cost_fixed)

abbrev kept : Option ℕ → ℕ → Option (ℕ × ℕ)
kept none cost = none
kept (some relay) cost = some (relay, cost)

NoneBelow-cons :
    (passes : DownstreamEntry → Bool) (e : DownstreamEntry) (t : Table) (bound : ℕ)
    → (passes e ≡ true → bound ≤ e.cost_fixed)
    → NoneBelow passes t bound
    → NoneBelow passes (e ∷ t) bound
NoneBelow-cons passes e t bound here later zero lt h = here h
NoneBelow-cons passes e t bound here later (suc k) lt h = later k (omega arith) h

IsFirstCheapest-cons :
    (passes : DownstreamEntry → Bool) (e : DownstreamEntry) (t : Table) (bound j : ℕ)
    → (passes e ≡ true → (get_or t j blank).cost_fixed < e.cost_fixed)
    → IsFirstCheapest passes t bound j
    → IsFirstCheapest passes (e ∷ t) bound (suc j)
IsFirstCheapest-cons passes e t bound j here found = record {
  in_range = omega (arith, found.in_range);
  its_passes = found.its_passes;
  below = found.below;
  least =
      NoneBelow-cons passes e t (get_or t j blank).cost_fixed (λ h. omega (arith, here h))
        found.least;
  first = before;
}
  where
    before :
        (k : ℕ)
        → k < suc j
        → passes (get_or (e ∷ t) k blank) ≡ true
        → (get_or t j blank).cost_fixed < (get_or (e ∷ t) k blank).cost_fixed
    before zero lt h = here h
    before (suc k) lt h = found.first k (omega arith) h

IsFirstCheapest-weaken :
    (passes : DownstreamEntry → Bool) (t : Table) (b c j : ℕ)
    → b ≤ c
    → IsFirstCheapest passes t b j
    → IsFirstCheapest passes t c j
IsFirstCheapest-weaken passes t b c j le found = record {
  in_range = found.in_range;
  its_passes = found.its_passes;
  below = omega (arith, found.below);
  least = found.least;
  first = found.first;
}

-- The loop keeps what it has until it sees something cheaper.
cheapest_lem :
    (passes : DownstreamEntry → Bool) (t : Table) (best : Option ℕ) (bound : ℕ)
    → (NoneBelow passes t bound × (cheapest passes t best bound ≡ kept best bound))
      ⊎ ((j : ℕ) × IsFirstCheapest passes t bound j
          × (cheapest passes t best bound ≡ some (answer_at t j)))
unfolding cheapest
cheapest_lem passes [] none bound = inl ((λ k lt h. absurd (omega arith)), refl)
cheapest_lem passes [] (some relay) bound = inl ((λ k lt h. absurd (omega arith)), refl)
cheapest_lem passes (e ∷ t) best bound = elim (Bool-cases (passes e && ltb e.cost_fixed bound)) [
  | inl better ↦ elim (cheapest_lem passes t (some e.relay) e.cost_fixed) [
    | inl (least, same) ↦ inr (
      0,
      record {
        in_range = omega arith;
        its_passes = ground arith;
        below = ground arith;
        least = NoneBelow-cons passes e t e.cost_fixed (λ _. omega arith) least;
        first = λ k lt h. absurd (omega arith);
      },
      rw (better) same,
    )
    | inr (j, found, same) ↦ inr (
      suc j,
      IsFirstCheapest-weaken passes (e ∷ t) e.cost_fixed bound (suc j) (ground arith)
          (IsFirstCheapest-cons passes e t e.cost_fixed j (λ _. found.below) found),
      rw (better) same,
    )
  ]
  | inr worse ↦ elim (cheapest_lem passes t best bound) [
    | inl (least, same) ↦
        inl (NoneBelow-cons passes e t bound (λ h. ground arith) least, rw (worse) same)
    | inr (j, found, same) ↦ inr (
      suc j,
      IsFirstCheapest-cons passes e t bound j (λ h. ground (arith, found.below)) found,
      rw (worse) same,
    )
  ]
]

-- The relay for a destination is that of the first entry of least cost among those for the destination
-- that are live, with that cost, and there is none exactly when no such entry costs less than 65535.
pub relay_and_cost_lem :
    (t : Table) (destination now_ms ttl_ms : ℕ)
    → let passes = leads_to destination now_ms ttl_ms in
      (NoneBelow passes t 65_535 × (relay_and_cost t destination now_ms ttl_ms ≡ none))
      ⊎ ((j : ℕ) × IsFirstCheapest passes t 65_535 j
          × (relay_and_cost t destination now_ms ttl_ms ≡ some (answer_at t j)))
unfolding relay_and_cost
relay_and_cost_lem t destination now_ms ttl_ms =
    cheapest_lem (leads_to destination now_ms ttl_ms) t none 65_535
