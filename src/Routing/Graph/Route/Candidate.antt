-- ===== src/Routing/Graph/Route/Candidate.antt =====
-- Which nodes `coverage_owner` (crates/mesh-routing/src/graph/route.rs) weighs.
use meshrustic.Base.{
  ℕ, ◌≤◌, ◌≡◌, ◌⊎◌, refl, Bool, true, false, not, ◌&&◌, ◌||◌, Option, none, some, ◌==◌, ◌/◌, ltb,
  if◌then◌else◌, inl, inr, Bool-cases, arith,
}
use meshrustic.Routing.Capability.{
  Cache, is_immediate_relay_router, is_sr_active, status_of, role_of,
}
use meshrustic.Routing.Graph.Placeholder.{is_placeholder_node}
use meshrustic.Routing.Graph.Edge.{Edge}
use meshrustic.Routing.Graph.Edge.Store.{EdgeStore, has_direct_reported_edge_to}
use meshrustic.Routing.Graph.Route.Price.{measured_edge}
use meshrustic.Routing.Graph.Route.Owner.{tier_of, key_by, candidate_key, has_mute_role}

then_some :
    {A : Type 0} (b : Bool) (o : Option A) (x : A)
    → (if b then none else o) ≡ some x
    → (b ≡ false) × (o ≡ some x)
then_some true o x e = absurd (cc)
then_some false o x e = (refl, e)

module _ (s : EdgeStore) (capability : Cache) (me : ℕ) (me_relays : Bool) (target : ℕ) where
  -- The node relays: it is our own and does, or one that publishes that it does.
  abbrev pub Relays : ℕ → Type 0
  Relays c =
      ((c ≡ me) × (me_relays ≡ true))
      ⊎ (is_immediate_relay_router capability c ≡ true)
      ⊎ (is_sr_active (status_of capability c) ≡ true)

  -- A node that may own the delivery: not the target itself, not a placeholder and not mute, our own or
  -- one to which we have reported a link, with a measured link to the target at a price of 7 at most.
  pub record IsCandidate (c : ℕ) : Type 0 where
    pub other : (c == target) ≡ false
    pub real : is_placeholder_node c ≡ false
    pub speaks : has_mute_role (role_of capability c) ≡ false
    pub heard : (c ≡ me) ⊎ (has_direct_reported_edge_to s me c ≡ true)
    pub link : Edge
    pub measured : measured_edge s c target ≡ some link
    pub strong : link.etx_fixed ≤ 700
    pub relays : Relays c

  tier_of-Relays : (c tier : ℕ) → tier_of s capability me me_relays target c ≡ some tier → Relays c
  unfolding tier_of
  tier_of-Relays c tier e = elim (Bool-cases (c == me)) [
    | inl ours ↦ inl (ground arith, ground (arith, e, ours))
    | inr other ↦ elim (Bool-cases (is_immediate_relay_router capability c)) [
      | inl router ↦ inr (inl router)
      | inr no_router ↦ inr (inr (ground (arith, e, other, no_router)))
    ]
  ]

  key_by-IsCandidate :
      (c : ℕ) (key : ℕ × ℕ) (o : Option Edge)
      → (c == target) ≡ false
      → is_placeholder_node c ≡ false
      → has_mute_role (role_of capability c) ≡ false
      → (c ≡ me) ⊎ (has_direct_reported_edge_to s me c ≡ true)
      → measured_edge s c target ≡ o
      → key_by s capability me me_relays target c o ≡ some key
      → IsCandidate c
  unfolding key_by
  key_by-IsCandidate c key none other real speaks heard measured e = absurd (cc)
  key_by-IsCandidate c key (some link) other real speaks heard measured e =
      let (near, weighed) = then_some (ltb 700 link.etx_fixed) _ key e in
      go near (tier_of s capability me me_relays target c) refl weighed
    where
      go :
          ltb 700 link.etx_fixed ≡ false
          → (o : Option ℕ) → tier_of s capability me me_relays target c ≡ o
          → elim o as (λ (o : Option ℕ). Option (ℕ × ℕ)) [
            | none ↦ none
            | some tier ↦ some (tier, link.etx_fixed / 50)
          ]
            ≡ some key
          → IsCandidate c
      go near none no_tier weighed = absurd (cc)
      go near (some tier) its_tier weighed = record {
        other = other;
        real = real;
        speaks = speaks;
        heard = heard;
        link = link;
        measured = measured;
        strong = ground (arith, near);
        relays = tier_of-Relays c tier its_tier;
      }

  pub candidate_key-IsCandidate :
      (c : ℕ) (key : ℕ × ℕ)
      → candidate_key s capability me me_relays target c ≡ some key
      → IsCandidate c
  unfolding candidate_key
  candidate_key-IsCandidate c key e =
      let (stays, weighed) =
        then_some (c == target || (is_placeholder_node c || has_mute_role (role_of capability c))) _
          key e in
      let (near, priced) =
        then_some (not (c == me) && not (has_direct_reported_edge_to s me c)) _ key weighed in
      let heard : (c ≡ me) ⊎ (has_direct_reported_edge_to s me c ≡ true) =
        elim (Bool-cases (c == me)) [
          | inl ours ↦ inl (ground arith)
          | inr other ↦ inr (ground (arith, near, other))
        ] in
      key_by-IsCandidate c key _ (ground (arith, stays)) (ground (arith, stays))
        (ground (arith, stays)) heard refl priced
