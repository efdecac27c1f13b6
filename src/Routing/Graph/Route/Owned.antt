-- ===== src/Routing/Graph/Route/Owned.antt =====
-- The owner that `coverage_owner` (crates/mesh-routing/src/graph/route.rs) finds is the first of the
-- candidates, whatever the order of the nodes.
use meshrustic.Base.{
  ℕ, ◌≡◌, ◌⊎◌, refl, sym, ap, subst, ◌∙◌, Bool, true, false, not, ◌&&◌, ◌||◌, Option, none, some,
  List, [], ◌∷◌, ◌==◌, ◌/◌, leb, ltb, if◌then◌else◌, any, is_some, if-false, inl, inr, arith,
}
use meshrustic.Routing.Capability.{Cache, role_of}
use meshrustic.Routing.Graph.Placeholder.{is_placeholder_node}
use meshrustic.Routing.Graph.Edge.{Edge}
use meshrustic.Routing.Graph.Edge.Prune.{ids}
use meshrustic.Routing.Graph.Edge.Store.{EdgeStore, has_direct_reported_edge_to}
use meshrustic.Routing.Graph.Route.Price.{measured_edge, publishes, coverage_etx_ceiling_fixed}
use meshrustic.Routing.Graph.Route.Candidate.{IsCandidate, candidate_key-IsCandidate}
use meshrustic.Routing.Graph.Route.Owner.{
  Key, key_lt, key_eq, precedes, tier_of, key_by, candidate_key, better_owner, owner_from, no_owner,
  coverage_owner, has_mute_role,
}

precedes_trans :
    (k1 k2 k3 : Key) (c1 c2 c3 : ℕ)
    → precedes k1 c1 k2 c2 ≡ false
    → precedes k2 c2 k3 c3 ≡ false
    → precedes k1 c1 k3 c3 ≡ false
unfolding precedes key_lt key_eq
precedes_trans (t1, b1) (t2, b2) (t3, b3) c1 c2 c3 h g = ground arith

precedes_irrefl : (k : Key) (c : ℕ) → precedes k c k c ≡ false
unfolding precedes key_lt key_eq
precedes_irrefl (t, b) c = ground arith

precedes_asym : (k k' : Key) (c c' : ℕ) → precedes k c k' c' ≡ true → precedes k' c' k c ≡ false
unfolding precedes key_lt key_eq
precedes_asym (t, b) (t', b') c c' h = ground arith

module _ (s : EdgeStore) (capability : Cache) (me : ℕ) (me_relays : Bool) (target : ℕ) where
  abbrev key_of : ℕ → Option Key
  key_of = candidate_key s capability me me_relays target

  abbrev first_by : Option Key → ℕ → Key → ℕ → Bool
  first_by none c key o = false
  first_by (some k) c key o = precedes k c key o

  -- The node is a candidate that comes before the one with the key.
  unfoldable pub comes_first : ℕ → Key → ℕ → Bool
  comes_first c key o = first_by (key_of c) c key o

  -- The node is the first of the candidates, or there is none and it is 0.
  pub data IsOwner : ℕ → Type 0 where
    nobody : any (λ c. is_some (key_of c)) (ids s.nodes) ≡ false → IsOwner 0
    the_first :
        (o : ℕ) (key : Key)
        → any (λ c. c == o) (ids s.nodes) ≡ true
        → IsCandidate s capability me me_relays target o
        → key_of o ≡ some key
        → any (λ c. comes_first c key o) (ids s.nodes) ≡ false
        → IsOwner o

  record IsBest (nodes : List ℕ) (before after : ℕ × Key) : Type 0 where
    chosen :
        (after ≡ before)
        ⊎ ((any (λ c. c == after.0) nodes ≡ true) × (key_of after.0 ≡ some after.1))
    no_worse : precedes before.1 before.0 after.1 after.0 ≡ false
    first : any (λ c. comes_first c after.1 after.0) nodes ≡ false

  -- The owner so far after a candidate: it or the candidate, and neither comes before it.
  record IsAfter (c : ℕ) (o : Option Key) (found next : ℕ × Key) : Type 0 where
    one : (next ≡ found) ⊎ ((next.0 ≡ c) × (o ≡ some next.1))
    kept : precedes found.1 found.0 next.1 next.0 ≡ false
    beaten : first_by o c next.1 next.0 ≡ false

  if-IsAfter :
      (b : Bool) (c : ℕ) (key : Key) (owner : ℕ) (best : Key)
      → precedes key c best owner ≡ b
      → IsAfter c (some key) (owner, best) (if b then (c, key) else (owner, best))
  if-IsAfter true c key owner best sooner = record {
    one = inr (refl, refl);
    kept = precedes_asym key best c owner sooner;
    beaten = precedes_irrefl key c;
  }
  if-IsAfter false c key owner best later = record {
    one = inl refl;
    kept = precedes_irrefl best owner;
    beaten = later;
  }

  abbrev next_owner : ℕ → Option Key → ℕ × Key → ℕ × Key
  next_owner c o found = elim o [
    | none ↦ found
    | some key ↦ better_owner s capability me me_relays target c key found.0 found.1
  ]

  next_owner-IsAfter :
      (c : ℕ) (o : Option Key) (found : ℕ × Key) → IsAfter c o found (next_owner c o found)
  unfolding better_owner
  next_owner-IsAfter c none found = record {
    one = inl refl;
    kept = precedes_irrefl found.1 found.0;
    beaten = refl;
  }
  next_owner-IsAfter c (some key) found =
      if-IsAfter (precedes key c found.1 found.0) c key found.0 found.1 refl

  later_first :
      (o : Option Key) (c : ℕ) (next after : ℕ × Key)
      → first_by o c next.1 next.0 ≡ false
      → precedes next.1 next.0 after.1 after.0 ≡ false
      → first_by o c after.1 after.0 ≡ false
  later_first none c next after h g = refl
  later_first (some key) c next after h g = precedes_trans key next.1 after.1 c next.0 after.0 h g

  chosen_later :
      (c : ℕ) (rest : List ℕ) (found next after : ℕ × Key)
      → IsAfter c (key_of c) found next
      → IsBest rest next after
      → (after ≡ found)
        ⊎ ((any (λ x. x == after.0) (c ∷ rest) ≡ true) × (key_of after.0 ≡ some after.1))
  chosen_later c rest found next after now later = elim later.chosen [
    | inr (there, key) ↦ inr (ground (arith, there), key)
    | inl same ↦ elim now.one [
      | inl still ↦ inl (same ∙ still)
      | inr (here, key) ↦
          let is_c : after.0 ≡ c = ap (λ (p : ℕ × Key). p.0) same ∙ here in
          let its_key : next.1 ≡ after.1 = ap (λ (p : ℕ × Key). p.1) (sym same) in
          inr (ground (arith, is_c), ap key_of is_c ∙ key ∙ ap some its_key)
    ]
  ]

  owner_from-IsBest :
      (nodes : List ℕ) (found : ℕ × Key)
      → IsBest nodes found (owner_from s capability me me_relays target nodes found)
  unfolding owner_from comes_first
  owner_from-IsBest [] found = record {
    chosen = inl refl;
    no_worse = precedes_irrefl found.1 found.0;
    first = refl;
  }
  owner_from-IsBest (c ∷ rest) found =
      let next = next_owner c (key_of c) found in
      let after = owner_from s capability me me_relays target rest next in
      let now = next_owner-IsAfter c (key_of c) found in
      let later = owner_from-IsBest rest next in
      let head : comes_first c after.1 after.0 ≡ false =
        later_first (key_of c) c next after now.beaten later.no_worse in
      record {
        chosen = chosen_later c rest found next after now later;
        no_worse =
            precedes_trans found.1 next.1 after.1 found.0 next.0 after.0 now.kept later.no_worse;
        first = ground (arith, head, later.first);
      }

  abbrev is_low : Option Key → Bool
  is_low none = true
  is_low (some (tier, bucket)) = leb tier 1

  if-is_low : (b : Bool) (o : Option Key) → is_low o ≡ true → is_low (if b then none else o) ≡ true
  if-is_low true o low = refl
  if-is_low false o low = low

  tier-is_low :
      (c : ℕ) (o : Option ℕ) (bucket : ℕ)
      → o ≡ tier_of s capability me me_relays target c
      → is_low (elim o [ none ↦ none | some tier ↦ some (tier, bucket) ]) ≡ true
  unfolding tier_of
  tier-is_low c none bucket e = refl
  tier-is_low c (some tier) bucket e = ground arith

  key_by-is_low :
      (c : ℕ) (o : Option Edge) → is_low (key_by s capability me me_relays target c o) ≡ true
  unfolding key_by
  key_by-is_low c none = refl
  key_by-is_low c (some e) =
      if-is_low (ltb coverage_etx_ceiling_fixed e.etx_fixed) _
        (tier-is_low c _ (e.etx_fixed / 50) refl)

  key_of-is_low : (c : ℕ) → is_low (key_of c) ≡ true
  unfolding candidate_key
  key_of-is_low c =
      let key = key_by s capability me me_relays target c (measured_edge s c target) in
      let far = not (c == me) && not (has_direct_reported_edge_to s me c) in
      if-is_low (c == target || (is_placeholder_node c || has_mute_role (role_of capability c)))
        (if far then none else key) (if-is_low far key (key_by-is_low c (measured_edge s c target)))

  first-is_some :
      (o : Option Key) (c : ℕ) → is_low o ≡ true → first_by o c (0xff, 0xffff) 0 ≡ is_some o
  unfolding precedes key_lt key_eq
  first-is_some none c low = refl
  first-is_some (some (tier, bucket)) c low = ground arith

  any-first :
      (nodes : List ℕ)
      → any (λ c. comes_first c (0xff, 0xffff) 0) nodes ≡ any (λ c. is_some (key_of c)) nodes
  unfolding comes_first
  any-first [] = refl
  any-first (c ∷ rest) =
      ground (arith, first-is_some (key_of c) c (key_of-is_low c), any-first rest)

  best-IsOwner :
      (found : ℕ × Key)
      → IsBest (ids s.nodes) (no_owner s capability me me_relays target) found
      → IsOwner found.0
  best-IsOwner found best = elim best.chosen [
    | inl none_found ↦
        let none_first =
          subst (λ (f : ℕ × Key). any (λ c. comes_first c f.1 f.0) (ids s.nodes) ≡ false) none_found
            best.first in
        subst (λ (f : ℕ × Key). IsOwner f.0) (sym none_found)
          (nobody (sym (any-first (ids s.nodes)) ∙ none_first))
    | inr (there, key) ↦
        the_first found.0 found.1 there
          (candidate_key-IsCandidate s capability me me_relays target found.0 found.1 key) key
          best.first
  ]

  -- For a node that is neither 0 nor a placeholder and publishes no topology, `coverage_owner` answers
  -- with a candidate that no other one comes before, by its key and then its id, wherever it stands
  -- among the nodes, or with 0 where no node of the graph is a candidate. A candidate is not the node
  -- itself, a placeholder or mute, it is our own node or one to which we have reported a link, it
  -- relays, and it has a measured link to the node at a price of 7 at most.
  pub coverage_owner_lem :
      target == 0 || is_placeholder_node target ≡ false
      → publishes (some capability) target ≡ false
      → IsOwner (coverage_owner s capability me me_relays target)
  unfolding coverage_owner
  coverage_owner_lem named silent =
      subst IsOwner (sym (if-false _ _ named ∙ if-false _ _ silent)) (
        best-IsOwner _
          (owner_from-IsBest (ids s.nodes) (no_owner s capability me me_relays target)))
