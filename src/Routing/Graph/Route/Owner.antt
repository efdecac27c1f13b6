-- ===== src/Routing/Graph/Route/Owner.antt =====
-- crates/mesh-routing/src/graph/route.rs: `coverage_owner`, the node that answers for the delivery to a
-- node that publishes nothing, `Route::cost` and `find_better_positioned_neighbor`, which weighs it.
use meshrustic.Base.{
  ℕ, ◌/◌, Bool, false, not, ◌&&◌, ◌||◌, Option, none, some, List, [], ◌∷◌, ◌==◌, ltb, if◌then◌else◌,
}
use meshrustic.Base.Float.{Float32}
use meshrustic.Routing.Roles.{role_is_mute}
use meshrustic.Routing.Capability.{
  Cache, is_sr_active, status_of, role_of, is_immediate_relay_router,
}
use meshrustic.Routing.Graph.Placeholder.{is_placeholder_node}
use meshrustic.Routing.Graph.Edge.{Edge, find_edge, edge_etx}
use meshrustic.Routing.Graph.Edge.Prune.{ids}
use meshrustic.Routing.Graph.Edge.Store.{
  EdgeStore, find_node, edges_of, has_direct_reported_edge_to,
}
use meshrustic.Routing.Graph.Route.{RoutableFilter, is_node_routable, Route}
use meshrustic.Routing.Graph.Route.Price.{
  coverage_etx_ceiling_fixed, publishes, measured_edge, can_deliver,
}
use meshrustic.Routing.Graph.Route.Compose.{verified_connectivity}

abbrev pub owner_cost_bucket_fixed : ℕ
owner_cost_bucket_fixed = 50

-- A tier and a bucket of prices.
abbrev pub Key : Type 0
Key = ℕ × ℕ

-- The derived order of the pairs.
unfoldable pub key_lt : Key → Key → Bool
key_lt (tier, bucket) (tier', bucket') = ltb tier tier' || (tier == tier' && ltb bucket bucket')

unfoldable pub key_eq : Key → Key → Bool
key_eq (tier, bucket) (tier', bucket') = tier == tier' && bucket == bucket'

-- The candidate comes before the other one: by its key, and of one key by its id.
unfoldable pub precedes : Key → ℕ → Key → ℕ → Bool
precedes key c key' c' = key_lt key key' || (key_eq key key' && ltb c c')

abbrev pub has_mute_role : Option ℕ → Bool
has_mute_role none = false
has_mute_role (some role) = role_is_mute role

module _ (s : EdgeStore) (capability : Cache) (me : ℕ) (me_relays : Bool) (target : ℕ) where
  unfoldable pub tier_of : ℕ → Option ℕ
  tier_of candidate =
      if candidate == me
      then (if not me_relays then none else some 1)
      else if is_immediate_relay_router capability candidate
      then some 0
      else if is_sr_active (status_of capability candidate)
      then some 1
      else none

  -- The key of a candidate by the measured link to the target.
  unfoldable pub key_by : ℕ → Option Edge → Option Key
  key_by candidate none = none
  key_by candidate (some e) =
      if ltb coverage_etx_ceiling_fixed e.etx_fixed then none else elim (tier_of candidate) [
        | none ↦ none
        | some tier ↦ some (tier, e.etx_fixed / owner_cost_bucket_fixed)
      ]

  -- A candidate that the loop skips has no key.
  unfoldable pub candidate_key : ℕ → Option Key
  candidate_key candidate =
      if candidate == target
        || (is_placeholder_node candidate || has_mute_role (role_of capability candidate))
      then none
      else if not (candidate == me) && not (has_direct_reported_edge_to s me candidate)
      then none
      else key_by candidate (measured_edge s candidate target)

  -- The owner so far and its key, after a candidate with a key.
  unfoldable pub better_owner : ℕ → Key → ℕ → Key → ℕ × Key
  better_owner candidate key owner best =
      if precedes key candidate best owner then (candidate, key) else (owner, best)

  unfoldable pub owner_from : List ℕ → ℕ × Key → ℕ × Key
  owner_from [] found = found
  owner_from (candidate ∷ rest) found = owner_from rest (elim (candidate_key candidate) [
    | none ↦ found
    | some key ↦ better_owner candidate key found.0 found.1
  ])

  abbrev pub no_owner : ℕ × Key
  no_owner = (0, (0xff, 0xffff))

  unfoldable pub coverage_owner : ℕ
  coverage_owner =
      if target == 0 || is_placeholder_node target
      then 0
      else if publishes (some capability) target
      then 0
      else (owner_from (ids s.nodes) no_owner).0

-- `Route::cost`
abbrev pub route_cost : (fl : Float32) → Route → fl.F32
route_cost fl r = fl.div (fl.whole r.cost_fixed) (fl.whole 100)

module _ (fl : Float32) (s : EdgeStore) (capability : Cache) (my_node device_role destination : ℕ)
    (source_node heard_from : ℕ) where
  open fl use {F32, add, lt, whole}

  -- A neighbour that the outer loop does not skip, but for its own links.
  unfoldable pub may_take_over : ℕ → Bool
  may_take_over neighbor =
      let filter : RoutableFilter = record {
        capability = capability;
        my_node = my_node;
        device_role = device_role;
        excluded = [];
      } in
      let (verified, unknown) = verified_connectivity s capability heard_from neighbor in
      not (neighbor == 0 || (neighbor == source_node || neighbor == heard_from))
      && (is_node_routable filter neighbor && (heard_from == 0 || (verified && not unknown)))

  -- The first link of the neighbour to the destination; the test of its delivery is the same for all.
  unfoldable pub direct_etx : ℕ → Option F32
  direct_etx neighbor = elim (find_node s neighbor) [
    | none ↦ none
    | some n ↦ elim (find_edge n destination) [
      | none ↦ none
      | some e ↦
          if can_deliver s (some capability) neighbor destination
          then some (edge_etx fl e)
          else none
    ]
  ]

  unfoldable pub cheaper_neighbor : ℕ → Option F32 → ℕ × F32 → ℕ × F32
  cheaper_neighbor neighbor none best = best
  cheaper_neighbor neighbor (some etx) best =
      if lt (add etx (whole 1)) best.1 then (neighbor, etx) else best

  unfoldable pub better_from : List Edge → ℕ × F32 → ℕ × F32
  better_from [] best = best
  better_from (e ∷ rest) best =
      better_from rest
        (if may_take_over e.to then cheaper_neighbor e.to (direct_etx e.to) best else best)

  unfoldable pub find_better_positioned_neighbor : F32 → ℕ
  find_better_positioned_neighbor our_route_cost =
      (better_from (edges_of s my_node) (0, our_route_cost)).0
