-- ===== src/Routing/Graph/Route/Search.antt =====
-- crates/mesh-routing/src/graph/route.rs: `backward_search`, the search for the cheapest way, from the
-- destination back to our node.
use meshrustic.Base.{
  ℕ, zero, suc, min, max, Bool, true, false, not, ◌&&◌, ◌||◌, Option, none, some, List, [], ◌∷◌,
  ◌++◌, ◌==◌, leb, ltb, if◌then◌else◌, length, get_or, set, find?, position, is_some,
  saturating_add8, saturating_add16,
}
use meshrustic.Routing.Capability.{Cache}
use meshrustic.Routing.Graph.Edge.{Edge, NodeEdges, is_reported, max_graph_nodes}
use meshrustic.Routing.Graph.Edge.Store.{EdgeStore, find_link, edges_of}
use meshrustic.Routing.Graph.Route.{RoutableFilter, route_cost_unknown, is_node_routable}
use meshrustic.Routing.Graph.Route.Price.{publishes, priced_hop_cost_fixed}

pub record DNode : Type 0 where
  pub id : ℕ
  pub cost : ℕ
  pub prev : ℕ
  pub visited : Bool

abbrev pub blank : DNode
blank = record { id = 0; cost = route_cost_unknown; prev = 0; visited = false }

abbrev pub has_id : ℕ → DNode → Bool
has_id id n = n.id == id

unfoldable pub find_or_add_node : ℕ → List DNode → Option ℕ × List DNode
find_or_add_node id nodes = elim (position (has_id id) nodes) [
  | some i ↦ (some i, nodes)
  | none ↦
      if leb max_graph_nodes (length nodes)
      then (none, nodes)
      else (some (length nodes), nodes ++ (record blank { id = id } ∷ []))
]

unfoldable pub prev_of : List DNode → ℕ → ℕ
prev_of nodes id = elim (find? (has_id id) nodes) [ none ↦ 0 | some n ↦ n.prev ]

-- The node takes the new way if it is cheaper.
unfoldable pub lowered : DNode → ℕ → ℕ → DNode
lowered n via new_cost =
    if n.visited
    then n
    else if ltb new_cost n.cost
    then record n { cost = new_cost; prev = via }
    else n

unfoldable pub lower_at : Option ℕ × List DNode → ℕ → ℕ → List DNode
lower_at (none, nodes) via new_cost = nodes
lower_at (some i, nodes) via new_cost = set nodes i (lowered (get_or nodes i blank) via new_cost)

-- The cost of a way with one hop more, which stays below that of an unknown one.
abbrev pub add_cost : ℕ → ℕ → ℕ
add_cost cost edge_cost = min (saturating_add16 cost edge_cost) 0xfffe

unfoldable pub relax : List DNode → ℕ → ℕ → ℕ → ℕ → List DNode
relax nodes m via cost edge_cost = lower_at (find_or_add_node m nodes) via (add_cost cost edge_cost)

-- The link by which we heard the node ourselves.
abbrev pub if_heard : Option Edge → Option Edge
if_heard none = none
if_heard (some e) = if is_reported e.source && not (e.last_heard_ms == 0) then some e else none

abbrev pub max_with : ℕ → Option ℕ → ℕ
max_with cost none = cost
max_with cost (some other) = max cost other

module _ (s : EdgeStore) (my_node now_ms : ℕ) where
  unfoldable pub edge_price : ℕ → ℕ → ℕ → Edge → Bool → ℕ
  edge_price m via list_owner e unverified =
      let edge_cost = priced_hop_cost_fixed e list_owner my_node now_ms unverified in
      let reception : Option ℕ = elim (if_heard (find_link s my_node via)) [
        | none ↦ none
        | some rx ↦ some (priced_hop_cost_fixed rx my_node my_node now_ms false)
      ] in
      if m == my_node then max_with edge_cost reception else edge_cost

  unfoldable pub relax_priced : List DNode → ℕ → ℕ → ℕ → ℕ → Edge → Bool → List DNode
  relax_priced nodes m via u_cost list_owner e unverified =
      relax nodes m via u_cost (edge_price m via list_owner e unverified)

  -- The loop over the links that node `n` reports.
  unfoldable pub relax_links : ℕ → ℕ → List Edge → List DNode → List DNode
  relax_links n u_cost [] nodes = nodes
  relax_links n u_cost (e ∷ rest) nodes =
      relax_links n u_cost rest (relax_priced nodes e.to n u_cost n e false)

  -- One round of the loop over the nodes that report a link to `n`, which it does not report itself.
  unfoldable pub relax_back : ℕ → ℕ → Bool → Bool → ℕ → List DNode → List DNode
  relax_back n u_cost n_publishes allow_unverified m nodes =
      if m == n || is_some (find_link s n m) then nodes else elim (find_link s m n) [
        | none ↦ nodes
        | some e ↦
            if not n_publishes
            then relax_priced nodes m n u_cost m e false
            else if allow_unverified
            then relax_priced nodes m n u_cost m e true
            else nodes
      ]

  unfoldable pub relax_backs : ℕ → ℕ → Bool → Bool → List NodeEdges → List DNode → List DNode
  relax_backs n u_cost n_publishes allow_unverified [] nodes = nodes
  relax_backs n u_cost n_publishes allow_unverified (m ∷ rest) nodes =
      relax_backs n u_cost n_publishes allow_unverified rest
        (relax_back n u_cost n_publishes allow_unverified m.node_id nodes)

-- The loop for the cheapest node that has not been visited, from index `i` on.
unfoldable pub nearest : List DNode → ℕ → Option ℕ → ℕ → Option ℕ × ℕ
nearest [] i u_idx u_cost = (u_idx, u_cost)
nearest (n ∷ rest) i u_idx u_cost =
    let nearer = not n.visited && ltb n.cost u_cost in
    nearest rest (suc i) (if nearer then some i else u_idx) (if nearer then n.cost else u_cost)

abbrev pub visit : List DNode → ℕ → List DNode
visit nodes i = set nodes i (record (get_or nodes i blank) { visited = true })

abbrev pub capability_of : Option RoutableFilter → Option Cache
capability_of none = none
capability_of (some f) = some f.capability

unfoldable pub passes : Option RoutableFilter → ℕ → Bool
passes none n = true
passes (some f) n = is_node_routable f n

-- The destination alone, at no cost.
abbrev pub start : ℕ → List DNode
start destination = record { id = destination; cost = 0; prev = 0; visited = false } ∷ []

module _ (s : EdgeStore) (my_node destination now_ms : ℕ) (routable : Option RoutableFilter)
    (allow_unverified : Bool) where
  -- What a node that carries packets on gives its neighbours.
  unfoldable pub expand : ℕ → ℕ → List DNode → List DNode
  expand n u_cost nodes =
      if not (n == destination) && not (passes routable n)
      then nodes
      else relax_backs s my_node now_ms n u_cost (publishes (capability_of routable) n)
          allow_unverified s.nodes (relax_links s my_node now_ms n u_cost (edges_of s n) nodes)

  -- The rounds of the search, at most so many; nothing if they do not end before.
  unfoldable pub search : ℕ → List DNode → Option (List DNode)
  search zero nodes = none
  search (suc fuel) nodes =
      let (u_idx, u_cost) = nearest nodes 0 none route_cost_unknown in
      elim u_idx [
        | none ↦ some nodes
        | some i ↦
            let n = (get_or nodes i blank).id in
            let rest = search fuel (expand n u_cost (visit nodes i)) in
            if n == my_node then some (visit nodes i) else rest
      ]

  -- The way from the first hop on, at most so many hops more.
  unfoldable pub count_hops : List DNode → ℕ → ℕ → ℕ → ℕ
  count_hops nodes zero cur hops = hops
  count_hops nodes (suc left) cur hops =
      let further = count_hops nodes left (prev_of nodes cur) (saturating_add8 hops 1) in
      if not (cur == destination) && not (cur == 0) then further else hops

  -- The answer: the cost, the next hop and the hops.
  unfoldable pub way_back : List DNode → Option (ℕ × ℕ × ℕ)
  way_back nodes = elim (find? (has_id my_node) nodes) [
    | none ↦ none
    | some me ↦
        if me.cost == route_cost_unknown || me.prev == 0
        then none
        else some (me.cost, me.prev, count_hops nodes 31 me.prev 1)
  ]

  -- A round visits one of at most 32 nodes, so that the 33rd finds none.
  unfoldable pub backward_search : Option (ℕ × ℕ × ℕ)
  backward_search = elim (search 33 (start destination)) [
    | none ↦ none
    | some nodes ↦ way_back nodes
  ]
