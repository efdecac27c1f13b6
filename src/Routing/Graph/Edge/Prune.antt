-- ===== src/Routing/Graph/Edge/Prune.antt =====
-- `EdgeStore` of crates/mesh-routing/src/graph/edge.rs: the nodes that no links join to our own are
-- taken out, and what has not been heard of for long.
use meshrustic.Base.{
  ℕ, zero, suc, Bool, true, false, not, ◌&&◌, ◌||◌, Option, none, some, List, [], ◌∷◌, map, ◌==◌,
  ltb, if◌then◌else◌, length, get_or, set, replicate, position, is_some, wrapping_sub,
}
use meshrustic.Base.Float.{Float32}
use meshrustic.Routing.Graph.Downstream.{Table, clear_for_relay, clear_for_destination}
use meshrustic.Routing.Graph.Edge.{
  Edge, class_within_depth, NodeEdges, find_edge, PendingDemotion, max_graph_nodes,
}
use meshrustic.Routing.Graph.Edge.Store.{EdgeStore, has_direct_reported_edge_to}
use meshrustic.Routing.Graph.Edge.Remove.{blank_node, remove_node, remove_edge, age_out}
use meshrustic.Routing.Graph.Edge.Evict.{pick_l1_parent, apply_demotion}

-- The flags by index, and the stack, its top first: `sp` is its length.
pub record Flood : Type 0 where
  pub reachable : List Bool
  pub stack : List ℕ

-- `idx_of`
abbrev pub idx_of : List ℕ → ℕ → Option ℕ
idx_of id_at node_id = position (λ id. id == node_id) id_at

-- The flag is set, and the node is put on the stack if there is room.
unfoldable pub mark : Flood → ℕ → ℕ → Flood
mark f i node_id = record {
  reachable = set f.reachable i true;
  stack = if ltb (length f.stack) max_graph_nodes then node_id ∷ f.stack else f.stack;
}

unfoldable pub offer : List ℕ → Flood → ℕ → Flood
unfolding mark
offer id_at f node_id = elim (idx_of id_at node_id) [
  | none ↦ f
  | some i ↦ if get_or f.reachable i false then f else mark f i node_id
]

-- The first loop of a round, over the links of the node.
unfoldable pub offer_links : List ℕ → Flood → List Edge → Flood
unfolding offer
offer_links id_at f [] = f
offer_links id_at f (e ∷ rest) = offer_links id_at (offer id_at f e.to) rest

-- The second one, over the nodes from index `i` on: those with a link to `cur`.
unfoldable pub offer_back : ℕ → Flood → List NodeEdges → ℕ → Flood
unfolding mark
offer_back cur f [] i = f
offer_back cur f (n ∷ rest) i =
    let passes = not (get_or f.reachable i false) && is_some (find_edge n cur) in
    offer_back cur (if passes then mark f i n.node_id else f) rest (suc i)

unfoldable pub round : List NodeEdges → List ℕ → ℕ → Flood → Flood
unfolding offer_links offer_back
round nodes id_at cur f = elim (idx_of id_at cur) [
  | none ↦ f
  | some ci ↦ offer_back cur (offer_links id_at f (get_or nodes ci blank_node).edges) nodes 0
]

-- The loop while the stack is not empty.
unfoldable pub flood : List NodeEdges → List ℕ → ℕ → Flood → Flood
unfolding round
flood nodes id_at zero f = f
flood nodes id_at (suc fuel) f = elim f.stack [
  | [] ↦ f
  | cur ∷ below ↦ flood nodes id_at fuel (round nodes id_at cur (record f { stack = below }))
]

abbrev pub ids : List NodeEdges → List ℕ
ids nodes = map (λ n. n.node_id) nodes

-- Every round takes one node off the stack, and each is put there once: as many rounds as nodes.
unfoldable pub reachable_from : List NodeEdges → ℕ → ℕ → List Bool
unfolding flood
reachable_from nodes root my_node =
    let start : Flood = record {
      reachable = set (replicate (length nodes) false) root true;
      stack = my_node ∷ [];
    } in
    (flood nodes (ids nodes) (length nodes) start).reachable

-- The nodes without a flag, other than our own.
unfoldable pub doomed : List ℕ → List Bool → ℕ → List ℕ
doomed [] flags my_node = []
doomed (id ∷ rest) [] my_node = []
doomed (id ∷ rest) (reached ∷ flags) my_node =
    let others = doomed rest flags my_node in
    if not reached && not (id == my_node) then id ∷ others else others

-- The second loop of `age_edges`: the nodes that go, but those that we hear.
abbrev pub is_forgotten : EdgeStore → ℕ → ℕ → ℕ → NodeEdges → Bool
is_forgotten s my_node now_ms ttl_ms n =
    let stale = ltb ttl_ms (wrapping_sub now_ms n.last_full_update_ms) in
    let empty_unknown = length n.edges == 0 && not (class_within_depth n.class) in
    not (n.node_id == my_node)
    && (not (has_direct_reported_edge_to s my_node n.node_id) && (stale || empty_unknown))

unfoldable pub forgotten : EdgeStore → ℕ → ℕ → ℕ → List NodeEdges → ℕ → List ℕ
unfolding has_direct_reported_edge_to
forgotten s my_node now_ms ttl_ms [] written = []
forgotten s my_node now_ms ttl_ms (n ∷ rest) written =
    let goes = is_forgotten s my_node now_ms ttl_ms n && ltb written max_graph_nodes in
    let later = forgotten s my_node now_ms ttl_ms rest (if goes then suc written else written) in
    if goes then n.node_id ∷ later else later

module _ (fl : Float32) where
  -- One node that goes: the downstream table keeps it behind its parent, if it has one.
  unfoldable pub drop_victim : EdgeStore → ℕ → ℕ → Table → ℕ → Bool × EdgeStore × Table
  unfolding pick_l1_parent apply_demotion clear_for_relay clear_for_destination remove_node
  drop_victim s my_node now_ms downstream victim = elim (pick_l1_parent s victim my_node) [
    | none ↦
        let (removed, s') = remove_node s victim in
        (removed, s', clear_for_destination (clear_for_relay downstream victim) victim)
    | some (parent, cost_fixed) ↦
        let d : PendingDemotion = record {
          victim = victim;
          parent = parent;
          cost_fixed = cost_fixed;
        } in
        let (s1, downstream') = apply_demotion fl s my_node d now_ms downstream in
        let (removed, s') = remove_node s1 victim in (removed, s', downstream')
  ]

  -- Whether a node went.
  unfoldable pub drop_victims : EdgeStore → ℕ → ℕ → Table → List ℕ → Bool → Bool × EdgeStore × Table
  unfolding drop_victim
  drop_victims s my_node now_ms downstream [] changed = (changed, s, downstream)
  drop_victims s my_node now_ms downstream (victim ∷ rest) changed =
      let (removed, s', downstream') = drop_victim s my_node now_ms downstream victim in
      drop_victims s' my_node now_ms downstream' rest (removed || changed)

  unfoldable pub prune_unreachable_from_root : EdgeStore → ℕ → ℕ → Table → Bool × EdgeStore × Table
  unfolding reachable_from doomed drop_victims
  prune_unreachable_from_root s my_node now_ms downstream = elim (idx_of (ids s.nodes) my_node) [
    | none ↦ (false, s, downstream)
    | some root ↦
        drop_victims s my_node now_ms downstream
          (doomed (ids s.nodes) (reachable_from s.nodes root my_node) my_node) false
  ]

  unfoldable pub remove_edge_and_prune :
      EdgeStore → ℕ → ℕ → ℕ → ℕ → Table → Bool × EdgeStore × Table
  unfolding remove_edge prune_unreachable_from_root
  remove_edge_and_prune s from to my_node now_ms downstream =
      let (removed, s') = remove_edge s from to in
      let (_, s'', downstream') = prune_unreachable_from_root s' my_node now_ms downstream in
      if removed then (true, s'', downstream') else (false, s', downstream)

  -- With a downstream table.
  unfoldable pub age_edges_with : EdgeStore → ℕ → ℕ → ℕ → Table → Bool × EdgeStore × Table
  unfolding age_out forgotten drop_victims prune_unreachable_from_root
  age_edges_with s my_node now_ms ttl_ms downstream =
      let (went, s1) = age_out s now_ms ttl_ms in
      let victims = forgotten s1 my_node now_ms ttl_ms s1.nodes 0 in
      let (changed, s2, downstream2) = drop_victims s1 my_node now_ms downstream victims went in
      let (_, s3, downstream3) = prune_unreachable_from_root s2 my_node now_ms downstream2 in
      if changed then (true, s3, downstream3) else (false, s2, downstream2)

-- Without one.
unfoldable pub remove_all : EdgeStore → List ℕ → Bool → Bool × EdgeStore
unfolding remove_node
remove_all s [] changed = (changed, s)
remove_all s (victim ∷ rest) changed =
    let (removed, s') = remove_node s victim in remove_all s' rest (removed || changed)

unfoldable pub age_edges_without : EdgeStore → ℕ → ℕ → ℕ → Bool × EdgeStore
unfolding age_out forgotten remove_all
age_edges_without s my_node now_ms ttl_ms =
    let (went, s1) = age_out s now_ms ttl_ms in
    remove_all s1 (forgotten s1 my_node now_ms ttl_ms s1.nodes 0) went
