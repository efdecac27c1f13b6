-- ===== src/Routing/Graph/Edge/Store.antt =====
-- `EdgeStore` of crates/mesh-routing/src/graph/edge.rs: its nodes, what is asked of them, and their
-- classes. The field `etx_change_threshold` is 0.5 and no operation changes it: it stands as `half` in
-- `update_edge`.
use meshrustic.Base.{
  ℕ, ◌+◌, Bool, true, false, not, ◌&&◌, ◌||◌, Option, none, some, List, [], ◌∷◌, ◌==◌, ltb, leb,
  if◌then◌else◌, find?, any, get_elem?, update_first, is_some, saturating_add8,
}
use meshrustic.Routing.Graph.Edge.{
  Edge, NodeClass, unknown, l1, l2, l3, same_class, is_reported, NodeEdges, PendingDemotion,
  find_edge, find_edge_mut, max_edges_per_node, graph_max_depth,
}

pub record EdgeStore : Type 0 where
  pub nodes : List NodeEdges
  pub pending_demotion : Option PendingDemotion

unfoldable pub new : EdgeStore
new = record { nodes = []; pending_demotion = none }

abbrev pub clear : EdgeStore → EdgeStore
clear s = record s { nodes = []; pending_demotion = none }

abbrev pub take_pending_demotion : EdgeStore → Option PendingDemotion × EdgeStore
take_pending_demotion s = (s.pending_demotion, record s { pending_demotion = none })

abbrev pub has_id : ℕ → NodeEdges → Bool
has_id node_id n = n.node_id == node_id

abbrev pub find_node : EdgeStore → ℕ → Option NodeEdges
find_node s node_id = find? (has_id node_id) s.nodes

abbrev pub node_id_at : EdgeStore → ℕ → Option ℕ
node_id_at s index = elim (get_elem? s.nodes index) [ none ↦ none | some n ↦ some n.node_id ]

-- The node that `find_node_mut` lends, changed.
abbrev pub find_node_mut : EdgeStore → ℕ → (NodeEdges → NodeEdges) → EdgeStore
find_node_mut s node_id change = record s { nodes = update_first (has_id node_id) change s.nodes }

-- `self.find_node(from).and_then(|n| n.find_edge(to))`
abbrev pub find_link : EdgeStore → ℕ → ℕ → Option Edge
find_link s from to = elim (find_node s from) [ none ↦ none | some n ↦ find_edge n to ]

abbrev pub node_class : EdgeStore → ℕ → Option NodeClass
node_class s node_id = elim (find_node s node_id) [ none ↦ none | some n ↦ some n.class ]

unfoldable pub count_horizon_classes : List NodeEdges → ℕ → ℕ → ℕ → ℕ × ℕ × ℕ
count_horizon_classes [] a b c = (a, b, c)
count_horizon_classes (n ∷ rest) a b c = elim n.class [
  | l1 ↦ count_horizon_classes rest (saturating_add8 a 1) b c
  | l2 ↦ count_horizon_classes rest a (saturating_add8 b 1) c
  | l3 ↦ count_horizon_classes rest a b (saturating_add8 c 1)
  | unknown ↦ count_horizon_classes rest a b c
]

abbrev pub with_parent : ℕ → NodeEdges → NodeEdges
with_parent parent_hint n = if parent_hint == 0 then n else record n { parent_hint = parent_hint }

-- A direct neighbour keeps its class.
abbrev pub classed : NodeClass → ℕ → NodeEdges → NodeEdges
classed class parent_hint n =
    if same_class n.class l1 && not (same_class class l1)
    then with_parent parent_hint n
    else with_parent parent_hint (record n { class = class })

unfoldable pub set_node_class : EdgeStore → ℕ → NodeClass → ℕ → EdgeStore
set_node_class s node_id class parent_hint = find_node_mut s node_id (classed class parent_hint)

unfoldable pub set_l1 : EdgeStore → ℕ → EdgeStore
set_l1 s node_id = find_node_mut s node_id (λ n. record n { class = l1; parent_hint = 0 })

unfoldable pub is_our_direct_neighbor : EdgeStore → ℕ → ℕ → Bool
is_our_direct_neighbor s node_id my_node = is_some (find_link s my_node node_id)

unfoldable pub has_direct_reported_edge_to : EdgeStore → ℕ → ℕ → Bool
has_direct_reported_edge_to s from to = elim (find_link s from to) [
  | none ↦ false
  | some e ↦ is_reported e.source
]

unfoldable pub reachable_via_neighbor : EdgeStore → ℕ → Bool
reachable_via_neighbor s node_id = any (λ n. any (λ e. e.to == node_id) n.edges) s.nodes

unfoldable pub reachable_via_hears_us : EdgeStore → ℕ → Bool
reachable_via_hears_us s node_id =
    any (λ n. any (λ e. e.to == node_id && e.hears_us) n.edges) s.nodes

unfoldable pub hears_us_on : EdgeStore → ℕ → ℕ → Bool
hears_us_on s from to = elim (find_link s from to) [ none ↦ false | some e ↦ e.hears_us ]

abbrev pub edges_of : EdgeStore → ℕ → List Edge
edges_of s node_id = elim (find_node s node_id) [ none ↦ [] | some n ↦ n.edges ]

-- The two loops that classify a node look at our reported links first, and at the nodes of the second
-- ring then.
abbrev pub is_neighbor_link : Edge → Bool
is_neighbor_link e = not (e.to == 0) && is_reported e.source

unfoldable pub classify_candidate : EdgeStore → ℕ → ℕ → NodeClass
unfolding hears_us_on has_direct_reported_edge_to
classify_candidate s node_id my_node =
    if node_id == my_node
    then l1
    else if has_direct_reported_edge_to s my_node node_id
    then l1
    else if any
        (λ e.
          is_neighbor_link e && (hears_us_on s e.to node_id || is_some (find_link s node_id e.to)))
        (edges_of s my_node)
    then l2
    else if leb 3 graph_max_depth
        && any
            (λ n.
              same_class n.class l2
              && (elim (find_edge n node_id) [ none ↦ false | some e ↦ e.hears_us ]
                  || is_some (find_link s node_id n.node_id)))
            s.nodes
    then l3
    else unknown

unfoldable pub bootstrap_class_from_reachability : EdgeStore → ℕ → ℕ → NodeClass
bootstrap_class_from_reachability s node_id my_node =
    if any (λ e. is_neighbor_link e && is_some (find_link s e.to node_id)) (edges_of s my_node)
    then l2
    else if leb 3 graph_max_depth
        && any (λ n. same_class n.class l2 && is_some (find_edge n node_id)) s.nodes
    then l3
    else unknown

unfoldable pub relay_heard_on : EdgeStore → ℕ → ℕ → ℕ
relay_heard_on s my_node relay = elim (find_link s my_node relay) [ none ↦ 0 | some e ↦ e.heard_on ]

unfoldable pub set_edge_hears_us : EdgeStore → ℕ → ℕ → Bool → EdgeStore
set_edge_hears_us s from to hears_us =
    find_node_mut s from (λ n. find_edge_mut n to (λ e. record e { hears_us = hears_us }))

unfoldable pub count_direct_neighbors : ℕ → List Edge → ℕ → ℕ
count_direct_neighbors my_node [] count = count
count_direct_neighbors my_node (e ∷ rest) count = count_direct_neighbors my_node rest (
    if not (e.to == 0) && (not (e.to == my_node) && is_reported e.source)
    then saturating_add8 count 1
    else count)

-- What `direct_neighbor_ids` writes, from the place `written` on.
unfoldable pub direct_neighbor_ids : List Edge → ℕ → List ℕ
direct_neighbor_ids [] written = []
direct_neighbor_ids (e ∷ rest) written =
    let fits = is_neighbor_link e && ltb written max_edges_per_node in
    let later = direct_neighbor_ids rest (if fits then written + 1 else written) in
    if fits then e.to ∷ later else later

unfoldable pub update_node_activity : EdgeStore → ℕ → ℕ → ℕ → Bool × EdgeStore
update_node_activity s node_id now_ms my_node =
    if node_id == 0 || node_id == my_node
    then (false, s)
    else if is_some (find_node s node_id)
    then (true, find_node_mut s node_id (λ n. record n { last_full_update_ms = now_ms }))
    else (false, s)
