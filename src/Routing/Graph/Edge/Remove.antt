-- ===== src/Routing/Graph/Edge/Remove.antt =====
-- `EdgeStore` of crates/mesh-routing/src/graph/edge.rs: the operations that take edges and nodes away.
-- Each of the loops that keep some edges of a node in place is `retain`.
use meshrustic.Base.{
  ℕ, Bool, true, false, not, ◌&&◌, ◌||◌, none, some, List, [], map, ◌==◌, leb, if◌then◌else◌, any,
  position, retain, swap_remove, wrapping_sub,
}
use meshrustic.Routing.Graph.Edge.{Edge, mirrored, unknown, NodeEdges, is_reported}
use meshrustic.Routing.Graph.Edge.Store.{EdgeStore, has_id, find_node, find_node_mut, edges_of}
use meshrustic.Routing.Graph.Placeholder.{is_placeholder_node}

-- `Edge::default()`
abbrev pub blank_edge : Edge
blank_edge = record {
  to = 0;
  etx_fixed = 0;
  last_update_ms = 0;
  etx_variance = 0;
  source = mirrored;
  hears_us = false;
  heard_on = 0;
  last_heard_ms = 0;
}

abbrev pub blank_node : NodeEdges
blank_node = record {
  node_id = 0;
  last_full_update_ms = 0;
  class = unknown;
  parent_hint = 0;
  edges = [];
}

unfoldable pub retain_edges : (Edge → Bool) → NodeEdges → NodeEdges
retain_edges keep n = record n { edges = retain blank_edge keep n.edges }

-- Whether an edge of the node goes, and the store without these edges.
abbrev pub retain_at : EdgeStore → ℕ → (Edge → Bool) → Bool × EdgeStore
retain_at s node_id keep =
    (any (λ e. not (keep e)) (edges_of s node_id), find_node_mut s node_id (retain_edges keep))

abbrev pub stays_listed : List ℕ → Edge → Bool
stays_listed listed_ids e =
    e.to == 0
    || (is_reported e.source || (is_placeholder_node e.to || any (λ id. id == e.to) listed_ids))

unfoldable pub retain_listed_edges : EdgeStore → ℕ → List ℕ → Bool × EdgeStore
retain_listed_edges s sender listed_ids = elim (find_node s sender) [
  | none ↦ (false, s)
  | some _ ↦ retain_at s sender (stays_listed listed_ids)
]

abbrev pub unheard : ℕ → Bool → Edge → Edge
unheard sender listed_here e =
    if e.to == sender && (e.hears_us && not listed_here) then record e { hears_us = false } else e

abbrev pub clear_hears_us_at : ℕ → List ℕ → NodeEdges → NodeEdges
clear_hears_us_at sender listed_ids n =
    if n.node_id == sender
    then n
    else record n { edges = map (unheard sender (any (λ id. id == n.node_id) listed_ids)) n.edges }

unfoldable pub clear_hears_us_to_unlisted : EdgeStore → ℕ → List ℕ → EdgeStore
clear_hears_us_to_unlisted s sender listed_ids = record s {
  nodes = map (clear_hears_us_at sender listed_ids) s.nodes;
}

unfoldable pub remove_node_edges_to : EdgeStore → ℕ → EdgeStore
remove_node_edges_to s removed = record s {
  nodes = map (retain_edges (λ e. not (e.to == removed))) s.nodes;
}

abbrev pub remove_edges_to : EdgeStore → ℕ → EdgeStore
remove_edges_to s target = remove_node_edges_to s target

unfoldable pub remove_edge : EdgeStore → ℕ → ℕ → Bool × EdgeStore
remove_edge s from to = elim (find_node s from) [
  | none ↦ (false, s)
  | some _ ↦ retain_at s from (λ e. not (e.to == to))
]

unfoldable pub remove_node_at : EdgeStore → ℕ → EdgeStore
remove_node_at s idx = record s { nodes = swap_remove blank_node idx s.nodes }

unfoldable pub remove_node : EdgeStore → ℕ → Bool × EdgeStore
unfolding remove_node_edges_to
remove_node s node_id =
    let s' = remove_node_edges_to s node_id in
    if node_id == 0 then (false, s) else elim (position (has_id node_id) s'.nodes) [
      | none ↦ (false, s')
      | some idx ↦ (true, record s' { nodes = swap_remove blank_node idx s'.nodes })
    ]

-- The first loop of `age_edges`: the edges that have been updated within the time to live.
abbrev pub is_fresh : ℕ → ℕ → Edge → Bool
is_fresh now_ms ttl_ms e = leb (wrapping_sub now_ms e.last_update_ms) ttl_ms

unfoldable pub age_out : EdgeStore → ℕ → ℕ → Bool × EdgeStore
age_out s now_ms ttl_ms = (
  any (λ n. any (λ e. not (is_fresh now_ms ttl_ms e)) n.edges) s.nodes,
  record s { nodes = map (retain_edges (is_fresh now_ms ttl_ms)) s.nodes },
)
