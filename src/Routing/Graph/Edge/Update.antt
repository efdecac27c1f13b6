-- ===== src/Routing/Graph/Edge/Update.antt =====
-- `update_edge` of crates/mesh-routing/src/graph/edge.rs.
use meshrustic.Base.{
  ℕ, ◌+◌, Bool, false, not, ◌&&◌, ◌||◌, Option, none, some, List, [], ◌∷◌, ◌++◌, ◌==◌, ltb,
  if◌then◌else◌, length, get_or, set, position, is_some, wrapping_sub,
}
use meshrustic.Base.Float.{Float32}
use meshrustic.Routing.Graph.Edge.{
  Change, no_change, new_edge, significant_change, EdgeSource, source_rank, is_reported, Edge,
  etx_to_fixed, edge_etx, etx_variance_f, set_etx, update_etx_variance, NodeClass, unknown,
  same_class, class_within_depth, NodeEdges, leads_to_node, max_edges_per_node,
}
use meshrustic.Routing.Graph.Edge.Store.{
  EdgeStore, find_node, find_node_mut, set_l1, set_node_class, is_our_direct_neighbor,
  reachable_via_neighbor, classify_candidate, bootstrap_class_from_reachability,
}
use meshrustic.Routing.Graph.Edge.Remove.{blank_edge}
use meshrustic.Routing.Graph.Edge.Evict.{find_or_create_node, or_unchanged, hint_of}
use meshrustic.Routing.Graph.Placeholder.{is_placeholder_node}

-- What `update_edge` is told of a link.
pub record Report (F32 : Type 0) : Type 0 where
  pub to : ℕ
  pub etx : F32
  pub now_ms : ℕ
  pub source : EdgeSource
  pub update_timestamp : Bool
  pub heard_on : ℕ

-- The class of a node, by what is reported of it, or else by what it can be reached through.
abbrev pub class_or_bootstrap : EdgeStore → ℕ → ℕ → NodeClass
class_or_bootstrap s node_id my_node =
    let class = classify_candidate s node_id my_node in
    if same_class class unknown then bootstrap_class_from_reachability s node_id my_node else class

-- Whether links are taken from `from`, with the store, to which a placeholder is added.
unfoldable pub admit : EdgeStore → ℕ → ℕ → ℕ → Option EdgeStore
unfolding is_placeholder_node find_or_create_node is_our_direct_neighbor reachable_via_neighbor
    classify_candidate bootstrap_class_from_reachability
admit s from now_ms my_node =
    if from == my_node || is_some (find_node s from)
    then some s
    else if is_placeholder_node from
    then some (or_unchanged (find_or_create_node s from now_ms my_node) s)
    else if not (is_our_direct_neighbor s from my_node) && not (reachable_via_neighbor s from)
    then none
    else if class_within_depth (class_or_bootstrap s from my_node)
    then some s
    else none

-- The class of the node behind our own link, or of the node that reports it.
unfoldable pub reclass : EdgeStore → ℕ → ℕ → ℕ → ℕ → EdgeSource → EdgeStore
unfolding find_or_create_node set_l1 set_node_class classify_candidate
    bootstrap_class_from_reachability
reclass s from to now_ms my_node source =
    let added = or_unchanged (find_or_create_node s to now_ms my_node) s in
    let class = class_or_bootstrap s from my_node in
    if from == my_node
    then (if is_reported source then set_l1 added to else added)
    else if same_class class unknown
    then s
    else set_node_class s from class (hint_of s from)

abbrev pub stamped : Bool → ℕ → NodeEdges → NodeEdges
stamped update_timestamp now_ms n =
    if update_timestamp then record n { last_full_update_ms = now_ms } else n

module _ (fl : Float32) where
  open fl use {F32, lt, add, sub, div, abs, whole, half, least, is_finite, le}

  abbrev pub fresh_edge : Report F32 → Edge
  fresh_edge r = record {
    to = r.to;
    etx_fixed = etx_to_fixed fl r.etx;
    last_update_ms = r.now_ms;
    etx_variance = 0;
    source = r.source;
    hears_us = false;
    heard_on = r.heard_on;
    last_heard_ms = 0;
  }

  abbrev pub dated : Report F32 → Edge → Edge
  dated r e = if r.update_timestamp then record e { last_update_ms = r.now_ms } else e

  abbrev pub varied : Report F32 → F32 → Edge → Edge
  varied r abs_change e = if is_reported r.source then update_etx_variance fl e abs_change else e

  abbrev pub sourced : Report F32 → Edge → Edge
  sourced r e =
      if is_reported r.source
      then record e { source = r.source; heard_on = r.heard_on }
      else record e { source = r.source }

  -- A known edge: no source of a lower rank changes it.
  abbrev pub change_known : Report F32 → Edge → Change × Edge
  change_known r e =
      let abs_change = abs (sub r.etx (edge_etx fl e)) in
      let significant = lt (add half (etx_variance_f fl e)) abs_change in
      let changed = sourced r (varied r abs_change (dated r (set_etx fl e r.etx))) in
      if ltb (source_rank r.source) (source_rank e.source)
      then (no_change, e)
      else (if significant then significant_change else no_change, changed)

  -- The loop that looks for the edge of the highest score, from index `i` on, among those whose
  -- source has no higher rank.
  unfoldable pub worst_from : Report F32 → List Edge → ℕ → Option ℕ → F32 → Option ℕ × F32
  worst_from r [] i worst_idx worst_score = (worst_idx, worst_score)
  worst_from r (e ∷ rest) i worst_idx worst_score =
      let age_s = div (whole (wrapping_sub r.now_ms e.last_update_ms)) (whole 1000) in
      let score = add (edge_etx fl e) (div age_s (whole 300)) in
      let worse = not (ltb (source_rank r.source) (source_rank e.source)) && lt worst_score score in
      worst_from r rest (i + 1) (if worse then some i else worst_idx)
        (if worse then score else worst_score)

  -- A full node: the new edge takes the place of the worst one, if it is cheaper.
  abbrev pub replace_worst : Report F32 → List Edge → Option ℕ × F32 → Change × List Edge
  replace_worst r edges (none, worst_score) = (no_change, edges)
  replace_worst r edges (some i, worst_score) =
      if le worst_score r.etx then (no_change, edges) else (new_edge, set edges i (fresh_edge r))

  unfoldable pub enter : Report F32 → List Edge → Change × List Edge
  enter r edges = elim (position (leads_to_node r.to) edges) [
    | some i ↦
        let (change, e) = change_known r (get_or edges i blank_edge) in (change, set edges i e)
    | none ↦
        if ltb (length edges) max_edges_per_node
        then (new_edge, edges ++ (fresh_edge r ∷ []))
        else replace_worst r edges (worst_from r edges 0 none least)
  ]

  -- The edges of `from` with the report entered, where the node is found.
  unfoldable pub enter_at : Report F32 → EdgeStore → ℕ → Change × EdgeStore
  unfolding enter
  enter_at r s from = elim (find_node s from) [
    | none ↦ (no_change, s)
    | some n ↦
        let (change, edges) = enter r n.edges in
        (
          change,
          find_node_mut s from
              (λ m. record (stamped r.update_timestamp r.now_ms m) { edges = edges }),
        )
  ]

  unfoldable pub update_edge : EdgeStore → ℕ → ℕ → Report F32 → Change × EdgeStore
  update_edge s my_node from r =
      if r.to == 0 || (from == 0 || (from == r.to || (not (is_finite r.etx) || le r.etx (whole 0))))
      then (no_change, s)
      else elim (admit s from r.now_ms my_node) [
        | none ↦ (no_change, s)
        | some s1 ↦ elim (find_or_create_node s1 from r.now_ms my_node) [
          | none ↦ (no_change, s1)
          | some s2 ↦ enter_at r (reclass s2 from r.to r.now_ms my_node r.source) from
        ]
      ]
