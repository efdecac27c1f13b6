-- ===== src/Routing/Graph/Edge/Evict.antt =====
-- `EdgeStore` of crates/mesh-routing/src/graph/edge.rs: which node makes way for another one, and what
-- the downstream table keeps of it.
use meshrustic.Base.{
  ℕ, ◌+◌, Bool, true, false, not, ◌&&◌, ◌||◌, Option, none, some, List, [], ◌∷◌, ◌++◌, ◌==◌, ltb,
  if◌then◌else◌, length, get_or, is_some, wrapping_sub,
}
use meshrustic.Base.Float.{Float32}
use meshrustic.Routing.Graph.Downstream.{Table, update, update_listed, transfer_downstream}
use meshrustic.Routing.Graph.Edge.{
  Edge, NodeClass, unknown, l1, same_class, class_within_depth, eviction_rank, NodeEdges,
  PendingDemotion, max_graph_nodes,
}
use meshrustic.Routing.Graph.Edge.Store.{
  EdgeStore, find_node, find_node_mut, find_link, edges_of, hears_us_on, is_our_direct_neighbor,
  is_neighbor_link, set_node_class,
}
use meshrustic.Routing.Graph.Edge.Remove.{blank_node, remove_node_at}

pub record Candidate : Type 0 where
  pub idx : ℕ
  pub rank : ℕ
  pub edges : ℕ
  pub age : ℕ

abbrev pub is_better : Candidate → Candidate → Bool
is_better new best =
    ltb best.rank new.rank
    || (new.rank == best.rank
        && (ltb new.edges best.edges || (new.edges == best.edges && ltb best.age new.age)))

abbrev pub candidate_at : ℕ → ℕ → NodeEdges → Candidate
candidate_at now_ms i n = record {
  idx = i;
  rank = eviction_rank n.class;
  edges = length n.edges;
  age = wrapping_sub now_ms n.last_full_update_ms;
}

abbrev pub is_protected : ℕ → Bool → NodeEdges → Bool
is_protected my_node protect_l1 n =
    n.node_id == my_node
    || ((protect_l1 && same_class n.class l1) || (protect_l1 && eviction_rank n.class == 0))

-- The loop of `select_eviction_victim`, from index `i` on.
unfoldable pub victim_from : ℕ → Bool → ℕ → List NodeEdges → ℕ → Option Candidate → Option Candidate
victim_from my_node protect_l1 now_ms [] i best = best
victim_from my_node protect_l1 now_ms (n ∷ rest) i best =
    let new = candidate_at now_ms i n in
    let better : Bool = elim best [ none ↦ true | some b ↦ is_better new b ] in
    victim_from my_node protect_l1 now_ms rest (i + 1)
      (if not (is_protected my_node protect_l1 n) && better then some new else best)

unfoldable pub select_eviction_victim : EdgeStore → ℕ → Bool → ℕ → Option ℕ
select_eviction_victim s my_node protect_l1 now_ms =
    elim (victim_from my_node protect_l1 now_ms s.nodes 0 none) [
      | none ↦ none
      | some b ↦ some b.idx
    ]

-- The loop of `pick_l1_parent` over our links.
unfoldable pub parent_from : EdgeStore → ℕ → ℕ → List Edge → Option (ℕ × ℕ) → Option (ℕ × ℕ)
unfolding hears_us_on
parent_from s victim hint [] best = best
parent_from s victim hint (e ∷ rest) best =
    let knows = is_some (find_link s e.to victim) || (hears_us_on s victim e.to || hint == e.to) in
    let cheaper : Bool = elim best [ none ↦ true | some (_, c) ↦ ltb e.etx_fixed c ] in
    parent_from s victim hint rest
      (if is_neighbor_link e && (knows && cheaper) then some (e.to, e.etx_fixed) else best)

abbrev pub hint_of : EdgeStore → ℕ → ℕ
hint_of s node_id = elim (find_node s node_id) [ none ↦ 0 | some n ↦ n.parent_hint ]

unfoldable pub pick_l1_parent : EdgeStore → ℕ → ℕ → Option (ℕ × ℕ)
unfolding is_our_direct_neighbor
pick_l1_parent s victim my_node =
    let hint = hint_of s victim in
    if not (hint == 0) && is_our_direct_neighbor s hint my_node
    then some (hint, elim (find_link s my_node hint) [ none ↦ 200 | some e ↦ e.etx_fixed ])
    else parent_from s victim hint (edges_of s my_node) none

module _ (fl : Float32) where
  open fl use {div, whole}

  unfoldable pub apply_demotion : EdgeStore → ℕ → PendingDemotion → ℕ → Table → EdgeStore × Table
  unfolding hears_us_on
  apply_demotion s my_node d now_ms downstream =
      let cost = div (whole d.cost_fixed) (whole 100) in
      let entered =
        if hears_us_on s d.parent d.victim
        then update_listed fl downstream my_node d.victim d.parent cost now_ms false 0
        else update fl downstream my_node d.victim d.parent cost now_ms false 0 in
      (
        record s { pending_demotion = none },
        (transfer_downstream entered d.victim d.parent now_ms).1,
      )

  unfoldable pub flush_pending_demotion : EdgeStore → ℕ → ℕ → Table → EdgeStore × Table
  unfolding apply_demotion
  flush_pending_demotion s my_node now_ms downstream = elim s.pending_demotion [
    | none ↦ (s, downstream)
    | some d ↦ apply_demotion (record s { pending_demotion = none }) my_node d now_ms downstream
  ]

  -- With a downstream table: nothing goes if the victim has no parent to be reached through.
  unfoldable pub evict_with : EdgeStore → ℕ → ℕ → Table → Bool × EdgeStore × Table
  unfolding apply_demotion select_eviction_victim pick_l1_parent remove_node_at
  evict_with s now_ms my_node downstream = elim (select_eviction_victim s my_node true now_ms) [
    | none ↦ (false, s, downstream)
    | some idx ↦
        let victim = (get_or s.nodes idx blank_node).node_id in
        elim (pick_l1_parent s victim my_node) [
          | none ↦ (false, s, downstream)
          | some (parent, cost_fixed) ↦
              let d : PendingDemotion = record {
                victim = victim;
                parent = parent;
                cost_fixed = cost_fixed;
              } in
              let (s', downstream') = apply_demotion s my_node d now_ms downstream in
              (true, remove_node_at s' idx, downstream')
        ]
  ]

  unfoldable pub demote_for_capacity : EdgeStore → ℕ → ℕ → Table → Bool × EdgeStore × Table
  unfolding evict_with
  demote_for_capacity s now_ms my_node downstream = evict_with s now_ms my_node downstream

-- Without one: what has to be entered is kept for later.
unfoldable pub evict_without : EdgeStore → ℕ → ℕ → Option EdgeStore
unfolding select_eviction_victim pick_l1_parent remove_node_at
evict_without s now_ms my_node = elim (select_eviction_victim s my_node true now_ms) [
  | none ↦ none
  | some idx ↦
      let victim = (get_or s.nodes idx blank_node).node_id in
      let pending : Option PendingDemotion = elim (pick_l1_parent s victim my_node) [
        | none ↦ s.pending_demotion
        | some (parent, cost_fixed) ↦
            some (record { victim = victim; parent = parent; cost_fixed = cost_fixed })
      ] in
      some (remove_node_at (record s { pending_demotion = pending }) idx)
]

abbrev pub appended : EdgeStore → ℕ → ℕ → NodeClass → ℕ → EdgeStore
appended s node_id now_ms class parent_hint = record s {
  nodes =
      s.nodes
      ++ (record {
        node_id = node_id;
        last_full_update_ms = now_ms;
        class = class;
        parent_hint = parent_hint;
        edges = [];
      }
          ∷ []);
}

-- The store with a node of this id, or nothing if there is no room for one.
unfoldable pub find_or_create_node : EdgeStore → ℕ → ℕ → ℕ → Option EdgeStore
unfolding evict_without
find_or_create_node s node_id now_ms my_node =
    let class = if node_id == my_node then l1 else unknown in
    if is_some (find_node s node_id)
    then some s
    else if ltb (length s.nodes) max_graph_nodes
    then some (appended s node_id now_ms class 0)
    else elim (evict_without s now_ms my_node) [
      | none ↦ none
      | some s' ↦ some (appended s' node_id now_ms class 0)
    ]

-- A result that the code throws away.
abbrev pub or_unchanged : Option EdgeStore → EdgeStore → EdgeStore
or_unchanged none s = s
or_unchanged (some s') s = s'

unfoldable pub ensure_local_node : EdgeStore → ℕ → ℕ → EdgeStore
unfolding find_or_create_node
ensure_local_node s my_node now_ms =
    if is_some (find_node s my_node)
    then s
    else or_unchanged (find_or_create_node s my_node now_ms my_node) s

unfoldable pub ensure_publisher :
    Float32 → EdgeStore → ℕ → NodeClass → ℕ → ℕ → ℕ → Table → Bool × EdgeStore × Table
unfolding evict_with set_node_class
ensure_publisher fl s node_id class parent_hint now_ms my_node downstream =
    if node_id == 0 || node_id == my_node
    then (true, s, downstream)
    else if not (class_within_depth class)
    then (false, s, downstream)
    else if is_some (find_node s node_id)
    then (
      true,
      find_node_mut (set_node_class s node_id class parent_hint) node_id
          (λ n. record n { last_full_update_ms = now_ms }),
      downstream,
    )
    else if ltb (length s.nodes) max_graph_nodes
    then (true, appended s node_id now_ms class parent_hint, downstream)
    else let (went, s', downstream') = evict_with fl s now_ms my_node downstream in
      if went
      then (true, appended s' node_id now_ms class parent_hint, downstream')
      else (false, s', downstream')
