-- ===== src/Routing/Graph/Edge/Tests.antt =====
-- Runs of the graph of nodes and links at concrete inputs.
use meshrustic.Base.{
  ℕ, zero, suc, ◌≡◌, ◌↔◌, refl, true, false, List, [], ◌∷◌, get_or, retain, compact_from,
  swap_remove, arith,
}
use meshrustic.Base.Float.Percent.{percent}
use meshrustic.Routing.Graph.Edge.{
  Edge, NodeEdges, reported, inferred, etx_to_fixed, update_etx_variance,
  silence_etx_fixed_from_age, silence_variance_byte_from_age, new_edge, no_change,
}
use meshrustic.Routing.Graph.Edge.Store.{
  EdgeStore, new, set_node_class, set_l1, is_our_direct_neighbor, has_direct_reported_edge_to,
  reachable_via_neighbor, hears_us_on, classify_candidate, bootstrap_class_from_reachability,
}
use meshrustic.Routing.Graph.Edge.Remove.{blank_edge, blank_node, retain_edges, remove_edge}
use meshrustic.Routing.Graph.Edge.Evict.{
  victim_from, select_eviction_victim, parent_from, pick_l1_parent, evict_without,
  find_or_create_node, ensure_local_node,
}
use meshrustic.Routing.Graph.Edge.Update.{
  Report, admit, reclass, worst_from, enter, enter_at, update_edge,
}
use meshrustic.Routing.Graph.Edge.Prune.{
  ids, mark, offer, offer_links, offer_back, round, flood, reachable_from,
}
use meshrustic.Routing.Graph.Edge.Neighbours.{IsDistinct}
use meshrustic.Routing.Graph.Edge.Linked.{Linked, reachable_from_lem}
use meshrustic.Routing.Graph.Edge.Inv.{IsStore}
use meshrustic.Routing.Graph.Edge.Reach.{fresh, next, local, updated, Reach-IsStore}
use meshrustic.Routing.Graph.Placeholder.{is_placeholder_node}

program : Unit {0}
unfolding etx_to_fixed update_etx_variance silence_etx_fixed_from_age silence_variance_byte_from_age
    new set_node_class set_l1 is_our_direct_neighbor has_direct_reported_edge_to
    reachable_via_neighbor hears_us_on classify_candidate bootstrap_class_from_reachability
    victim_from select_eviction_victim parent_from pick_l1_parent evict_without find_or_create_node
    ensure_local_node admit reclass worst_from enter enter_at update_edge is_placeholder_node
    retain_edges remove_edge retain compact_from swap_remove mark offer offer_links offer_back round
    flood reachable_from
program = tt

-- We hear node `to` at the price 2.
abbrev heard : ℕ → ℕ → Report ℕ
heard to now_ms = record {
  to = to;
  etx = 2;
  now_ms = now_ms;
  source = reported;
  update_timestamp = true;
  heard_on = 1;
}

-- Our own node is 1, and it hears 2.
abbrev ours : EdgeStore
ours = (update_edge percent (ensure_local_node new 1 100) 1 1 (heard 2 200)).1

heard_is_new : (update_edge percent (ensure_local_node new 1 100) 1 1 (heard 2 200)).0 ≡ new_edge
unfolding program
heard_is_new = refl

both_known : ids ours.nodes ≡ 1 ∷ 2 ∷ []
unfolding program
both_known = refl

-- The source's rule: an inferred link does not change what has been reported.
weaker :
    (update_edge percent ours 1 1 (record (heard 2 300) { etx = 9; source = inferred })).0
    ≡ no_change
unfolding program
weaker = refl

-- A node that nobody links to is not taken in.
stranger : (update_edge percent ours 1 7 (heard 8 300)).1 ≡ ours
unfolding program
stranger = refl

gone : (remove_edge ours 1 2).0 ≡ true
unfolding program
gone = refl

-- 0, ¼, …: the silence of a link is priced by its age, up to 12.75.
silence : silence_etx_fixed_from_age 150 100 ≡ 325
unfolding program
silence = refl

Reach-IsStore_example :
    IsStore (update_edge percent (ensure_local_node new 1 100) 1 1 (heard 2 200)).1
Reach-IsStore_example =
    Reach-IsStore percent
      (next (next fresh (local 1 100 (omega arith))) (updated 1 1 (heard 2 200)))

-- 1 links to 2, 3 links to 2, and 4 is alone.
abbrev node : ℕ → List Edge → NodeEdges
node id edges = record blank_node { node_id = id; edges = edges }

abbrev four : List NodeEdges
four =
    node 1 (record blank_edge { to = 2 } ∷ [])
    ∷ node 2 []
    ∷ node 3 (record blank_edge { to = 2 } ∷ [])
    ∷ node 4 (record blank_edge { to = 9 } ∷ [])
    ∷ []

flags : reachable_from four 0 1 ≡ true ∷ true ∷ true ∷ false ∷ []
unfolding program
flags = refl

four-IsDistinct : IsDistinct four
unfolding IsDistinct
four-IsDistinct zero lt = refl
four-IsDistinct (suc zero) lt = refl
four-IsDistinct (suc (suc zero)) lt = refl
four-IsDistinct (suc (suc (suc zero))) lt = refl
four-IsDistinct (suc (suc (suc (suc k)))) lt = absurd (omega arith)

reachable_from_lem_example :
    (get_or (reachable_from four 0 1) 3 false ≡ true)
    ↔ Linked four 1 (get_or four 3 blank_node).node_id
reachable_from_lem_example =
    reachable_from_lem four 1 0 3 four-IsDistinct (omega arith) refl (omega arith)
