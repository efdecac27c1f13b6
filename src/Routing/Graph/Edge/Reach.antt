-- ===== src/Routing/Graph/Edge/Reach.antt =====
-- The graphs that the operations of crates/mesh-routing/src/graph/edge.rs lead to.
use meshrustic.Base.{ℕ, ◌≢◌, Bool, List}
use meshrustic.Base.Float.{Float32}
use meshrustic.Routing.Graph.Downstream.{Table}
use meshrustic.Routing.Graph.Edge.{NodeClass}
use meshrustic.Routing.Graph.Edge.Store.{
  EdgeStore, new, clear, take_pending_demotion, set_node_class, set_l1, set_edge_hears_us,
  update_node_activity,
}
use meshrustic.Routing.Graph.Edge.Remove.{
  retain_listed_edges, clear_hears_us_to_unlisted, remove_edge, remove_node, remove_edges_to,
}
use meshrustic.Routing.Graph.Edge.Evict.{
  ensure_local_node, ensure_publisher, demote_for_capacity, flush_pending_demotion,
}
use meshrustic.Routing.Graph.Edge.Update.{Report, update_edge}
use meshrustic.Routing.Graph.Edge.Prune.{
  ids, prune_unreachable_from_root, remove_edge_and_prune, age_edges_with, age_edges_without,
}
use meshrustic.Routing.Graph.Edge.Inv.{IsStore, empty-IsNodes}
use meshrustic.Routing.Graph.Edge.Keep.{
  set_node_class-IsStore, set_l1-IsStore, set_edge_hears_us-IsStore, update_node_activity-IsStore,
  clear_hears_us_to_unlisted-IsStore, retain_listed_edges-IsStore, remove_edge-IsStore,
  remove_node-IsStore, remove_node_edges_to-IsStore,
}
use meshrustic.Routing.Graph.Edge.Room.{
  ensure_local_node-IsStore, demote_for_capacity-IsStore, flush_pending_demotion-IsStore,
  ensure_publisher-IsStore,
}
use meshrustic.Routing.Graph.Edge.Calls.{
  prune_unreachable_from_root-IsStore, remove_edge_and_prune-IsStore, age_edges_with-IsStore,
  update_edge-IsStore, age_edges_without-IsStore,
}

empty-IsStore : (s : EdgeStore) → IsStore (clear s)
unfolding IsStore
empty-IsStore s = empty-IsNodes

new-IsStore : IsStore new
unfolding IsStore new
new-IsStore = empty-IsNodes

pending-IsStore : (s : EdgeStore) → IsStore s → IsStore (take_pending_demotion s).1
unfolding IsStore
pending-IsStore s ok = ok

module _ (fl : Float32) where
  open fl use {F32}

  -- One operation on the graph. Nobody is node 0.
  pub data Step (s : EdgeStore) : EdgeStore → Type 0 where
    cleared : Step s (clear s)
    demotion_taken : Step s (take_pending_demotion s).1
    classed :
        (node_id : ℕ) (class : NodeClass) (hint : ℕ) → Step s (set_node_class s node_id class hint)
    made_neighbour : (node_id : ℕ) → Step s (set_l1 s node_id)
    published :
        (node_id : ℕ) (class : NodeClass) (hint now_ms my_node : ℕ) (downstream : Table)
        → Step s (ensure_publisher fl s node_id class hint now_ms my_node downstream).1
    flushed :
        (my_node now_ms : ℕ) (downstream : Table)
        → Step s (flush_pending_demotion fl s my_node now_ms downstream).0
    demoted :
        (now_ms my_node : ℕ) (downstream : Table)
        → Step s (demote_for_capacity fl s now_ms my_node downstream).1
    pruned :
        (my_node now_ms : ℕ) (downstream : Table)
        → Step s (prune_unreachable_from_root fl s my_node now_ms downstream).1
    link_removed : (from to : ℕ) → Step s (remove_edge s from to).1
    link_removed_and_pruned :
        (from to my_node now_ms : ℕ) (downstream : Table)
        → Step s (remove_edge_and_prune fl s from to my_node now_ms downstream).1
    updated : (my_node from : ℕ) (r : Report F32) → Step s (update_edge fl s my_node from r).1
    hearing_set : (from to : ℕ) (hears_us : Bool) → Step s (set_edge_hears_us s from to hears_us)
    listed : (sender : ℕ) (listed_ids : List ℕ) → Step s (retain_listed_edges s sender listed_ids).1
    unheard :
        (sender : ℕ) (listed_ids : List ℕ) → Step s (clear_hears_us_to_unlisted s sender listed_ids)
    aged :
        (my_node now_ms ttl_ms : ℕ) (downstream : Table)
        → Step s (age_edges_with fl s my_node now_ms ttl_ms downstream).1
    aged_alone : (my_node now_ms ttl_ms : ℕ) → Step s (age_edges_without s my_node now_ms ttl_ms).1
    links_removed : (target : ℕ) → Step s (remove_edges_to s target)
    removed : (node_id : ℕ) → Step s (remove_node s node_id).1
    local : (my_node now_ms : ℕ) → my_node ≢ 0 → Step s (ensure_local_node s my_node now_ms)
    active : (node_id now_ms my_node : ℕ) → Step s (update_node_activity s node_id now_ms my_node).1

  pub data Reach : EdgeStore → Type 0 where
    fresh : Reach new
    next : {s t : EdgeStore} → Reach s → Step s t → Reach t

  Step-IsStore : {s t : EdgeStore} → IsStore s → Step s t → IsStore t
  Step-IsStore {s} ok cleared = empty-IsStore s
  Step-IsStore {s} ok demotion_taken = pending-IsStore s ok
  Step-IsStore {s} ok (classed id class hint) = set_node_class-IsStore s id class hint ok
  Step-IsStore {s} ok (made_neighbour id) = set_l1-IsStore s id ok
  Step-IsStore {s} ok (published id class hint now me ds) =
      ensure_publisher-IsStore fl s id class hint now me ds ok
  Step-IsStore {s} ok (flushed me now ds) = flush_pending_demotion-IsStore fl s me now ds ok
  Step-IsStore {s} ok (demoted now me ds) = demote_for_capacity-IsStore fl s now me ds ok
  Step-IsStore {s} ok (pruned me now ds) = prune_unreachable_from_root-IsStore fl s me now ds ok
  Step-IsStore {s} ok (link_removed from to) = remove_edge-IsStore s from to ok
  Step-IsStore {s} ok (link_removed_and_pruned from to me now ds) =
      remove_edge_and_prune-IsStore fl s from to me now ds ok
  Step-IsStore {s} ok (updated me from r) = update_edge-IsStore fl s me from r ok
  Step-IsStore {s} ok (hearing_set from to hears) = set_edge_hears_us-IsStore s from to hears ok
  Step-IsStore {s} ok (listed sender ids) = retain_listed_edges-IsStore s sender ids ok
  Step-IsStore {s} ok (unheard sender ids) = clear_hears_us_to_unlisted-IsStore s sender ids ok
  Step-IsStore {s} ok (aged me now ttl ds) = age_edges_with-IsStore fl s me now ttl ds ok
  Step-IsStore {s} ok (aged_alone me now ttl) = age_edges_without-IsStore s me now ttl ok
  Step-IsStore {s} ok (links_removed target) = remove_node_edges_to-IsStore s target ok
  Step-IsStore {s} ok (removed id) = remove_node-IsStore s id ok
  Step-IsStore {s} ok (local me now named) = ensure_local_node-IsStore s me now ok named
  Step-IsStore {s} ok (active id now me) = update_node_activity-IsStore s id now me ok

  -- Whatever operations came before, where ours is not node 0 when it is entered, the graph has at most 32
  -- nodes, no two of one id and none of id 0;
  -- every node has at most 40 links, at most one to each node, none to itself or to node 0, and each
  -- costs from 100 to 65535.
  pub Reach-IsStore : {s : EdgeStore} → Reach s → IsStore s
  Reach-IsStore fresh = new-IsStore
  Reach-IsStore (next r st) = Step-IsStore (Reach-IsStore r) st
