-- ===== src/Routing/Graph/Edge/Keep.antt =====
-- The operations of crates/mesh-routing/src/graph/edge.rs on nodes and links at hand keep what a graph
-- is made of.
use meshrustic.Base.{
  ℕ, suc, ◌≡◌, ◌⊎◌, refl, ap, Bool, true, false, not, ◌&&◌, ◌||◌, List, [], ◌∷◌, map, ◌==◌, length,
  position, position_sound, update_first, length-update_first, count_if-map_same,
  count_if-update_first_same, is_some, inl, inr, Bool-cases, Option-cases, arith,
}
use meshrustic.Routing.Graph.Edge.{
  Edge, NodeEdges, NodeClass, l1, same_class, leads_to_node, find_edge_mut,
}
use meshrustic.Routing.Graph.Edge.Store.{
  EdgeStore, has_id, find_node, find_node_mut, with_parent, classed, set_node_class, set_l1,
  set_edge_hears_us, update_node_activity,
}
use meshrustic.Routing.Graph.Edge.Remove.{
  blank_node, retain_edges, stays_listed, retain_listed_edges, unheard, clear_hears_us_at,
  clear_hears_us_to_unlisted, remove_node_edges_to, remove_edge, remove_node, is_fresh, age_out,
}
use meshrustic.Routing.Graph.Edge.Inv.{
  IsLinks, IsNode, IsStore, is_bad_link, retain-IsLinks, update_first-IsNodes, map-IsNodes,
  swap_remove-IsNodes,
}

-- A node with another class, hint or stamp.
class-cases : (a b : NodeClass) → (same_class a b ≡ true) ⊎ (same_class a b ≡ false)
class-cases a b = Bool-cases (same_class a b)

with_parent-same :
    (hint : ℕ) (n : NodeEdges)
    → ((with_parent hint n).node_id ≡ n.node_id) × ((with_parent hint n).edges ≡ n.edges)
with_parent-same hint n = elim (Bool-cases (hint == 0)) [
  | inl unset ↦ rw (unset) (refl, refl)
  | inr given ↦ rw (given) (refl, refl)
]

classed-same :
    (class : NodeClass) (hint : ℕ) (n : NodeEdges)
    → ((classed class hint n).node_id ≡ n.node_id) × ((classed class hint n).edges ≡ n.edges)
classed-same class hint n = elim (Bool-cases (same_class n.class l1 && not (same_class class l1))) [
  | inl first ↦ rw (first, classed) (with_parent-same hint n)
  | inr other ↦ rw (other, classed) (with_parent-same hint (record n { class = class }))
]

IsNode-same : (n m : NodeEdges) → m.node_id ≡ n.node_id → m.edges ≡ n.edges → IsNode n → IsNode m
unfolding IsNode
IsNode-same n m id links ok = rw (id, links, IsNode) ok

pub set_node_class-IsStore :
    (s : EdgeStore) (node_id : ℕ) (class : NodeClass) (hint : ℕ)
    → IsStore s
    → IsStore (set_node_class s node_id class hint)
unfolding set_node_class IsStore
set_node_class-IsStore s node_id class hint ok =
    update_first-IsNodes node_id (classed class hint) s.nodes (λ n. (classed-same class hint n).0)
      (λ n fine. IsNode-same n _ (classed-same class hint n).0 (classed-same class hint n).1 fine)
      ok

pub set_l1-IsStore : (s : EdgeStore) (node_id : ℕ) → IsStore s → IsStore (set_l1 s node_id)
unfolding set_l1 IsStore IsNode
set_l1-IsStore s node_id ok =
    update_first-IsNodes node_id (λ n. record n { class = l1; parent_hint = 0 }) s.nodes (λ n. refl)
      (λ n fine. fine) ok

pub update_node_activity-IsStore :
    (s : EdgeStore) (node_id now_ms my_node : ℕ)
    → IsStore s
    → IsStore (update_node_activity s node_id now_ms my_node).1
unfolding update_node_activity IsStore IsNode
update_node_activity-IsStore s node_id now_ms my_node ok =
    elim (Bool-cases (node_id == 0 || node_id == my_node)) [
      | inl refused ↦ rw (refused) ok
      | inr named ↦ elim (Bool-cases (is_some (find_node s node_id))) [
        | inl there ↦
            rw (named, there)
              (update_first-IsNodes node_id (λ n. record n { last_full_update_ms = now_ms }) s.nodes
                (λ n. refl) (λ n fine. fine) ok)
        | inr gone ↦ rw (named, gone) ok
      ]
    ]

-- A change of the links in place that keeps where they lead and what they cost.
map-IsLinks :
    (f : Edge → Edge) (node_id : ℕ) (es : List Edge)
    → ((e : Edge) → ((f e).to ≡ e.to) × ((f e).etx_fixed ≡ e.etx_fixed))
    → IsLinks node_id es
    → IsLinks node_id (map f es)
map-IsLinks f node_id es same ok = record {
  few = omega (arith, length-map f es, ok.few);
  single = λ to. omega (
    arith,
    count_if-map_same (leads_to_node to) f es (λ e. ap (λ t. t == to) (same e).0),
    ok.single to,
  );
  outward = omega (
    arith,
    count_if-map_same (leads_to_node node_id) f es (λ e. ap (λ t. t == node_id) (same e).0),
    ok.outward,
  );
  sound = omega (
    arith,
    count_if-map_same is_bad_link f es (λ e. bad_same e (f e) (same e).0 (same e).1),
    ok.sound,
  );
}
  where
    length-map : (f : Edge → Edge) (es : List Edge) → length (map f es) ≡ length es
    length-map f [] = refl
    length-map f (e ∷ es) = ap suc (length-map f es)

    bad_same :
        (e d : Edge) → d.to ≡ e.to → d.etx_fixed ≡ e.etx_fixed → is_bad_link d ≡ is_bad_link e
    bad_same e d to cost = rw (to, cost) refl

update_first-IsLinks :
    (to : ℕ) (f : Edge → Edge) (node_id : ℕ) (es : List Edge)
    → ((e : Edge) → (f e).to ≡ e.to)
    → ((e : Edge) → is_bad_link (f e) ≡ is_bad_link e)
    → IsLinks node_id es
    → IsLinks node_id (update_first (leads_to_node to) f es)
update_first-IsLinks to f node_id es same same_cost ok = record {
  few = omega (arith, length-update_first (leads_to_node to) f es, ok.few);
  single = λ v. omega (
    arith,
    count_if-update_first_same (leads_to_node v) (leads_to_node to) f es
        (λ e. ap (λ t. t == v) (same e)),
    ok.single v,
  );
  outward = omega (
    arith,
    count_if-update_first_same (leads_to_node node_id) (leads_to_node to) f es
        (λ e. ap (λ t. t == node_id) (same e)),
    ok.outward,
  );
  sound =
      omega
        (arith, count_if-update_first_same is_bad_link (leads_to_node to) f es same_cost, ok.sound);
}

pub set_edge_hears_us-IsStore :
    (s : EdgeStore) (from to : ℕ) (hears_us : Bool)
    → IsStore s
    → IsStore (set_edge_hears_us s from to hears_us)
unfolding set_edge_hears_us IsStore IsNode
set_edge_hears_us-IsStore s from to hears_us ok =
    let change = λ (e : Edge). record e { hears_us = hears_us } in
    update_first-IsNodes from (λ n. find_edge_mut n to change) s.nodes (λ n. refl)
      (λ n fine. update_first-IsLinks to change n.node_id n.edges (λ e. refl) (λ e. refl) fine) ok

pub clear_hears_us_to_unlisted-IsStore :
    (s : EdgeStore) (sender : ℕ) (listed_ids : List ℕ)
    → IsStore s
    → IsStore (clear_hears_us_to_unlisted s sender listed_ids)
unfolding clear_hears_us_to_unlisted IsStore IsNode
clear_hears_us_to_unlisted-IsStore s sender listed_ids ok =
    map-IsNodes (clear_hears_us_at sender listed_ids) s.nodes id_same links_kept ok
  where
    unheard-same :
        (here : Bool) (e : Edge)
        → ((unheard sender here e).to ≡ e.to) × ((unheard sender here e).etx_fixed ≡ e.etx_fixed)
    unheard-same here e = elim (Bool-cases (e.to == sender && (e.hears_us && not here))) [
      | inl hit ↦ rw (hit, unheard) (refl, refl)
      | inr miss ↦ rw (miss, unheard) (refl, refl)
    ]

    id_same : (n : NodeEdges) → (clear_hears_us_at sender listed_ids n).node_id ≡ n.node_id
    id_same n = elim (Bool-cases (n.node_id == sender)) [
      | inl own ↦ rw (own, clear_hears_us_at) refl
      | inr other ↦ rw (other, clear_hears_us_at) refl
    ]

    links_kept : (n : NodeEdges) → IsNode n → IsNode (clear_hears_us_at sender listed_ids n)
    links_kept n fine = elim (Bool-cases (n.node_id == sender)) [
      | inl own ↦ rw (own, clear_hears_us_at) fine
      | inr other ↦
          rw (other, clear_hears_us_at) (map-IsLinks _ n.node_id n.edges (unheard-same _) fine)
    ]

retain_edges-IsNode : (keep : Edge → Bool) (n : NodeEdges) → IsNode n → IsNode (retain_edges keep n)
unfolding retain_edges IsNode
retain_edges-IsNode keep n fine = retain-IsLinks keep n.node_id n.edges fine

retain_edges-id : (keep : Edge → Bool) (n : NodeEdges) → (retain_edges keep n).node_id ≡ n.node_id
unfolding retain_edges
retain_edges-id keep n = refl

retain_at-IsStore :
    (s : EdgeStore) (node_id : ℕ) (keep : Edge → Bool)
    → IsStore s
    → IsStore (find_node_mut s node_id (retain_edges keep))
unfolding IsStore
retain_at-IsStore s node_id keep ok =
    update_first-IsNodes node_id (retain_edges keep) s.nodes (retain_edges-id keep)
      (retain_edges-IsNode keep) ok

pub retain_listed_edges-IsStore :
    (s : EdgeStore) (sender : ℕ) (listed_ids : List ℕ)
    → IsStore s
    → IsStore (retain_listed_edges s sender listed_ids).1
unfolding retain_listed_edges
retain_listed_edges-IsStore s sender listed_ids ok = elim (Option-cases (find_node s sender)) [
  | inl gone ↦ rw (gone, retain_listed_edges) ok
  | inr (n, there) ↦
      rw (there, retain_listed_edges) (retain_at-IsStore s sender (stays_listed listed_ids) ok)
]

pub remove_edge-IsStore :
    (s : EdgeStore) (from to : ℕ) → IsStore s → IsStore (remove_edge s from to).1
unfolding remove_edge
remove_edge-IsStore s from to ok = elim (Option-cases (find_node s from)) [
  | inl gone ↦ rw (gone, remove_edge) ok
  | inr (n, there) ↦ rw (there, remove_edge) (retain_at-IsStore s from (λ e. not (e.to == to)) ok)
]

pub remove_node_edges_to-IsStore :
    (s : EdgeStore) (removed : ℕ) → IsStore s → IsStore (remove_node_edges_to s removed)
unfolding remove_node_edges_to IsStore
remove_node_edges_to-IsStore s removed ok =
    let keep = λ (e : Edge). not (e.to == removed) in
    map-IsNodes (retain_edges keep) s.nodes (retain_edges-id keep) (retain_edges-IsNode keep) ok

pub remove_node-IsStore :
    (s : EdgeStore) (node_id : ℕ) → IsStore s → IsStore (remove_node s node_id).1
unfolding remove_node IsStore
remove_node-IsStore s node_id ok =
    let s' = remove_node_edges_to s node_id in
    let ok' = remove_node_edges_to-IsStore s node_id ok in
    elim (Bool-cases (node_id == 0)) [
      | inl nobody ↦ rw (nobody) ok
      | inr named ↦ elim (Option-cases (position (has_id node_id) s'.nodes)) [
        | inl gone ↦ rw (named, gone) ok'
        | inr (idx, found) ↦
            rw (named, found)
              (swap_remove-IsNodes idx s'.nodes (position_sound _ s'.nodes blank_node found).0 ok')
      ]
    ]

pub age_out-IsStore :
    (s : EdgeStore) (now_ms ttl_ms : ℕ) → IsStore s → IsStore (age_out s now_ms ttl_ms).1
unfolding age_out IsStore
age_out-IsStore s now_ms ttl_ms ok =
    let keep = is_fresh now_ms ttl_ms in
    map-IsNodes (retain_edges keep) s.nodes (retain_edges-id keep) (retain_edges-IsNode keep) ok
