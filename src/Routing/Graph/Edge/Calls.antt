-- ===== src/Routing/Graph/Edge/Calls.antt =====
-- The operations of crates/mesh-routing/src/graph/edge.rs that call others keep what a graph is made of.
use meshrustic.Base.{
  ℕ, ◌≡◌, ◌≢◌, refl, sym, ◌∙◌, subst, Bool, true, false, not, ◌||◌, Option, none, some, List, [],
  ◌∷◌, ◌==◌, if◌then◌else◌, if-true, if-false, is_some, inl, inr, Bool-cases, Option-cases, arith,
}
use meshrustic.Base.Float.{Float32}
use meshrustic.Routing.Graph.Downstream.{Table}
use meshrustic.Routing.Graph.Placeholder.{is_placeholder_node}
use meshrustic.Routing.Graph.Edge.{NodeEdges, unknown, EdgeSource, is_reported, same_class}
use meshrustic.Routing.Graph.Edge.Store.{EdgeStore, find_node, set_node_class, set_l1}
use meshrustic.Routing.Graph.Edge.Remove.{remove_edge, remove_node, age_out}
use meshrustic.Routing.Graph.Edge.Evict.{
  pick_l1_parent, apply_demotion, find_or_create_node, or_unchanged, hint_of,
}
use meshrustic.Routing.Graph.Edge.Update.{
  Report, class_or_bootstrap, admit, reclass, stamped, enter, enter_at, update_edge,
}
use meshrustic.Routing.Graph.Edge.Prune.{
  ids, idx_of, reachable_from, doomed, drop_victim, drop_victims, prune_unreachable_from_root,
  remove_edge_and_prune, forgotten, age_edges_with, remove_all, age_edges_without,
}
use meshrustic.Routing.Graph.Edge.Inv.{IsLinks, IsNode, IsStore, update_found-IsNodes}
use meshrustic.Routing.Graph.Edge.Keep.{
  set_node_class-IsStore, set_l1-IsStore, remove_edge-IsStore, remove_node-IsStore, age_out-IsStore,
}
use meshrustic.Routing.Graph.Edge.Room.{or_unchanged-IsStore, find_or_create_node-IsStore}
use meshrustic.Routing.Graph.Edge.Enter.{enter-IsLinks}

if-IsStore : (b : Bool) (s t : EdgeStore) → IsStore s → IsStore t → IsStore (if b then s else t)
if-IsStore true s t hs ht = hs
if-IsStore false s t hs ht = ht

if-IsStore_with :
    (b : Bool) (s t : Bool × EdgeStore × Table)
    → IsStore s.1
    → IsStore t.1
    → IsStore (if b then s else t).1
if-IsStore_with true s t hs ht = hs
if-IsStore_with false s t hs ht = ht

remove_all-IsStore :
    (s : EdgeStore) (victims : List ℕ) (changed : Bool)
    → IsStore s
    → IsStore (remove_all s victims changed).1
unfolding remove_all
remove_all-IsStore s [] changed ok = ok
remove_all-IsStore s (v ∷ rest) changed ok =
    let (removed, s') = remove_node s v in
    remove_all-IsStore s' rest (removed || changed) (remove_node-IsStore s v ok)

pub age_edges_without-IsStore :
    (s : EdgeStore) (my_node now_ms ttl_ms : ℕ)
    → IsStore s
    → IsStore (age_edges_without s my_node now_ms ttl_ms).1
unfolding age_edges_without
age_edges_without-IsStore s my_node now_ms ttl_ms ok =
    let (went, s1) = age_out s now_ms ttl_ms in
    remove_all-IsStore s1 (forgotten s1 my_node now_ms ttl_ms s1.nodes 0) went
      (age_out-IsStore s now_ms ttl_ms ok)

reclass-IsStore :
    (s : EdgeStore) (from to now_ms my_node : ℕ) (source : EdgeSource)
    → IsStore s
    → to ≢ 0
    → IsStore (reclass s from to now_ms my_node source)
unfolding reclass
reclass-IsStore s from to now_ms my_node source ok named =
    let made = or_unchanged-IsStore s to now_ms my_node ok named in
    let added = or_unchanged (find_or_create_node s to now_ms my_node) s in
    let class = class_or_bootstrap s from my_node in
    let kept = set_node_class s from class (hint_of s from) in
    if-IsStore (from == my_node) _ _
      (if-IsStore (is_reported source) (set_l1 added to) added (set_l1-IsStore added to made) made)
      (if-IsStore (same_class class unknown) s kept ok
        (set_node_class-IsStore s from class (hint_of s from) ok))

admit-IsStore :
    (s s' : EdgeStore) (from now_ms my_node : ℕ)
    → IsStore s
    → from ≢ 0
    → admit s from now_ms my_node ≡ some s'
    → IsStore s'
unfolding admit
admit-IsStore s s' from now_ms my_node ok named h =
    let known = from == my_node || is_some (find_node s from) in
    elim (Bool-cases known) [
      | inl at_hand ↦ subst IsStore (some_eq (sym (if-true _ _ at_hand) ∙ h)) ok
      | inr foreign ↦ elim (Bool-cases (is_placeholder_node from)) [
        | inl placeholder ↦
            subst IsStore (some_eq (sym (if-true _ _ placeholder) ∙ sym (if-false _ _ foreign) ∙ h))
              (or_unchanged-IsStore s from now_ms my_node ok named)
        | inr real ↦
            let last = sym (if-false _ _ real) ∙ sym (if-false _ _ foreign) ∙ h in
            subst IsStore (else_none _ (none_then _ _ last)) ok
      ]
    ]
  where
    none_then : (b : Bool) (x : Option EdgeStore) → (if b then none else x) ≡ some s' → x ≡ some s'
    none_then true x e = absurd (cc)
    none_then false x e = e

    else_none : (b : Bool) → (if b then some s else none) ≡ some s' → s ≡ s'
    else_none true e = cc
    else_none false e = absurd (cc)

    some_eq : {a b : EdgeStore} → some a ≡ some b → a ≡ b
    some_eq e = cc

stamped-id : (b : Bool) (now_ms : ℕ) (n : NodeEdges) → (stamped b now_ms n).node_id ≡ n.node_id
stamped-id true now_ms n = refl
stamped-id false now_ms n = refl

module _ (fl : Float32) where
  open fl use {F32, is_finite, le, whole}

  drop_victim-IsStore :
      (s : EdgeStore) (my_node now_ms : ℕ) (downstream : Table) (victim : ℕ)
      → IsStore s
      → IsStore (drop_victim fl s my_node now_ms downstream victim).1
  unfolding drop_victim apply_demotion IsStore
  drop_victim-IsStore s my_node now_ms downstream victim ok =
      elim (Option-cases (pick_l1_parent s victim my_node)) [
        | inl orphan ↦ rw (orphan, drop_victim) (remove_node-IsStore s victim ok)
        | inr ((parent, cost), behind) ↦ rw (behind, drop_victim) (remove_node-IsStore _ victim ok)
      ]

  pub drop_victims-IsStore :
      (s : EdgeStore) (my_node now_ms : ℕ) (downstream : Table) (victims : List ℕ) (changed : Bool)
      → IsStore s
      → IsStore (drop_victims fl s my_node now_ms downstream victims changed).1
  unfolding drop_victims
  drop_victims-IsStore s my_node now_ms downstream [] changed ok = ok
  drop_victims-IsStore s my_node now_ms downstream (v ∷ rest) changed ok =
      let (removed, s', downstream') = drop_victim fl s my_node now_ms downstream v in
      drop_victims-IsStore s' my_node now_ms downstream' rest (removed || changed)
        (drop_victim-IsStore s my_node now_ms downstream v ok)

  pub prune_unreachable_from_root-IsStore :
      (s : EdgeStore) (my_node now_ms : ℕ) (downstream : Table)
      → IsStore s
      → IsStore (prune_unreachable_from_root fl s my_node now_ms downstream).1
  unfolding prune_unreachable_from_root
  prune_unreachable_from_root-IsStore s my_node now_ms downstream ok =
      elim (Option-cases (idx_of (ids s.nodes) my_node)) [
        | inl gone ↦ rw (gone, prune_unreachable_from_root) ok
        | inr (root, found) ↦
            rw (found, prune_unreachable_from_root)
              (drop_victims-IsStore s my_node now_ms downstream
                (doomed (ids s.nodes) (reachable_from s.nodes root my_node) my_node) false ok)
      ]

  pub remove_edge_and_prune-IsStore :
      (s : EdgeStore) (from to my_node now_ms : ℕ) (downstream : Table)
      → IsStore s
      → IsStore (remove_edge_and_prune fl s from to my_node now_ms downstream).1
  unfolding remove_edge_and_prune
  remove_edge_and_prune-IsStore s from to my_node now_ms downstream ok =
      let ok' = remove_edge-IsStore s from to ok in
      elim (Bool-cases (remove_edge s from to).0) [
        | inl removed ↦
            rw (removed, remove_edge_and_prune)
              (prune_unreachable_from_root-IsStore _ my_node now_ms downstream ok')
        | inr nothing ↦ rw (nothing, remove_edge_and_prune) ok'
      ]

  pub age_edges_with-IsStore :
      (s : EdgeStore) (my_node now_ms ttl_ms : ℕ) (downstream : Table)
      → IsStore s
      → IsStore (age_edges_with fl s my_node now_ms ttl_ms downstream).1
  unfolding age_edges_with
  age_edges_with-IsStore s my_node now_ms ttl_ms downstream ok =
      let (went, s1) = age_out s now_ms ttl_ms in
      let victims = forgotten s1 my_node now_ms ttl_ms s1.nodes 0 in
      let (changed, s2, downstream2) = drop_victims fl s1 my_node now_ms downstream victims went in
      let aged = age_out-IsStore s now_ms ttl_ms ok in
      let dropped = drop_victims-IsStore s1 my_node now_ms downstream victims went aged in
      if-IsStore_with changed _ _
        (prune_unreachable_from_root-IsStore s2 my_node now_ms downstream2 dropped) dropped

  enter_at-IsStore :
      (r : Report F32) (s : EdgeStore) (from : ℕ)
      → IsStore s
      → r.to ≢ 0
      → from ≢ r.to
      → IsStore (enter_at fl r s from).1
  unfolding enter_at IsStore IsNode
  enter_at-IsStore r s from ok named away = elim (Option-cases (find_node s from)) [
    | inl gone ↦ rw (gone, enter_at) ok
    | inr (n, found) ↦
        let edges = (enter fl r n.edges).1 in
        rw (found, enter_at)
          (update_found-IsNodes from
            (λ m. record (stamped r.update_timestamp r.now_ms m) { edges = edges }) s.nodes n found
            (λ m. stamped-id r.update_timestamp r.now_ms m) (λ fine at. links_at n fine at) ok)
  ]
    where
      links_at :
          (n : NodeEdges)
          → IsLinks n.node_id n.edges
          → n.node_id ≡ from
          → IsLinks (stamped r.update_timestamp r.now_ms n).node_id (enter fl r n.edges).1
      links_at n fine at =
          subst (λ i. IsLinks i (enter fl r n.edges).1)
            (sym (stamped-id r.update_timestamp r.now_ms n))
            (enter-IsLinks fl r n.node_id n.edges fine named (λ e. away (sym at ∙ sym e)))

  pub update_edge-IsStore :
      (s : EdgeStore) (my_node from : ℕ) (r : Report F32)
      → IsStore s
      → IsStore (update_edge fl s my_node from r).1
  unfolding update_edge
  update_edge-IsStore s my_node from r ok =
      elim (Bool-cases (
        r.to == 0
        || (from == 0 || (from == r.to || (not (is_finite r.etx) || le r.etx (whole 0)))))) [
          | inl refused ↦ rw (refused, update_edge) ok
          | inr good ↦ elim (Option-cases (admit s from r.now_ms my_node)) [
            | inl foreign ↦ rw (good, foreign, update_edge) ok
            | inr (s1, admitted) ↦
                let from_named : from ≢ 0 = ground arith in
                let ok1 = admit-IsStore s s1 from r.now_ms my_node ok from_named admitted in
                elim (find_or_create_node-IsStore s1 from r.now_ms my_node ok1 from_named) [
                  | inl stuck ↦ rw (good, admitted, stuck, update_edge) ok1
                  | inr (s2, made, ok2) ↦
                      rw (good, admitted, made, update_edge)
                        (enter_at-IsStore r (reclass s2 from r.to r.now_ms my_node r.source) from
                          (reclass-IsStore s2 from r.to r.now_ms my_node r.source ok2
                            (ground arith))
                          (ground arith) (ground arith))
                ]
          ]
        ]
