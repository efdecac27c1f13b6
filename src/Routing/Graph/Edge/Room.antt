-- ===== src/Routing/Graph/Edge/Room.antt =====
-- Making room for a node, and taking nodes out with their entry in the downstream table
-- (crates/mesh-routing/src/graph/edge.rs), keep what a graph is made of.
use meshrustic.Base.{
  ℕ, ◌+◌, ◌≤◌, ◌<◌, ◌≡◌, ◌≢◌, ◌⊎◌, refl, sym, ap, ◌∙◌, subst, Bool, true, false, not, ◌&&◌, ◌||◌,
  Option, none, some, List, [], ◌∷◌, ◌==◌, ltb, if◌then◌else◌, if-true, if-false, length,
  length-swap_remove, get_or, find?, count_if, count_if-swap_remove, is_some, inl, inr, Bool-cases,
  Option-cases, swap_remove, arith,
}
use meshrustic.Base.Float.{Float32}
use meshrustic.Routing.Graph.Downstream.{Table}
use meshrustic.Routing.Graph.Edge.{
  NodeEdges, NodeClass, l1, unknown, class_within_depth, PendingDemotion,
}
use meshrustic.Routing.Graph.Edge.Store.{
  EdgeStore, has_id, find_node, find_node_mut, set_node_class,
}
use meshrustic.Routing.Graph.Edge.Remove.{blank_node, remove_node_at}
use meshrustic.Routing.Graph.Edge.Evict.{
  Candidate, is_better, candidate_at, is_protected, victim_from, select_eviction_victim,
  pick_l1_parent, apply_demotion, flush_pending_demotion, evict_with, evict_without,
  demote_for_capacity, appended, find_or_create_node, or_unchanged, ensure_local_node,
  ensure_publisher,
}
use meshrustic.Routing.Graph.Edge.Inv.{
  IsNode, IsStore, empty-IsLinks, append-IsNodes, swap_remove-IsNodes, update_first-IsNodes,
}
use meshrustic.Routing.Graph.Edge.Keep.{set_node_class-IsStore}

-- The victim is a node of the store.
victim_from-bound :
    (my_node : ℕ) (protect_l1 : Bool) (now_ms : ℕ) (nodes : List NodeEdges) (i bound : ℕ)
    (best : Option Candidate) (c : Candidate)
    → i + length nodes ≤ bound
    → ((b : Candidate) → best ≡ some b → b.idx < bound)
    → victim_from my_node protect_l1 now_ms nodes i best ≡ some c
    → c.idx < bound
unfolding victim_from
victim_from-bound my_node protect_l1 now_ms [] i bound best c le in_range h = in_range c h
victim_from-bound my_node protect_l1 now_ms (n ∷ rest) i bound best c le in_range h =
    let new = candidate_at now_ms i n in
    let better : Bool = elim best [ none ↦ true | some b ↦ is_better new b ] in
    elim (Bool-cases (not (is_protected my_node protect_l1 n) && better)) [
      | inl taken ↦
          victim_from-bound my_node protect_l1 now_ms rest (i + 1) bound (some new) c (omega arith)
            (λ b e. new_bound b e) (rw (taken) at h)
      | inr left ↦
          victim_from-bound my_node protect_l1 now_ms rest (i + 1) bound best c (omega arith)
            in_range (rw (left) at h)
    ]
  where
    new_bound : (b : Candidate) → some (candidate_at now_ms i n) ≡ some b → b.idx < bound
    new_bound b e =
        let same : candidate_at now_ms i n ≡ b = cc in
        let at = ap (λ (x : Candidate). x.idx) same in omega (arith, at)

victim-none :
    (s : EdgeStore) (my_node now_ms : ℕ)
    → victim_from my_node true now_ms s.nodes 0 none ≡ none
    → select_eviction_victim s my_node true now_ms ≡ none
unfolding select_eviction_victim
victim-none s my_node now_ms h = rw (h, select_eviction_victim) refl

victim-some :
    (s : EdgeStore) (my_node now_ms : ℕ) (c : Candidate)
    → victim_from my_node true now_ms s.nodes 0 none ≡ some c
    → select_eviction_victim s my_node true now_ms ≡ some c.idx
unfolding select_eviction_victim
victim-some s my_node now_ms c h = rw (h, select_eviction_victim) refl

no_candidate : (b : Candidate) → none ≡ some b → ⊥
no_candidate b e = ground arith

pub victim_bound :
    (s : EdgeStore) (my_node now_ms i : ℕ)
    → select_eviction_victim s my_node true now_ms ≡ some i
    → i < length s.nodes
victim_bound s my_node now_ms i h =
    elim (Option-cases (victim_from my_node true now_ms s.nodes 0 none)) [
      | inl nobody ↦ absurd (cc (victim-none s my_node now_ms nobody))
      | inr (c, found) ↦
          let bound =
            victim_from-bound my_node true now_ms s.nodes 0 (length s.nodes) none c (omega arith)
              (λ b e. absurd (no_candidate b e)) found in
          let same : c.idx ≡ i = some_eq (sym (victim-some s my_node now_ms c found) ∙ h) in
          omega (arith, bound, same)
    ]
  where
    some_eq : {a b : ℕ} → some a ≡ some b → a ≡ b
    some_eq e = ground arith

-- The store after the entry of a victim: only the pending demotion has changed.
module _ (fl : Float32) where
  pub apply_demotion-nodes :
      (s : EdgeStore) (my_node : ℕ) (d : PendingDemotion) (now_ms : ℕ) (downstream : Table)
      → (apply_demotion fl s my_node d now_ms downstream).0.nodes ≡ s.nodes
  unfolding apply_demotion
  apply_demotion-nodes s my_node d now_ms downstream = refl

  -- Nothing, or the victim goes.
  pub evict_with-cases :
      (s : EdgeStore) (now_ms my_node : ℕ) (downstream : Table)
      → (evict_with fl s now_ms my_node downstream ≡ (false, s, downstream))
        ⊎ ((idx : ℕ) × (idx < length s.nodes)
            × ((evict_with fl s now_ms my_node downstream).0 ≡ true)
            × ((evict_with fl s now_ms my_node downstream).1.nodes
                ≡ swap_remove blank_node idx s.nodes))
  unfolding evict_with remove_node_at apply_demotion
  evict_with-cases s now_ms my_node downstream =
      elim (Option-cases (select_eviction_victim s my_node true now_ms)) [
        | inl nobody ↦ inl (rw (nobody, evict_with) refl)
        | inr (idx, found) ↦
            elim (Option-cases (pick_l1_parent s (get_or s.nodes idx blank_node).node_id my_node)) [
              | inl orphan ↦ inl (rw (found, orphan, evict_with) refl)
              | inr ((parent, cost), behind) ↦ inr (
                idx,
                victim_bound s my_node now_ms idx found,
                rw (found, behind, evict_with) refl,
                rw (found, behind, evict_with) refl,
              )
            ]
      ]

-- Without a downstream table.
pub evict_without-cases :
    (s : EdgeStore) (now_ms my_node : ℕ)
    → (evict_without s now_ms my_node ≡ none)
      ⊎ ((idx : ℕ) × (s' : EdgeStore) × (idx < length s.nodes)
          × (evict_without s now_ms my_node ≡ some s')
          × (s'.nodes ≡ swap_remove blank_node idx s.nodes))
unfolding evict_without remove_node_at
evict_without-cases s now_ms my_node =
    elim (Option-cases (select_eviction_victim s my_node true now_ms)) [
      | inl nobody ↦ inl (rw (nobody, evict_without) refl)
      | inr (idx, found) ↦
          let victim = (get_or s.nodes idx blank_node).node_id in
          let pending : Option PendingDemotion = elim (pick_l1_parent s victim my_node) [
            | none ↦ s.pending_demotion
            | some (parent, cost_fixed) ↦
                some (record { victim = victim; parent = parent; cost_fixed = cost_fixed })
          ] in
          inr (
            idx,
            remove_node_at (record s { pending_demotion = pending }) idx,
            victim_bound s my_node now_ms idx found,
            rw (found, evict_without) refl,
            refl,
          )
    ]

count_if-missing :
    (p : NodeEdges → Bool) (ns : List NodeEdges) → is_some (find? p ns) ≡ false → count_if p ns ≡ 0
count_if-missing p [] e = refl
count_if-missing p (m ∷ ns) e = ground (arith, count_if-missing p ns)

-- A node without links behind the others.
appended-IsStore :
    (s : EdgeStore) (node_id now_ms : ℕ) (class : NodeClass) (hint : ℕ)
    → IsStore s
    → length s.nodes < 32
    → node_id ≢ 0
    → count_if (has_id node_id) s.nodes ≡ 0
    → IsStore (appended s node_id now_ms class hint)
unfolding IsStore IsNode
appended-IsStore s node_id now_ms class hint ok room named absent =
    append-IsNodes s.nodes _ ok room named absent (empty-IsLinks node_id)

-- After an eviction there is room, and no node of an id that was not there.
evicted-IsStore :
    (s s' : EdgeStore) (idx node_id : ℕ)
    → IsStore s
    → idx < length s.nodes
    → s'.nodes ≡ swap_remove blank_node idx s.nodes
    → count_if (has_id node_id) s.nodes ≡ 0
    → IsStore s' × (length s'.nodes < 32) × (count_if (has_id node_id) s'.nodes ≡ 0)
unfolding IsStore
evicted-IsStore s s' idx node_id ok lt same absent = rw (same) (
  swap_remove-IsNodes idx s.nodes lt ok,
  omega (arith, length-swap_remove blank_node idx s.nodes, ok.small, lt),
  omega (arith, count_if-swap_remove (has_id node_id) blank_node idx s.nodes lt, absent),
)

pub find_or_create_node-IsStore :
    (s : EdgeStore) (node_id now_ms my_node : ℕ)
    → IsStore s
    → node_id ≢ 0
    → (find_or_create_node s node_id now_ms my_node ≡ none)
      ⊎ ((s' : EdgeStore) × (find_or_create_node s node_id now_ms my_node ≡ some s') × IsStore s')
unfolding find_or_create_node
find_or_create_node-IsStore s node_id now_ms my_node ok named =
    let class = if node_id == my_node then l1 else unknown in
    elim (Bool-cases (is_some (find_node s node_id))) [
      | inl there ↦ inr (s, rw (there, find_or_create_node) refl, ok)
      | inr gone ↦
          let absent = count_if-missing (has_id node_id) s.nodes gone in
          elim (Bool-cases (ltb (length s.nodes) 32)) [
            | inl room ↦ inr (
              appended s node_id now_ms class 0,
              rw (gone, room, find_or_create_node) refl,
              appended-IsStore s node_id now_ms class 0 ok (ground arith) named absent,
            )
            | inr full ↦ elim (evict_without-cases s now_ms my_node) [
              | inl stuck ↦ inl (rw (gone, full, stuck, find_or_create_node) refl)
              | inr (idx, s', lt, went, same) ↦
                  let (ok', room, absent') = evicted-IsStore s s' idx node_id ok lt same absent in
                  inr (
                    appended s' node_id now_ms class 0,
                    rw (gone, full, went, find_or_create_node) refl,
                    appended-IsStore s' node_id now_ms class 0 ok' room named absent',
                  )
            ]
          ]
    ]

-- The same where the code throws the result away.
pub or_unchanged-IsStore :
    (s : EdgeStore) (node_id now_ms my_node : ℕ)
    → IsStore s
    → node_id ≢ 0
    → IsStore (or_unchanged (find_or_create_node s node_id now_ms my_node) s)
or_unchanged-IsStore s node_id now_ms my_node ok named =
    elim (find_or_create_node-IsStore s node_id now_ms my_node ok named) [
      | inl stuck ↦ rw (stuck) ok
      | inr (s', made, ok') ↦ rw (made) ok'
    ]

pub ensure_local_node-IsStore :
    (s : EdgeStore) (my_node now_ms : ℕ)
    → IsStore s
    → my_node ≢ 0
    → IsStore (ensure_local_node s my_node now_ms)
unfolding ensure_local_node
ensure_local_node-IsStore s my_node now_ms ok named =
    let made = or_unchanged (find_or_create_node s my_node now_ms my_node) s in
    elim (Bool-cases (is_some (find_node s my_node))) [
      | inl there ↦ subst IsStore (sym (if-true s made there)) ok
      | inr gone ↦
          subst IsStore (sym (if-false s made gone))
            (or_unchanged-IsStore s my_node now_ms my_node ok named)
    ]

stamped-IsStore :
    (s : EdgeStore) (node_id now_ms : ℕ)
    → IsStore s
    → IsStore (find_node_mut s node_id (λ n. record n { last_full_update_ms = now_ms }))
unfolding IsStore IsNode
stamped-IsStore s node_id now_ms ok =
    update_first-IsNodes node_id (λ n. record n { last_full_update_ms = now_ms }) s.nodes
      (λ n. refl) (λ n fine. fine) ok

module _ (fl : Float32) where
  pub demote_for_capacity-IsStore :
      (s : EdgeStore) (now_ms my_node : ℕ) (downstream : Table)
      → IsStore s
      → IsStore (demote_for_capacity fl s now_ms my_node downstream).1
  unfolding demote_for_capacity IsStore
  demote_for_capacity-IsStore s now_ms my_node downstream ok =
      elim (evict_with-cases fl s now_ms my_node downstream) [
        | inl refused ↦ rw (refused) ok
        | inr (idx, lt, went, same) ↦ rw (same) (swap_remove-IsNodes idx s.nodes lt ok)
      ]

  pub flush_pending_demotion-IsStore :
      (s : EdgeStore) (my_node now_ms : ℕ) (downstream : Table)
      → IsStore s
      → IsStore (flush_pending_demotion fl s my_node now_ms downstream).0
  unfolding flush_pending_demotion apply_demotion IsStore
  flush_pending_demotion-IsStore s my_node now_ms downstream ok =
      elim (Option-cases s.pending_demotion) [
        | inl nothing ↦ rw (nothing, flush_pending_demotion) ok
        | inr (d, waits) ↦ rw (waits, flush_pending_demotion) ok
      ]

  pub ensure_publisher-IsStore :
      (s : EdgeStore) (node_id : ℕ) (class : NodeClass) (hint now_ms my_node : ℕ)
      (downstream : Table)
      → IsStore s
      → IsStore (ensure_publisher fl s node_id class hint now_ms my_node downstream).1
  unfolding ensure_publisher
  ensure_publisher-IsStore s node_id class hint now_ms my_node downstream ok =
      elim (Bool-cases (node_id == 0 || node_id == my_node)) [
        | inl own ↦ rw (own, ensure_publisher) ok
        | inr other ↦ elim (Bool-cases (class_within_depth class)) [
          | inr deep ↦ rw (other, deep, ensure_publisher) ok
          | inl within ↦ elim (Bool-cases (is_some (find_node s node_id))) [
            | inl there ↦
                rw (other, within, there, ensure_publisher)
                  (stamped-IsStore (set_node_class s node_id class hint) node_id now_ms
                    (set_node_class-IsStore s node_id class hint ok))
            | inr gone ↦
                let absent = count_if-missing (has_id node_id) s.nodes gone in
                elim (Bool-cases (ltb (length s.nodes) 32)) [
                  | inl room ↦
                      rw (other, within, gone, room, ensure_publisher)
                        (appended-IsStore s node_id now_ms class hint ok (ground arith)
                          (ground arith) absent)
                  | inr full ↦ elim (evict_with-cases fl s now_ms my_node downstream) [
                    | inl refused ↦ rw (other, within, gone, full, refused, ensure_publisher) ok
                    | inr (idx, lt, went, same) ↦
                        let s' = (evict_with fl s now_ms my_node downstream).1 in
                        let (ok', room, absent') =
                          evicted-IsStore s s' idx node_id ok lt same absent in
                        rw (other, within, gone, full, went, ensure_publisher)
                          (appended-IsStore s' node_id now_ms class hint ok' room (ground arith)
                            absent')
                  ]
                ]
          ]
        ]
      ]
