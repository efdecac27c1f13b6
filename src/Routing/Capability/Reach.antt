-- ===== src/Routing/Capability/Reach.antt =====
-- The caches that the operations of crates/mesh-routing/src/capability.rs lead to.
use meshrustic.Base.{
  ℕ, zero, suc, ◌+◌, ◌≤◌, ◌<◌, ◌≡◌, refl, sym, ap, subst, if-true, if-false, update_first, Bool,
  true, false, Option, none, some, List, [], ◌∷◌, ◌++◌, ◌==◌, if◌then◌else◌, length, get_or, set,
  find?, count_if, count_if-append, length-append, length-set, length-update_first,
  count_if-update_first_same, count_if-set, weigh, swap_remove, count_if-swap_remove,
  length-swap_remove, inl, inr, Bool-cases, Option-cases, arith,
}
use meshrustic.Routing.Capability.{
  Cache, CapabilityRecord, blank, new, max_capability_records, is_node, find, is_stale, victim_from,
  insert, published, with_role, with_status, track_role, track_topology, prune_loop, prune, clear,
  noted,
}
use meshrustic.Routing.Capability.Found.{count_if-missing, Holds, IsIdle, victim-IsIdle}

-- At most 64 records, at most one for a node, and none for node 0.
pub record IsCache (c : Cache) : Type 0 where
  pub small : length c ≤ max_capability_records
  pub distinct : (n : ℕ) → count_if (is_node n) c ≤ 1
  pub named : count_if (is_node 0) c ≡ 0

new-IsCache : IsCache new
new-IsCache = record { small = omega arith; distinct = λ n. omega arith; named = refl }

set-IsCache :
    (c : Cache) (r : CapabilityRecord) (i : ℕ)
    → IsCache c
    → i < length c
    → count_if (is_node r.node_id) c ≡ 0
    → (r.node_id == 0) ≡ false
    → IsCache (set c i r)
unfolding weigh
set-IsCache c r i ok lt missing some_id = record {
  small = omega (arith, length-set c i r, ok.small);
  distinct = λ n. elim (Bool-cases (r.node_id == n)) [
    | inl same ↦
        let n_is : n ≡ r.node_id = ground arith in
        let none_yet : count_if (is_node n) c ≡ 0 = rw (n_is) missing in
        ground (arith, count_if-set (is_node n) c i r blank lt, none_yet)
    | inr other ↦ ground (arith, count_if-set (is_node n) c i r blank lt, ok.distinct n)
  ];
  named = ground (arith, count_if-set (is_node 0) c i r blank lt, ok.named);
}

append-IsCache :
    (c : Cache) (r : CapabilityRecord)
    → IsCache c
    → (length c == max_capability_records) ≡ false
    → count_if (is_node r.node_id) c ≡ 0
    → (r.node_id == 0) ≡ false
    → IsCache (c ++ (r ∷ []))
append-IsCache c r ok room missing some_id = record {
  small = ground (arith, length-append c (r ∷ []), ok.small);
  distinct = λ n. elim (Bool-cases (r.node_id == n)) [
    | inl same ↦
        let n_is : n ≡ r.node_id = ground arith in
        let none_yet : count_if (is_node n) c ≡ 0 = rw (n_is) missing in
        ground (arith, count_if-append (is_node n) c (r ∷ []), none_yet)
    | inr other ↦ ground (arith, count_if-append (is_node n) c (r ∷ []), ok.distinct n)
  ];
  named = ground (arith, count_if-append (is_node 0) c (r ∷ []), ok.named);
}

over-IsCache :
    (c : Cache) (r : CapabilityRecord) (best : Option (ℕ × ℕ))
    → IsCache c
    → count_if (is_node r.node_id) c ≡ 0
    → (r.node_id == 0) ≡ false
    → Holds (IsIdle c) best
    → IsCache (elim best [ none ↦ c | some (i, _) ↦ set c i r ])
over-IsCache c r none ok missing some_id idle = ok
over-IsCache c r (some (i, _)) ok missing some_id idle = set-IsCache c r i ok idle.0 missing some_id

insert-IsCache :
    (now_ms : ℕ) (c : Cache) (r : CapabilityRecord)
    → IsCache c
    → count_if (is_node r.node_id) c ≡ 0
    → (r.node_id == 0) ≡ false
    → IsCache (insert now_ms c r)
unfolding insert
insert-IsCache now_ms c r ok missing some_id =
    elim (Bool-cases (length c == max_capability_records)) [
      | inl full ↦ subst IsCache (sym (if-true _ _ full)) (
          over-IsCache c r (victim_from now_ms c 0 none) ok missing some_id
            (victim-IsIdle now_ms c))
      | inr room ↦
          subst IsCache (sym (if-false _ _ room)) (append-IsCache c r ok room missing some_id)
    ]

update-IsCache :
    (n : ℕ) (f : CapabilityRecord → CapabilityRecord) (c : Cache)
    → ((r : CapabilityRecord) → (f r).node_id ≡ r.node_id)
    → IsCache c
    → IsCache (update_first (is_node n) f c)
update-IsCache n f c same ok = record {
  small = omega (arith, length-update_first (is_node n) f c, ok.small);
  distinct = λ m. omega (
    arith,
    count_if-update_first_same (is_node m) (is_node n) f c (λ r. ap (λ i. i == m) (same r)),
    ok.distinct m,
  );
  named = omega (
    arith,
    count_if-update_first_same (is_node 0) (is_node n) f c (λ r. ap (λ i. i == 0) (same r)),
    ok.named,
  );
}

swap_remove-IsCache :
    (c : Cache) (i : ℕ) → i < length c → IsCache c → IsCache (swap_remove blank i c)
swap_remove-IsCache c i lt ok = record {
  small = omega (arith, length-swap_remove blank i c, ok.small);
  distinct = λ m. omega (arith, count_if-swap_remove (is_node m) blank i c lt, ok.distinct m);
  named = omega (arith, count_if-swap_remove (is_node 0) blank i c lt, ok.named);
}

track_role-IsCache :
    (c : Cache) (n role now_ms : ℕ) → IsCache c → IsCache (track_role c n role now_ms)
unfolding track_role find with_role
track_role-IsCache c n role now_ms ok = elim (Bool-cases (n == 0)) [
  | inl zero_id ↦ subst IsCache (sym (if-true _ _ zero_id)) ok
  | inr named ↦
      subst IsCache (sym (if-false _ _ named)) (elim (Option-cases (find? (is_node n) c)) [
        | inl missing ↦
            rw (missing)
              (insert-IsCache now_ms c _ ok (count_if-missing (is_node n) c missing) named)
        | inr (r, known) ↦
            rw (known) (update-IsCache n (with_role role now_ms) c (λ r. ground arith) ok)
      ])
]

track_topology-IsCache :
    (c : Cache) (n : ℕ) (active : Bool) (now_ms : ℕ)
    → IsCache c
    → IsCache (track_topology c n active now_ms)
unfolding track_topology find with_status
track_topology-IsCache c n active now_ms ok = elim (Bool-cases (n == 0)) [
  | inl zero_id ↦ subst IsCache (sym (if-true _ _ zero_id)) ok
  | inr named ↦
      subst IsCache (sym (if-false _ _ named)) (elim (Option-cases (find? (is_node n) c)) [
        | inl missing ↦
            rw (missing)
              (insert-IsCache now_ms c _ ok (count_if-missing (is_node n) c missing) named)
        | inr (r, known) ↦
            rw (known) (update-IsCache n (with_status (published active) now_ms) c (λ r. refl) ok)
      ])
]

if-IsCache :
    (b : Bool) (x y : Cache × List ℕ) → IsCache x.0 → IsCache y.0 → IsCache (if b then x else y).0
if-IsCache true x y hx hy = hx
if-IsCache false x y hx hy = hy

prune_loop-IsCache :
    (now_ms my_node left i : ℕ) (c : Cache) (ids : List ℕ)
    → i + left ≤ length c
    → IsCache c
    → IsCache (prune_loop now_ms my_node left i c ids).0
unfolding prune_loop
prune_loop-IsCache now_ms my_node zero i c ids le ok = ok
prune_loop-IsCache now_ms my_node (suc left) i c ids le ok =
    let r = get_or c i blank in
    let kept = prune_loop-IsCache now_ms my_node left (i + 1) c ids (omega arith) ok in
    let removed =
      prune_loop-IsCache now_ms my_node left i (swap_remove blank i c) (noted ids r)
        (omega (arith, length-swap_remove blank i c)) (swap_remove-IsCache c i (omega arith) ok) in
    if-IsCache (r.node_id == my_node) _ _ kept (if-IsCache (is_stale now_ms r) _ _ removed kept)

-- One operation on the cache.
pub data Step (c : Cache) : Cache → Type 0 where
  cleared : Step c (clear c)
  role_tracked : (n role now_ms : ℕ) → Step c (track_role c n role now_ms)
  topology_tracked :
      (n : ℕ) (active : Bool) (now_ms : ℕ) → Step c (track_topology c n active now_ms)
  pruned : (now_ms my_node : ℕ) → Step c (prune c now_ms my_node).0

-- The caches that operations lead to from the empty one.
pub data Reach : Cache → Type 0 where
  fresh : Reach new
  next : {c c' : Cache} → Reach c → Step c c' → Reach c'

Step-IsCache : {c c' : Cache} → IsCache c → Step c c' → IsCache c'
unfolding clear prune
Step-IsCache {c} ok cleared = new-IsCache
Step-IsCache {c} ok (role_tracked n role now_ms) = track_role-IsCache c n role now_ms ok
Step-IsCache {c} ok (topology_tracked n active now_ms) = track_topology-IsCache c n active now_ms ok
Step-IsCache {c} ok (pruned now_ms my_node) =
    prune_loop-IsCache now_ms my_node (length c) 0 c [] (omega arith) ok

-- Whatever operations came before, the cache has at most 64 records, at most one for each node, and
-- none for node 0.
pub Reach-IsCache : {c : Cache} → Reach c → IsCache c
Reach-IsCache fresh = new-IsCache
Reach-IsCache (next before step) = Step-IsCache (Reach-IsCache before) step
