-- ===== src/Routing/Capability/Prune.antt =====
-- What `prune` of crates/mesh-routing/src/capability.rs removes and what it reports.
use meshrustic.Base.{
  ℕ, zero, suc, ◌+◌, ◌≤◌, ◌≡◌, refl, ap, ◌∙◌, Bool, true, false, not, ◌&&◌, List, [], ◌∷◌, ◌==◌,
  if◌then◌else◌, length, get_or, count_if, count_if-append, weigh, swap_remove, length-swap_remove,
  count_if-swap_remove, sweep, length-append, inl, inr, Bool-cases, arith,
}
use meshrustic.Routing.Capability.{
  Cache, CapabilityRecord, blank, max_capability_records, is_node, is_signal_routing, is_stale,
  noted, prune_loop, prune,
}
use meshrustic.Routing.Graph.Downstream.Sweep.{count_if-sweep_all}

-- The record is not our own and has not been updated within the time to live.
unfoldable pub is_gone : ℕ → ℕ → CapabilityRecord → Bool
is_gone now_ms my_node r = not (r.node_id == my_node) && is_stale now_ms r

-- What is gone, and is the record of this node, that published topology.
abbrev pub is_lost_publisher : ℕ → ℕ → ℕ → CapabilityRecord → Bool
is_lost_publisher now_ms my_node n r =
    is_gone now_ms my_node r && (is_signal_routing r.status && is_node n r)

-- The records that the loop leaves are those of a sweep.
loop-sweep :
    (now_ms my_node left i : ℕ) (c : Cache) (ids : List ℕ)
    → (prune_loop now_ms my_node left i c ids).0 ≡ sweep blank (is_gone now_ms my_node) left i c
unfolding prune_loop sweep is_gone
loop-sweep now_ms my_node zero i c ids = refl
loop-sweep now_ms my_node (suc left) i c ids =
    let r = get_or c i blank in
    let kept = loop-sweep now_ms my_node left (i + 1) c ids in
    let removed = loop-sweep now_ms my_node left i (swap_remove blank i c) (noted ids r) in
    pick (r.node_id == my_node) (is_stale now_ms r) _ _ kept removed
  where
    pick :
        (mine stale : Bool) (x y : Cache × List ℕ) {x' y' : Cache}
        → x.0 ≡ x'
        → y.0 ≡ y'
        → (if mine then x else if stale then y else x).0 ≡ (if not mine && stale then y' else x')
    pick true stale x y hx hy = hx
    pick false true x y hx hy = hy
    pick false false x y hx hy = hx

count_if-noted :
    (n : ℕ) (ids : List ℕ) (r : CapabilityRecord)
    → length ids + 1 ≤ max_capability_records
    → count_if (λ m. m == n) (noted ids r)
      ≡ count_if (λ m. m == n) ids + weigh (λ r. is_signal_routing r.status && is_node n r) r
unfolding noted weigh
count_if-noted n ids r room = elim (Bool-cases (is_signal_routing r.status)) [
  | inl publishes ↦ ground (arith, count_if-append (λ m. m == n) ids (r.node_id ∷ []))
  | inr silent ↦ ground arith
]

length-noted : (ids : List ℕ) (r : CapabilityRecord) → length (noted ids r) ≤ length ids + 1
unfolding noted
length-noted ids r = ground (arith, length-append ids (r.node_id ∷ []))

-- A record that is removed is counted in the answer.
loop-counts :
    (n now_ms my_node left i : ℕ) (c : Cache) (ids : List ℕ)
    → i + left ≤ length c
    → length ids + left ≤ max_capability_records
    → let (c', ids') = prune_loop now_ms my_node left i c ids in
      count_if (λ m. m == n) ids' + count_if (is_lost_publisher now_ms my_node n) c'
      ≡ count_if (λ m. m == n) ids + count_if (is_lost_publisher now_ms my_node n) c
unfolding prune_loop is_gone weigh
loop-counts n now_ms my_node zero i c ids le room = refl
loop-counts n now_ms my_node (suc left) i c ids le room =
    let r = get_or c i blank in
    let c' = swap_remove blank i c in
    let kept = loop-counts n now_ms my_node left (i + 1) c ids (omega arith) (omega arith) in
    let removed =
      loop-counts n now_ms my_node left i c' (noted ids r)
        (omega (arith, length-swap_remove blank i c)) (omega (arith, length-noted ids r, room)) in
    let less = count_if-swap_remove (is_lost_publisher now_ms my_node n) blank i c (omega arith) in
    let one_more = count_if-noted n ids r (omega arith) in
    elim (Bool-cases (r.node_id == my_node)) [
      | inl mine ↦ rw (mine) kept
      | inr other ↦ elim (Bool-cases (is_stale now_ms r)) [
        | inl stale ↦ rw (other, stale) (removed ∙ ground (arith, less, one_more))
        | inr recent ↦ rw (other, recent) kept
      ]
    ]

count_if-kept :
    (gone q : CapabilityRecord → Bool) (c : Cache)
    → count_if (λ r. (gone r && q r) && not (gone r)) c ≡ 0
count_if-kept gone q [] = refl
count_if-kept gone q (r ∷ c) = ground (arith, count_if-kept gone q c)

-- Pruning keeps every record that is our own or not out of date, as often as it was there, and no
-- other. For a cache of at most 64 records it reports the id of each record that it removes whose
-- node published topology, as often as such a record was there, and no other id.
pub prune_lem :
    (c : Cache) (now_ms my_node n : ℕ) (q : CapabilityRecord → Bool)
    → length c ≤ max_capability_records
    → let gone = is_gone now_ms my_node in
      (count_if q (prune c now_ms my_node).0 ≡ count_if (λ r. q r && not (gone r)) c)
      × (count_if (λ m. m == n) (prune c now_ms my_node).1
          ≡ count_if (λ r. gone r && (is_signal_routing r.status && is_node n r)) c)
unfolding prune
prune_lem c now_ms my_node n q small =
    let gone = is_gone now_ms my_node in
    let publisher : CapabilityRecord → Bool = λ r. is_signal_routing r.status && is_node n r in
    let same = loop-sweep now_ms my_node (length c) 0 c [] in
    let counts =
      loop-counts n now_ms my_node (length c) 0 c [] (omega arith) (omega (arith, small)) in
    let left : count_if (is_lost_publisher now_ms my_node n) (sweep blank gone (length c) 0 c) ≡ 0 =
      count_if-sweep_all blank gone (is_lost_publisher now_ms my_node n) c
      ∙ count_if-kept gone publisher c in
    (
      ap (count_if q) same ∙ count_if-sweep_all blank gone q c,
      omega (arith, counts, left, ap (count_if (is_lost_publisher now_ms my_node n)) same),
    )
