-- ===== src/Routing/Capability/Publishers.antt =====
-- What the records of crates/mesh-routing/src/capability.rs say of a node after it or another node has
-- been heard of.
use meshrustic.Base.{
  ℕ, ◌≤◌, ◌≡◌, ◌≢◌, refl, ap, subst, ◌∙◌, Bool, true, false, not, ◌||◌, Option, none, some, [], ◌∷◌,
  ◌==◌, ltb, if◌then◌else◌, length, set, find?, find?-set_miss, update_first, is_some, count_if,
  if-true, if-false, inl, inr, Bool-cases, Option-cases, wrapping_sub, arith,
}
use meshrustic.Routing.Capability.{
  Cache, CapabilityRecord, blank, max_capability_records, capability_ttl_ms, is_node,
  is_signal_routing, find, is_stale, status_at, victim_from, insert, published,
  capability_from_role, with_role, with_status, track_role, track_topology,
}
use meshrustic.Routing.Capability.Found.{
  find?-set_kept, find?-append, find?-append_new, find?-update_first, find?-update_first_other,
  Holds, IsIdle, victim-IsIdle, victim_from-found,
}

over-keeps :
    (c : Cache) (m : ℕ) (r v : CapabilityRecord) (best : Option (ℕ × ℕ))
    → find? (is_node m) c ≡ some r
    → is_signal_routing r.status ≡ true
    → is_node m v ≡ false
    → Holds (IsIdle c) best
    → find? (is_node m) (elim best [ none ↦ c | some (i, _) ↦ set c i v ]) ≡ some r
over-keeps c m r v none found publisher other idle = found
over-keeps c m r v (some (i, _)) found publisher other idle =
    find?-set_kept (is_node m) (λ r. is_signal_routing r.status) c i r v blank found other publisher
      idle.1

-- The insertion of a record of another node.
insert-keeps :
    (now_ms : ℕ) (c : Cache) (m : ℕ) (r v : CapabilityRecord)
    → find? (is_node m) c ≡ some r
    → is_signal_routing r.status ≡ true
    → is_node m v ≡ false
    → find? (is_node m) (insert now_ms c v) ≡ some r
unfolding insert
insert-keeps now_ms c m r v found publisher other =
    elim (Bool-cases (length c == max_capability_records)) [
      | inl full ↦
          ap (find? (is_node m)) (if-true _ _ full)
          ∙ over-keeps c m r v (victim_from now_ms c 0 none) found publisher other
              (victim-IsIdle now_ms c)
      | inr room ↦
          ap (find? (is_node m)) (if-false _ _ room) ∙ find?-append (is_node m) c (v ∷ []) r found
    ]

-- There is a free place, or a record that may go.
unfoldable pub has_room : Cache → Bool
has_room c =
    not (length c == max_capability_records)
    || ltb 0 (count_if (λ r. not (is_signal_routing r.status)) c)

over-finds :
    (c : Cache) (v : CapabilityRecord) (best : Option (ℕ × ℕ))
    → best ≢ none
    → find? (is_node v.node_id) c ≡ none
    → Holds (IsIdle c) best
    → find? (is_node v.node_id) (elim best [ none ↦ c | some (i, _) ↦ set c i v ]) ≡ some v
over-finds c v none there missing idle = absurd (there refl)
over-finds c v (some (i, _)) there missing idle =
    find?-set_miss (is_node v.node_id) c i v missing (ground arith) idle.0

insert-finds :
    (now_ms : ℕ) (c : Cache) (v : CapabilityRecord)
    → has_room c ≡ true
    → find? (is_node v.node_id) c ≡ none
    → find? (is_node v.node_id) (insert now_ms c v) ≡ some v
unfolding insert has_room
insert-finds now_ms c v room missing = elim (Bool-cases (length c == max_capability_records)) [
  | inl full ↦
      ap (find? (is_node v.node_id)) (if-true _ _ full)
      ∙ over-finds c v (victim_from now_ms c 0 none)
          (λ e. ground (arith, (victim_from-found now_ms c 0 none e).1)) missing
          (victim-IsIdle now_ms c)
  | inr free ↦
      ap (find? (is_node v.node_id)) (if-false _ _ free)
      ∙ find?-append_new (is_node v.node_id) c v missing (ground arith)
]

-- What `track_role` and `track_topology` share, for a change `f` and a new record `v`.
abbrev tracked : ℕ → ℕ → (CapabilityRecord → CapabilityRecord) → CapabilityRecord → Cache → Cache
tracked now_ms n f v c = elim (find c n) [
  | some r ↦ update_first (is_node n) f c
  | none ↦ insert now_ms c v
]

module _ (now_ms n : ℕ) (f : CapabilityRecord → CapabilityRecord) (v : CapabilityRecord) (c : Cache)
    (same : (r : CapabilityRecord) → (f r).node_id ≡ r.node_id) (of_n : v.node_id ≡ n) where
  tracked-known :
      (r : CapabilityRecord)
      → find? (is_node n) c ≡ some r
      → tracked now_ms n f v c ≡ update_first (is_node n) f c
  unfolding find
  tracked-known r known = rw (tracked, known) refl

  tracked-new : find? (is_node n) c ≡ none → tracked now_ms n f v c ≡ insert now_ms c v
  unfolding find
  tracked-new missing = rw (tracked, missing) refl

  tracked-keeps :
      (m : ℕ) (r : CapabilityRecord)
      → find? (is_node m) c ≡ some r
      → is_signal_routing r.status ≡ true
      → find? (is_node m) (tracked now_ms n f v c) ≡ some (if n == m then f r else r)
  unfolding find
  tracked-keeps m r found publisher = elim (Bool-cases (n == m)) [
    | inl here ↦
        let n_is : n ≡ m = ground arith in
        let known : find? (is_node n) c ≡ some r = rw (n_is) found in
        let after = find?-update_first (is_node n) f c r (λ r. ap (λ i. i == n) (same r)) known in
        rw (here, tracked-known r known)
          (subst (λ i. find? (is_node i) (update_first (is_node n) f c) ≡ some (f r)) n_is after)
    | inr other ↦ elim (Option-cases (find? (is_node n) c)) [
      | inl missing ↦
          rw (other, tracked-new missing)
            (insert-keeps now_ms c m r v found publisher (ground (arith, of_n)))
      | inr (r', known) ↦
          rw (other, tracked-known r' known)
            (find?-update_first_other (is_node m) (is_node n) f c (λ r. ap (λ i. i == m) (same r))
                (λ x hit. ground arith)
              ∙ found)
    ]
  ]

  tracked-finds :
      is_some (find c n) || has_room c ≡ true
      → ((r : CapabilityRecord) → (f r).status ≡ v.status)
      → ((r : CapabilityRecord) → (f r).last_updated_ms ≡ v.last_updated_ms)
      → (r : CapabilityRecord) × (find? (is_node n) (tracked now_ms n f v c) ≡ some r)
        × (r.status ≡ v.status)
        × (r.last_updated_ms ≡ v.last_updated_ms)
  unfolding find
  tracked-finds place status_is stamp_is = elim (Option-cases (find? (is_node n) c)) [
    | inl missing ↦
        let room : has_room c ≡ true = rw (missing) at place in
        (
          v,
          rw (tracked-new missing) (
              subst (λ i. find? (is_node i) (insert now_ms c v) ≡ some v) of_n
                (insert-finds now_ms c v room (rw (of_n) missing))),
          refl,
          refl,
        )
    | inr (r, known) ↦ (
      f r,
      rw (tracked-known r known)
          (find?-update_first (is_node n) f c r (λ r. ap (λ i. i == n) (same r)) known),
      status_is r,
      stamp_is r,
    )
  ]

with_role-publisher :
    (role now_ms : ℕ) (r : CapabilityRecord)
    → is_signal_routing r.status ≡ true
    → with_role role now_ms r ≡ record r { role = role }
unfolding with_role
with_role-publisher role now_ms r publisher = if-true _ _ publisher

with_role-node_id :
    (role now_ms : ℕ) (r : CapabilityRecord) → (with_role role now_ms r).node_id ≡ r.node_id
unfolding with_role
with_role-node_id role now_ms r = ground arith

-- What is known of a node that publishes topology outlasts whatever is heard: the news of a role
-- changes at most the role in its own record, and the news of a topology at most the status and the
-- stamp in its own record. Records of other nodes never take its place.
pub publisher_stays :
    (c : Cache) (n m role now_ms : ℕ) (active : Bool) (r : CapabilityRecord)
    → (n == 0) ≡ false
    → find c m ≡ some r
    → is_signal_routing r.status ≡ true
    → (find (track_role c n role now_ms) m ≡ some (if n == m then record r { role = role } else r))
      × (find (track_topology c n active now_ms) m
          ≡ some (
              if n == m
              then record r { status = published active; last_updated_ms = now_ms }
              else r))
unfolding track_role track_topology find with_status
publisher_stays c n m role now_ms active r named found publisher =
    let told =
      tracked-keeps now_ms n (with_role role now_ms)
        (record {
          node_id = n;
          status = capability_from_role role;
          role = role;
          last_updated_ms = now_ms;
        })
        c (with_role-node_id role now_ms) refl m r found publisher in
    let listed =
      tracked-keeps now_ms n (with_status (published active) now_ms)
        (record { node_id = n; status = published active; role = 0; last_updated_ms = now_ms }) c
        (λ r. refl) refl m r found publisher in
    (
      ap (find? (is_node m)) (if-false _ _ named)
          ∙ told
          ∙ ap (λ x. some (if n == m then x else r)) (with_role-publisher role now_ms r publisher),
      ap (find? (is_node m)) (if-false _ _ named) ∙ listed,
    )

status_at-recent :
    (c : Cache) (n my_node later_ms now_ms : ℕ) (r : CapabilityRecord)
    → find c n ≡ some r
    → r.last_updated_ms ≡ now_ms
    → wrapping_sub later_ms now_ms ≤ capability_ttl_ms
    → status_at c n my_node later_ms ≡ r.status
unfolding status_at is_stale
status_at-recent c n my_node later_ms now_ms r found stamp recent =
    let fresh : ltb capability_ttl_ms (wrapping_sub later_ms r.last_updated_ms) ≡ false =
      rw (stamp) (ground arith) in
    rw (status_at, found, fresh) (ground arith)

-- A node whose topology has been heard counts as active or passive, as it said, until the time to live
-- is over, if the cache knows it already, has a free place, or has a record of a node that publishes no
-- topology.
pub status_at-track_topology :
    (c : Cache) (n my_node now_ms later_ms : ℕ) (active : Bool)
    → (n == 0) ≡ false
    → is_some (find c n) || has_room c ≡ true
    → wrapping_sub later_ms now_ms ≤ capability_ttl_ms
    → status_at (track_topology c n active now_ms) n my_node later_ms ≡ published active
unfolding track_topology find with_status
status_at-track_topology c n my_node now_ms later_ms active named place recent =
    let (r, found, status_is, stamp_is) =
      tracked-finds now_ms n (with_status (published active) now_ms)
        (record { node_id = n; status = published active; role = 0; last_updated_ms = now_ms }) c
        (λ r. refl) refl place (λ r. refl) (λ r. refl) in
    status_at-recent _ n my_node later_ms now_ms r
      (ap (find? (is_node n)) (if-false _ _ named) ∙ found) stamp_is recent
    ∙ status_is
