-- ===== src/Routing/Capability.antt =====
-- crates/mesh-routing/src/capability.rs: what is known of the part that other nodes take in the
-- routing, from the role that they announce or the topology that they publish. The array with the count
-- of its used places is the list of these places.
pub mod Found
pub mod Reach
pub mod Prune
pub mod Publishers
mod Tests
use meshrustic.Base.{
  ℕ, zero, suc, ◌+◌, ◌*◌, ◌^◌, Bool, true, false, not, ◌&&◌, ◌||◌, Option, none, some, List, [],
  ◌∷◌, ◌++◌, ◌==◌, leb, ltb, if◌then◌else◌, length, get_or, set, find?, update_first, wrapping_sub,
  swap_remove,
}
use meshrustic.Routing.Roles.{
  role_router, role_router_client, role_repeater, role_router_late, role_client, role_client_mute,
  role_tracker, role_sensor, role_tak, role_client_hidden, role_tak_tracker, role_client_base,
  is_one_of, role_is_mute,
}

abbrev pub max_capability_records : ℕ
max_capability_records = 64

-- `TOPOLOGY_BROADCAST_MS` of crates/mesh-routing/src/neighbor_graph.rs.
abbrev pub topology_broadcast_ms : ℕ
topology_broadcast_ms = 900000

abbrev pub capability_ttl_ms : ℕ
capability_ttl_ms = 3 * topology_broadcast_ms + 20000

pub data CapabilityStatus : Type 0 where
  unknown legacy passive sr_active : CapabilityStatus

abbrev pub is_signal_routing : CapabilityStatus → Bool
is_signal_routing unknown = false
is_signal_routing legacy = false
is_signal_routing passive = true
is_signal_routing sr_active = true

abbrev pub is_sr_active : CapabilityStatus → Bool
is_sr_active unknown = false
is_sr_active legacy = false
is_sr_active passive = false
is_sr_active sr_active = true

abbrev pub is_legacy_status : CapabilityStatus → Bool
is_legacy_status unknown = false
is_legacy_status legacy = true
is_legacy_status passive = false
is_legacy_status sr_active = false

pub record CapabilityRecord : Type 0 where
  pub node_id : ℕ
  pub status : CapabilityStatus
  pub role : ℕ
  pub last_updated_ms : ℕ

abbrev pub blank : CapabilityRecord
blank = record { node_id = 0; status = unknown; role = 0; last_updated_ms = 0 }

abbrev pub Cache : Type 0
Cache = List CapabilityRecord

abbrev pub new : Cache
new = []

unfoldable pub clear : Cache → Cache
clear c = []

abbrev pub is_node : ℕ → CapabilityRecord → Bool
is_node n r = r.node_id == n

unfoldable pub find : Cache → ℕ → Option CapabilityRecord
find c n = find? (is_node n) c

-- The record has not been updated for longer than the time to live, read as a signed difference.
unfoldable pub is_stale : ℕ → CapabilityRecord → Bool
is_stale now_ms r =
    let age = wrapping_sub now_ms r.last_updated_ms in ltb capability_ttl_ms age && ltb age (2 ^ 31)

unfoldable pub status_at : Cache → ℕ → ℕ → ℕ → CapabilityStatus
status_at c n my_node now_ms = elim (find c n) [
  | none ↦ unknown
  | some r ↦
      if r.node_id == my_node && not (my_node == 0)
      then r.status
      else if not (now_ms == 0) && is_stale now_ms r
      then unknown
      else r.status
]

unfoldable pub status_of : Cache → ℕ → CapabilityStatus
status_of c n = status_at c n 0 0

unfoldable pub role_of : Cache → ℕ → Option ℕ
role_of c n = elim (find c n) [ none ↦ none | some r ↦ some r.role ]

abbrev pub at_least : Option (ℕ × ℕ) → ℕ → Bool
at_least none age = true
at_least (some (_, best)) age = leb best age

-- `max_by_key` over the records from index `i` on that do not take part: of equal ages the last one.
unfoldable pub victim_from : ℕ → Cache → ℕ → Option (ℕ × ℕ) → Option (ℕ × ℕ)
victim_from now_ms [] i best = best
victim_from now_ms (r ∷ rest) i best =
    let age = wrapping_sub now_ms r.last_updated_ms in
    victim_from now_ms rest (i + 1)
      (if not (is_signal_routing r.status) && at_least best age then some (i, age) else best)

-- A new record goes into a free place, or in a full cache over the oldest record of a node that does
-- not take part, if there is one.
unfoldable pub insert : ℕ → Cache → CapabilityRecord → Cache
insert now_ms c r =
    if length c == max_capability_records
    then elim (victim_from now_ms c 0 none) [ none ↦ c | some (i, _) ↦ set c i r ]
    else c ++ (r ∷ [])

unfoldable pub capability_from_role : ℕ → CapabilityStatus
capability_from_role role = if role_is_mute role then legacy else unknown

unfoldable pub with_role : ℕ → ℕ → CapabilityRecord → CapabilityRecord
with_role role now_ms r =
    if is_signal_routing r.status
    then record r { role = role }
    else record r { role = role; last_updated_ms = now_ms; status = capability_from_role role }

unfoldable pub track_role : Cache → ℕ → ℕ → ℕ → Cache
track_role c n role now_ms = if n == 0 then c else elim (find c n) [
  | some r ↦ update_first (is_node n) (with_role role now_ms) c
  | none ↦ insert now_ms c (record {
    node_id = n;
    status = capability_from_role role;
    role = role;
    last_updated_ms = now_ms;
  })
]

unfoldable pub published : Bool → CapabilityStatus
published true = sr_active
published false = passive

unfoldable pub with_status : CapabilityStatus → ℕ → CapabilityRecord → CapabilityRecord
with_status status now_ms r = record r { last_updated_ms = now_ms; status = status }

unfoldable pub track_topology : Cache → ℕ → Bool → ℕ → Cache
track_topology c n signal_routing_active now_ms =
    let status = published signal_routing_active in
    if n == 0 then c else elim (find c n) [
      | some r ↦ update_first (is_node n) (with_status status now_ms) c
      | none ↦
          insert now_ms c
            (record { node_id = n; status = status; role = 0; last_updated_ms = now_ms })
    ]

-- The ids of the lost publishers, with one more.
unfoldable pub noted : List ℕ → CapabilityRecord → List ℕ
noted ids r =
    if is_signal_routing r.status && ltb (length ids) max_capability_records
    then ids ++ (r.node_id ∷ [])
    else ids

-- The loop of `prune` at index `i`, with so many records not yet looked at.
unfoldable pub prune_loop : ℕ → ℕ → ℕ → ℕ → Cache → List ℕ → Cache × List ℕ
prune_loop now_ms my_node zero i c ids = (c, ids)
prune_loop now_ms my_node (suc left) i c ids =
    let r = get_or c i blank in
    let kept = prune_loop now_ms my_node left (i + 1) c ids in
    let removed = prune_loop now_ms my_node left i (swap_remove blank i c) (noted ids r) in
    if r.node_id == my_node then kept else if is_stale now_ms r then removed else kept

unfoldable pub prune : Cache → ℕ → ℕ → Cache × List ℕ
prune c now_ms my_node = prune_loop now_ms my_node (length c) 0 c []

unfoldable pub publishes_topology : Cache → ℕ → Bool
publishes_topology c n = is_signal_routing (status_of c n)

abbrev pub has_role : Cache → ℕ → List ℕ → Bool
has_role c n roles = elim (role_of c n) [ none ↦ false | some role ↦ is_one_of roles role ]

unfoldable pub is_immediate_relay_router : Cache → ℕ → Bool
is_immediate_relay_router c n =
    if publishes_topology c n
    then false
    else has_role c n (role_router ∷ role_repeater ∷ role_router_client ∷ [])

unfoldable pub will_not_cancel_for_us : Cache → ℕ → Bool
will_not_cancel_for_us c n =
    if is_sr_active (status_of c n)
    then false
    else has_role c n (role_router ∷ role_router_late ∷ [])

unfoldable pub is_legacy : Cache → ℕ → Bool
is_legacy c n = is_legacy_status (status_of c n)

unfoldable pub is_legacy_router : Cache → ℕ → Bool
is_legacy_router c n =
    if not (is_legacy c n)
    then false
    else has_role c n (role_router ∷ role_router_late ∷ role_router_client ∷ role_repeater ∷ [])

unfoldable pub role_may_send_topology : ℕ → Bool
role_may_send_topology = is_one_of (
    role_client ∷ role_client_mute ∷ role_router ∷ role_router_client ∷ role_repeater
    ∷ role_router_late ∷ role_tracker ∷ role_sensor ∷ role_tak ∷ role_client_hidden
    ∷ role_tak_tracker ∷ role_client_base ∷ [])
