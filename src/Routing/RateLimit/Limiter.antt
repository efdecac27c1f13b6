-- ===== src/Routing/RateLimit/Limiter.antt =====
-- `should_drop`, the whole decision on one packet, with the questions `would_drop` and
-- `coverage_gate` that change no budget. The channel's utilisation, an `f32`, is an argument.
pub mod Frames
pub mod Relay
pub mod Refusal
pub mod Sizes
pub mod Charges
pub mod Bounds
use meshrustic.Base.{
  ℕ, ◌+◌, ◌-◌, ◌*◌, ◌/◌, min, max, Bool, true, false, not, ◌&&◌, ◌||◌, Option, none, some, List, [],
  ◌∷◌, ◌++◌, zero, suc, ◌==◌, leb, ltb, if◌then◌else◌, length, get_or, set, any, is_some,
  wrapping_sub, saturating_mul,
}
use meshrustic.Base.Float.{Float32}
use meshrustic.Protocol.Portnum.{RateLimitBucket, rate_limit_bucket}
use meshrustic.Routing.Graph.Placeholder.{is_placeholder_node}
use meshrustic.Routing.RateLimit.Types.{
  BucketState, OriginatorEntry, RelayEntry, YoungSighting, GraphProximity, NodeRateLimiter,
  RateLimitKind, RateLimitEvent, YoungAnnounce, any_limited, threshold_text, threshold_routing,
  threshold_other, threshold_unknown, young_trip, young_clear, max_young, announce_max_ids,
  announce_refractory_ms, relay_ref_airtime_ms, relay_trip_packets, relay_clear_packets,
  relay_trip_floor_ms, relay_trip_ceil_ms, relay_clear_floor_ms, relay_clear_ceil_ms,
}
use meshrustic.Routing.RateLimit.Bucket.{limited_at, originator_clear, check_and_update_bucket}
use meshrustic.Routing.RateLimit.Young.{
  note_boot, warmed_up, young_age_active, young_table_full, note_originator, is_young,
}
use meshrustic.Routing.RateLimit.Tables.{
  no_originator, no_relay, find_originator, find_relay, get_or_create_originator,
  get_or_create_relay,
}
use meshrustic.Routing.RateLimit.Dests.{
  RateLimitPacket, note_event, charge_dest_volume, should_drop_to_limited_dest,
}

unfoldable pub set_node_num : NodeRateLimiter → ℕ → NodeRateLimiter
set_node_num l node_num = record l { node_num = node_num }

unfoldable pub set_enabled : NodeRateLimiter → Bool → NodeRateLimiter
set_enabled l enabled = record l { enabled = enabled }

unfoldable pub take_event : NodeRateLimiter → Option RateLimitEvent × NodeRateLimiter
take_event l = (l.last_event, record l { last_event = none })

unfoldable pub take_announce : NodeRateLimiter → Option YoungAnnounce × NodeRateLimiter
take_announce l = (l.pending_announce, record l { pending_announce = none })

unfoldable pub set_announce_broadcast : NodeRateLimiter → Bool → NodeRateLimiter
set_announce_broadcast l enabled = record l { announce_broadcast = enabled }

unfoldable pub set_boot_ms : NodeRateLimiter → ℕ → NodeRateLimiter
set_boot_ms l boot_ms = record l { boot_ms = boot_ms; boot_known = true; boot_warmed = false }

unfoldable pub originator_limited : NodeRateLimiter → ℕ → Bool
originator_limited l node_id = elim (find_originator l node_id) [
  | none ↦ false
  | some i ↦ any_limited (get_or l.originators i no_originator)
]

abbrev pub bucket_of : RateLimitBucket → OriginatorEntry → BucketState
bucket_of RateLimitBucket.text e = e.text
bucket_of RateLimitBucket.routing e = e.routing
bucket_of RateLimitBucket.other e = e.other
bucket_of RateLimitBucket.unknown e = e.unknown

-- A write through `bucket_mut`.
abbrev pub bucket_mut : RateLimitBucket → OriginatorEntry → BucketState → OriginatorEntry
bucket_mut RateLimitBucket.text e b = record e { text = b }
bucket_mut RateLimitBucket.routing e b = record e { routing = b }
bucket_mut RateLimitBucket.other e b = record e { other = b }
bucket_mut RateLimitBucket.unknown e b = record e { unknown = b }

-- The limit of a class of packets and the name that its events bear.
abbrev pub trip_of : RateLimitBucket → ℕ
trip_of RateLimitBucket.text = threshold_text
trip_of RateLimitBucket.routing = threshold_routing
trip_of RateLimitBucket.other = threshold_other
trip_of RateLimitBucket.unknown = threshold_unknown

abbrev pub kind_of : RateLimitBucket → RateLimitKind
kind_of RateLimitBucket.text = RateLimitKind.text
kind_of RateLimitBucket.routing = RateLimitKind.routing
kind_of RateLimitBucket.other = RateLimitKind.other
kind_of RateLimitBucket.unknown = RateLimitKind.unknown

abbrev pub is_decoded : RateLimitBucket → Bool
is_decoded RateLimitBucket.unknown = false
is_decoded RateLimitBucket.text = true
is_decoded RateLimitBucket.routing = true
is_decoded RateLimitBucket.other = true

unfoldable pub relay_any_limited : NodeRateLimiter → ℕ → Bool
relay_any_limited l now_ms =
    limited_at l.unresolved_relay now_ms l.window relay_clear_floor_ms
    || any (λ e. limited_at e.relay now_ms l.window relay_clear_floor_ms) l.relays

-- The loop of `maybe_announce`, with room for so many ids: the ids, and the sightings with their
-- cells.
unfoldable pub collect_ids : ℕ → List YoungSighting → ℕ → List ℕ × List YoungSighting
collect_ids room [] now_ms = ([], [])
collect_ids zero (s ∷ rest) now_ms = ([], s ∷ rest)
collect_ids (suc room) (s ∷ rest) now_ms =
    let (active, s') = young_age_active s now_ms in
    let (ids, rest') = collect_ids (if active then room else suc room) rest now_ms in
    ((if active then s.node_id ∷ ids else ids), s' ∷ rest')

-- The relay that a packet is charged to: one that is known, other than this node and no placeholder.
unfoldable pub chargeable_relay : NodeRateLimiter → Option ℕ → Option ℕ
chargeable_relay l none = none
chargeable_relay l (some id) =
    if not (id == 0) && (not (id == l.node_num) && not (is_placeholder_node id))
    then some id
    else none

-- The charge of a packet to its sender's bucket.
unfoldable pub charge_originator :
    NodeRateLimiter → RateLimitPacket → (ℕ → GraphProximity) → Bool × NodeRateLimiter
charge_originator l pkt proximity =
    let class = rate_limit_bucket pkt.decoded_portnum in
    let (at, l1) = get_or_create_originator l pkt.from pkt.now_ms proximity in
    elim at [
      | none ↦ (false, l1)
      | some i ↦
          let e = get_or l1.originators i no_originator in
          let (limited, event, b) =
            check_and_update_bucket (bucket_of class e) (trip_of class)
              (originator_clear (trip_of class)) 1 pkt.now_ms l1.window pkt.from (kind_of class) in
          (
            limited,
            note_event (record l1 { originators = set l1.originators i (bucket_mut class e b) })
                event,
          )
    ]

module _ (fl : Float32) where
  open fl use {F32, lt, sub, mul, div, min_of, whole, half, to_u32}

  unfoldable pub maybe_announce : NodeRateLimiter → ℕ → F32 → NodeRateLimiter
  maybe_announce l now_ms channel_util_pct =
      if relay_any_limited l now_ms || lt (whole 25) channel_util_pct
      then l
      else if l.announce_ever && ltb (wrapping_sub now_ms l.last_announce_ms) announce_refractory_ms
      then l
      else let (ids, young) = collect_ids announce_max_ids l.young now_ms in
        record l {
          young = young;
          last_announce_ms = now_ms;
          announce_ever = true;
          pending_announce = some ids;
        }

  -- `base_trip as f32 * scale`, back as a `u32`.
  unfoldable pub scaled_trip : ℕ → F32 → ℕ
  scaled_trip base_trip channel_util_pct =
      let scale =
        if lt (whole 25) channel_util_pct
        then sub (whole 1)
            (mul half (min_of (div (sub channel_util_pct (whole 25)) (whole 25)) (whole 1)))
        else whole 1 in
      to_u32 (mul (whole base_trip) scale)

  -- The airtime that trips a relay's bucket, and that which keeps it limited.
  unfoldable pub relay_budgets : ℕ → F32 → ℕ × ℕ
  relay_budgets air_ms channel_util_pct =
      let air = if air_ms == 0 then relay_ref_airtime_ms else air_ms in
      let base_trip = saturating_mul relay_trip_packets air in
      let trip_ms =
        min (max (scaled_trip base_trip channel_util_pct) relay_trip_floor_ms) relay_trip_ceil_ms in
      let clear_ms = trip_ms * relay_clear_packets / relay_trip_packets in
      (trip_ms, min (max clear_ms relay_clear_floor_ms) relay_clear_ceil_ms)

  -- The charge of a decoded packet from a young node to the bucket that all of these share.
  unfoldable pub charge_young : NodeRateLimiter → RateLimitPacket → F32 → Bool × NodeRateLimiter
  charge_young l pkt channel_util_pct =
      let (warm, l1) = warmed_up l pkt.now_ms in
      if not warm
      then (false, l1)
      else let (young, l2) = is_young l1 pkt.from pkt.now_ms in
        if not young
        then (false, l2)
        else let (limited, event, b) =
            check_and_update_bucket l2.young_bucket young_trip young_clear 1 pkt.now_ms l2.window 0
              RateLimitKind.young in
          let l3 = note_event (record l2 { young_bucket = b }) event in
          (
            limited,
            elim event [
              | some (RateLimitEvent.trip _ _) ↦ maybe_announce l3 pkt.now_ms channel_util_pct
              | _ ↦ l3
            ],
          )

  -- The charge of the packet's airtime to the relay that it came by, or to the bucket that all
  -- relays not known share once the graph is established.
  unfoldable pub charge_relay :
      NodeRateLimiter → RateLimitPacket → F32 → (ℕ → GraphProximity) → Bool × NodeRateLimiter
  charge_relay l pkt channel_util_pct proximity =
      let air_ms = if pkt.airtime_ms == 0 then relay_ref_airtime_ms else pkt.airtime_ms in
      let (trip_ms, clear_ms) = relay_budgets air_ms channel_util_pct in
      let u = l.unresolved_relay in
      let l1 : NodeRateLimiter =
        if u.window_start_ms == 0 && (u.count == 0 && not u.limited)
        then record l { unresolved_relay = record u { window_start_ms = pkt.now_ms } }
        else l in
      elim (chargeable_relay l pkt.resolved_relay) [
        | some resolved ↦
            let (at, l2) = get_or_create_relay l1 resolved pkt.now_ms proximity in
            elim at [
              | none ↦ (false, l2)
              | some i ↦
                  let e = get_or l2.relays i no_relay in
                  let (limited, event, b) =
                    check_and_update_bucket e.relay trip_ms clear_ms air_ms pkt.now_ms l2.window
                      e.node_id RateLimitKind.relay in
                  (
                    limited,
                    note_event (record l2 { relays = set l2.relays i (record e { relay = b }) })
                        event,
                  )
            ]
        | none ↦
            if pkt.graph_established
            then (let (limited, event, b) =
                  check_and_update_bucket l1.unresolved_relay trip_ms clear_ms air_ms pkt.now_ms
                    l1.window 0 RateLimitKind.relay_unresolved in
                (limited, note_event (record l1 { unresolved_relay = b }) event))
            else (false, l1)
      ]

  abbrev is_dest_trip : Option RateLimitEvent → Bool
  is_dest_trip (some (RateLimitEvent.trip _ RateLimitKind.dest)) = true
  is_dest_trip _ = false

  -- What `should_drop` charges a packet for that no limit of its destination stops.
  unfoldable pub charge_all :
      NodeRateLimiter → RateLimitPacket → F32 → (ℕ → GraphProximity) → Bool × NodeRateLimiter
  charge_all l pkt channel_util_pct proximity =
      let decoded = is_decoded (rate_limit_bucket pkt.decoded_portnum) in
      let l1 = if decoded then note_originator l pkt.from pkt.now_ms else l in
      let (over, l2) = charge_originator l1 pkt proximity in
      let (young_over, l3) =
        if decoded then charge_young l2 pkt channel_util_pct else (false, l2) in
      if pkt.rebroadcast_candidate && not (over || young_over)
      then charge_relay l3 pkt channel_util_pct proximity
      else (over || young_over, l3)

  unfoldable pub should_drop :
      NodeRateLimiter → RateLimitPacket → F32 → (ℕ → GraphProximity) → Bool × NodeRateLimiter
  should_drop l pkt channel_util_pct proximity =
      let l0 : NodeRateLimiter = record l { last_event = none } in
      if not l.enabled || ((pkt.from == 0 || pkt.from == l.node_num) || pkt.to == l.node_num)
      then (false, l0)
      else let (over, l1) = charge_dest_volume (note_boot l0 pkt.now_ms) pkt proximity in
        if over || should_drop_to_limited_dest l1 pkt
        then (
          true,
          (if is_dest_trip l1.last_event
              then l1
              else record l1 { last_event = some (RateLimitEvent.dest_drop pkt.to) }),
        )
        else charge_all l1 pkt channel_util_pct proximity
