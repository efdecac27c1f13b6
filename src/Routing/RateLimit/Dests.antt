-- ===== src/Routing/RateLimit/Dests.antt =====
-- The control traffic that many senders direct at one destination, and its limit.
use meshrustic.Base.{
  ℕ, ◌-◌, ◌^◌, Bool, false, not, ◌&&◌, ◌||◌, Option, none, some, [], ◌∷◌, ◌++◌, ◌==◌, leb, ltb,
  if◌then◌else◌, length, get_or, set, any, wrapping_sub,
}
use meshrustic.Protocol.Header.{nodenum_broadcast}
use meshrustic.Routing.RateLimit.Types.{
  BucketState, DestEntry, GraphProximity, NodeRateLimiter, RateLimitKind, RateLimitEvent, dest_trip,
  dest_clear, dest_min_senders, dest_sender_slots,
}
use meshrustic.Routing.RateLimit.Bucket.{check_and_update_bucket}
use meshrustic.Routing.RateLimit.Tables.{
  no_dest, find_dest, get_or_create_dest, originator_limited_at, dest_volume_limited_at,
}

-- The packet as the limiter sees it, but for the channel's utilisation.
pub record RateLimitPacket : Type 0 where
  pub from : ℕ
  pub to : ℕ
  pub decoded_portnum : Option ℕ
  pub now_ms : ℕ
  pub rebroadcast_candidate : Bool
  pub resolved_relay : Option ℕ
  pub airtime_ms : ℕ
  pub graph_established : Bool
  pub on_default_channel : Bool

unfoldable pub is_unicast_dest : ℕ → Bool
is_unicast_dest to = not (to == 0) && not (to == nodenum_broadcast)

-- POSITION_APP, NODEINFO_APP or TELEMETRY_APP.
unfoldable pub dest_volume_port : Option ℕ → Bool
dest_volume_port none = false
dest_volume_port (some port) = port == 3 || (port == 4 || port == 67)

unfoldable pub charges_dest_volume : RateLimitPacket → Bool
charges_dest_volume pkt =
    pkt.on_default_channel
    && (is_unicast_dest pkt.to
        && (pkt.rebroadcast_candidate && dest_volume_port pkt.decoded_portnum))

unfoldable pub dest_window_will_roll : BucketState → ℕ → ℕ → Bool
dest_window_will_roll b now_ms window_ms = leb window_ms (wrapping_sub now_ms b.window_start_ms)

unfoldable pub roll_dest_senders : DestEntry → ℕ → ℕ → DestEntry
roll_dest_senders e now_ms window_ms =
    if dest_window_will_roll e.dest now_ms window_ms then record e { senders = [] } else e

unfoldable pub note_dest_sender : DestEntry → ℕ → DestEntry
note_dest_sender e from =
    if from == 0
    then e
    else if any (λ s. s == from) e.senders
    then e
    else if ltb (length e.senders) dest_sender_slots
    then record e { senders = e.senders ++ (from ∷ []) }
    else e

-- `u32::MAX` where too few senders are known.
unfoldable pub dest_trip_of : DestEntry → ℕ
dest_trip_of e =
    if e.dest.limited || leb dest_min_senders (length e.senders) then dest_trip else 2 ^ 32 - 1

abbrev pub note_event : NodeRateLimiter → Option RateLimitEvent → NodeRateLimiter
note_event l none = l
note_event l (some event) = record l { last_event = some event }

-- The bucket of the destination at an index charged: whether it is limited, and the limiter.
unfoldable pub charge_dest_at : NodeRateLimiter → ℕ → DestEntry → ℕ → ℕ → Bool × NodeRateLimiter
charge_dest_at l i e charge now_ms =
    let (limited, event, dest) =
      check_and_update_bucket e.dest (dest_trip_of e) dest_clear charge now_ms l.window e.node_id
        RateLimitKind.dest in
    (limited, note_event (record l { dests = set l.dests i (record e { dest = dest }) }) event)

unfoldable pub dest_volume_limited : NodeRateLimiter → ℕ → Bool
dest_volume_limited l node_id = elim (find_dest l node_id) [
  | none ↦ false
  | some i ↦ (get_or l.dests i no_dest).dest.limited
]

unfoldable pub charge_dest_volume :
    NodeRateLimiter → RateLimitPacket → (ℕ → GraphProximity) → Bool × NodeRateLimiter
charge_dest_volume l pkt proximity =
    if not (is_unicast_dest pkt.to) || not pkt.on_default_channel
    then (false, l)
    else if charges_dest_volume pkt
    then (let (at, l1) = get_or_create_dest l pkt.to pkt.now_ms proximity in
        elim at [
          | none ↦ (dest_volume_limited l1 pkt.to, l1)
          | some i ↦
              let rolled = roll_dest_senders (get_or l1.dests i no_dest) pkt.now_ms l1.window in
              charge_dest_at l1 i (note_dest_sender rolled pkt.from) 1 pkt.now_ms
        ])
    else elim (find_dest l pkt.to) [
      | none ↦ (dest_volume_limited l pkt.to, l)
      | some i ↦
          let rolled = roll_dest_senders (get_or l.dests i no_dest) pkt.now_ms l.window in
          let l1 = (charge_dest_at l i rolled 0 pkt.now_ms).1 in (dest_volume_limited l1 pkt.to, l1)
    ]

unfoldable pub should_drop_to_limited_dest : NodeRateLimiter → RateLimitPacket → Bool
should_drop_to_limited_dest l pkt =
    if not pkt.on_default_channel || not (is_unicast_dest pkt.to)
    then false
    else originator_limited_at l pkt.to pkt.now_ms || dest_volume_limited_at l pkt.to pkt.now_ms
