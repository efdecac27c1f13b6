-- ===== src/Routing/RateLimit/Queries.antt =====
-- The questions that other parts of the router ask the limiter, which charge no bucket.
pub mod Gate
use meshrustic.Base.{
  ℕ, Bool, true, false, not, ◌&&◌, ◌||◌, Option, none, some, List, [], ◌∷◌, ◌++◌, ◌==◌, leb,
  if◌then◌else◌, get_or, any,
}
use meshrustic.Protocol.Portnum.{rate_limit_bucket}
use meshrustic.Routing.RateLimit.Types.{
  YoungSighting, NodeRateLimiter, young_clear, relay_clear_floor_ms,
}
use meshrustic.Routing.RateLimit.Bucket.{limited_at, originator_clear}
use meshrustic.Routing.RateLimit.Young.{warmed_up, young_age_active, young_table_full, is_young}
use meshrustic.Routing.RateLimit.Tables.{no_originator, no_relay, find_originator, find_relay}
use meshrustic.Routing.RateLimit.Dests.{RateLimitPacket, should_drop_to_limited_dest}
use meshrustic.Routing.RateLimit.Limiter.{bucket_of, trip_of, is_decoded, chargeable_relay}

pub record YoungCoverageGate : Type 0 where
  pub active : Bool
  pub table_full : Bool
  pub ids : List ℕ
  pub established : List ℕ

abbrev pub empty_gate : YoungCoverageGate
empty_gate = record { active = false; table_full = false; ids = []; established = [] }

unfoldable pub blocks : YoungCoverageGate → ℕ → Bool
blocks g node_id =
    if not g.active || node_id == 0
    then false
    else if g.table_full
    then not (any (λ a. a == node_id) g.established)
    else any (λ a. a == node_id) g.ids

-- The nodes of the sightings that are still young, and of those that are not.
unfoldable pub split_young : List YoungSighting → ℕ → List ℕ × List ℕ
split_young [] now_ms = ([], [])
split_young (s ∷ rest) now_ms =
    let active = (young_age_active s now_ms).0 in
    let (ids, aged) = split_young rest now_ms in
    ((if active then s.node_id ∷ ids else ids), (if active then aged else s.node_id ∷ aged))

unfoldable pub coverage_gate : NodeRateLimiter → ℕ → YoungCoverageGate × NodeRateLimiter
coverage_gate l now_ms =
    if not l.enabled
    then (empty_gate, l)
    else let (warm, l1) = warmed_up l now_ms in
      if not warm || not (limited_at l1.young_bucket now_ms l1.window young_clear)
      then (empty_gate, l1)
      else let (full, l2) = young_table_full l1 now_ms in
        let (ids, aged) = split_young l1.young now_ms in
        (
          record { active = true; table_full = full; ids = ids; established = l1.alumni ++ aged },
          l2,
        )

-- Whether the sender's bucket for this class of packets is limited.
unfoldable pub sender_limited : NodeRateLimiter → RateLimitPacket → Bool
sender_limited l pkt =
    let class = rate_limit_bucket pkt.decoded_portnum in
    elim (find_originator l pkt.from) [
      | none ↦ false
      | some i ↦
          limited_at (bucket_of class (get_or l.originators i no_originator)) pkt.now_ms l.window
            (originator_clear (trip_of class))
    ]

-- Whether the young nodes' bucket stops the packet, with the cells that the question sets.
unfoldable pub young_stops : NodeRateLimiter → RateLimitPacket → Bool × NodeRateLimiter
young_stops l pkt =
    if not (is_decoded (rate_limit_bucket pkt.decoded_portnum))
    then (false, l)
    else let (warm, l1) = warmed_up l pkt.now_ms in
      if not warm
      then (false, l1)
      else let (young, l2) = is_young l1 pkt.from pkt.now_ms in
        (young && limited_at l2.young_bucket pkt.now_ms l2.window young_clear, l2)

unfoldable pub relay_stops : NodeRateLimiter → RateLimitPacket → Bool
relay_stops l pkt = elim (chargeable_relay l pkt.resolved_relay) [
  | some id ↦ elim (find_relay l id) [
    | none ↦ false
    | some i ↦
        limited_at (get_or l.relays i no_relay).relay pkt.now_ms l.window relay_clear_floor_ms
  ]
  | none ↦
      pkt.graph_established
      && limited_at l.unresolved_relay pkt.now_ms l.window relay_clear_floor_ms
]

unfoldable pub would_drop : NodeRateLimiter → RateLimitPacket → Bool × NodeRateLimiter
would_drop l pkt =
    if not l.enabled || (pkt.from == 0 || (pkt.from == l.node_num || pkt.to == l.node_num))
    then (false, l)
    else if should_drop_to_limited_dest l pkt || sender_limited l pkt
    then (true, l)
    else let (stops, l1) = young_stops l pkt in
      if stops then (true, l1) else (pkt.rebroadcast_candidate && relay_stops l1 pkt, l1)
