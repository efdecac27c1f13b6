-- ===== src/Routing/RateLimit/Limiter/Bounds.antt =====
-- `should_drop` keeps the tables within the arrays of the code.
use meshrustic.Base.{
  ℕ, arith, false, not, ◌&&◌, ◌||◌, Option, none, some, if◌then◌else◌, get_or, ◌==◌, set,
  length-set, Bool-cases, Option-cases, inl, inr,
}
use meshrustic.Routing.RateLimit.Types.{
  RelayEntry, RateLimitEvent, GraphProximity, NodeRateLimiter, announce_max_ids, young_trip,
  young_clear, relay_ref_airtime_ms, RateLimitKind,
}
use meshrustic.Protocol.Portnum.{rate_limit_bucket}
use meshrustic.Routing.RateLimit.Bucket.{check_and_update_bucket}
use meshrustic.Routing.RateLimit.Young.{note_boot, warmed_up, note_originator, is_young}
use meshrustic.Routing.RateLimit.Tables.{get_or_create_relay, no_relay}
use meshrustic.Routing.RateLimit.Dests.{
  RateLimitPacket, note_event, charge_dest_volume, should_drop_to_limited_dest,
}
use meshrustic.Base.Float.{Float32}
use meshrustic.Routing.RateLimit.Limiter.{
  is_dest_trip, charge_originator, charge_relay, charge_young, charge_all, should_drop,
  maybe_announce, relay_budgets, chargeable_relay, is_decoded,
}
use meshrustic.Routing.RateLimit.Limiter.Sizes.{
  Fits, note_event-Fits, note_boot-Fits, warmed_up-Fits, note_originator-Fits, is_young-Fits,
}
use meshrustic.Routing.RateLimit.Limiter.Charges.{
  if-Fits, if_charged-Fits, get_or_create_relay-Fits, charge_dest_volume-Fits,
  charge_originator-Fits, length-collect_ids,
}

module _ (fl : Float32) (util : fl.F32) where
  maybe_announce-Fits :
      (l : NodeRateLimiter) (now : ℕ) → Fits l → Fits (maybe_announce fl l now util)
  unfolding maybe_announce
  maybe_announce-Fits l now fits = ground (arith, length-collect_ids announce_max_ids l.young now)

  abbrev announce_on : Option RateLimitEvent → NodeRateLimiter → ℕ → NodeRateLimiter
  announce_on event l now = elim event [
    | some (RateLimitEvent.trip _ _) ↦ maybe_announce fl l now util
    | _ ↦ l
  ]

  announce_on-Fits :
      (event : Option RateLimitEvent) (l : NodeRateLimiter) (now : ℕ)
      → Fits l
      → Fits (announce_on event l now)
  announce_on-Fits none l now fits = fits
  announce_on-Fits (some (RateLimitEvent.trip _ _)) l now fits = maybe_announce-Fits l now fits
  announce_on-Fits (some (RateLimitEvent.clear _ _)) l now fits = fits
  announce_on-Fits (some (RateLimitEvent.dest_drop _)) l now fits = fits

  charge_young-Fits :
      (l : NodeRateLimiter) (pkt : RateLimitPacket) → Fits l → Fits (charge_young fl l pkt util).1
  unfolding charge_young
  charge_young-Fits l pkt fits =
      let (warm, l1) = warmed_up l pkt.now_ms in
      let (young, l2) = is_young l1 pkt.from pkt.now_ms in
      let warmed = warmed_up-Fits l pkt.now_ms fits in
      let asked = is_young-Fits l1 pkt.from pkt.now_ms warmed in
      let (limited, event, b) =
        check_and_update_bucket l2.young_bucket young_trip young_clear 1 pkt.now_ms l2.window 0
          RateLimitKind.young in
      let l3 = note_event (record l2 { young_bucket = b }) event in
      let noted = note_event-Fits (record l2 { young_bucket = b }) event asked in
      elim (Bool-cases warm) [
        | inr cold ↦ rw (charge_young, cold) warmed
        | inl yes_warm ↦ elim (Bool-cases young) [
          | inr old ↦ rw (charge_young, yes_warm, old) asked
          | inl is_new ↦
              rw (charge_young, yes_warm, is_new) (announce_on-Fits event l3 pkt.now_ms noted)
        ]
      ]

  charge_relay-Fits :
      (l : NodeRateLimiter) (pkt : RateLimitPacket) (proximity : ℕ → GraphProximity)
      → Fits l
      → Fits (charge_relay fl l pkt util proximity).1
  unfolding charge_relay
  charge_relay-Fits l pkt proximity fits =
      let air_ms = if pkt.airtime_ms == 0 then relay_ref_airtime_ms else pkt.airtime_ms in
      let (trip_ms, clear_ms) = relay_budgets fl air_ms util in
      let u = l.unresolved_relay in
      let l1 : NodeRateLimiter =
        if u.window_start_ms == 0 && (u.count == 0 && not u.limited)
        then record l { unresolved_relay = record u { window_start_ms = pkt.now_ms } }
        else l in
      let started : Fits l1 = ground arith in
      elim (Option-cases (chargeable_relay l pkt.resolved_relay)) [
        | inr (resolved, known) ↦
            let l2 = (get_or_create_relay l1 resolved pkt.now_ms proximity).1 in
            let created = get_or_create_relay-Fits l1 resolved pkt.now_ms proximity started in
            elim (Option-cases (get_or_create_relay l1 resolved pkt.now_ms proximity).0) [
              | inl none_free ↦ rw (charge_relay, known, none_free) created
              | inr (i, at) ↦
                  let e = get_or l2.relays i no_relay in
                  let (limited, event, b) =
                    check_and_update_bucket e.relay trip_ms clear_ms air_ms pkt.now_ms l2.window
                      e.node_id RateLimitKind.relay in
                  let e' : RelayEntry = record e { relay = b } in
                  rw (charge_relay, known, at)
                    (note_event-Fits (record l2 { relays = set l2.relays i e' }) event
                      (omega (arith, created, length-set l2.relays i e')))
            ]
        | inl unknown ↦
            let (limited, event, b) =
              check_and_update_bucket l1.unresolved_relay trip_ms clear_ms air_ms pkt.now_ms
                l1.window 0 RateLimitKind.relay_unresolved in
            let noted = note_event-Fits (record l1 { unresolved_relay = b }) event started in
            elim (Bool-cases pkt.graph_established) [
              | inl up ↦ rw (charge_relay, unknown, up) noted
              | inr down ↦ rw (charge_relay, unknown, down) started
            ]
      ]

  charge_all-Fits :
      (l : NodeRateLimiter) (pkt : RateLimitPacket) (proximity : ℕ → GraphProximity)
      → Fits l
      → Fits (charge_all fl l pkt util proximity).1
  unfolding charge_all
  charge_all-Fits l pkt proximity fits =
      let decoded = is_decoded (rate_limit_bucket pkt.decoded_portnum) in
      let l1 = if decoded then note_originator l pkt.from pkt.now_ms else l in
      let noted =
        if-Fits decoded (note_originator l pkt.from pkt.now_ms) l
          (note_originator-Fits l pkt.from pkt.now_ms fits) fits in
      let (over, l2) = charge_originator l1 pkt proximity in
      let charged = charge_originator-Fits l1 pkt proximity noted in
      let (young_over, l3) = if decoded then charge_young fl l2 pkt util else (false, l2) in
      let shared =
        if_charged-Fits decoded (charge_young fl l2 pkt util) (false, l2)
          (charge_young-Fits l2 pkt charged) charged in
      elim (Bool-cases (pkt.rebroadcast_candidate && not (over || young_over))) [
        | inl relayed ↦ rw (charge_all, relayed) (charge_relay-Fits l3 pkt proximity shared)
        | inr ended ↦ rw (charge_all, ended) shared
      ]

  -- Tables within 16 senders, 8 relays, 32 young and 128 established nodes and 8 destinations are
  -- within these bounds after any packet.
  pub should_drop-Fits :
      (l : NodeRateLimiter) (pkt : RateLimitPacket) (proximity : ℕ → GraphProximity)
      → Fits l
      → Fits (should_drop fl l pkt util proximity).1
  unfolding should_drop
  should_drop-Fits l pkt proximity fits =
      let l0 = note_boot (record l { last_event = none }) pkt.now_ms in
      let booted = note_boot-Fits (record l { last_event = none }) pkt.now_ms fits in
      let (over, l1) = charge_dest_volume l0 pkt proximity in
      let charged = charge_dest_volume-Fits l0 pkt proximity booted in
      let all = charge_all-Fits l1 pkt proximity charged in
      elim (Bool-cases
        (not l.enabled || ((pkt.from == 0 || pkt.from == l.node_num) || pkt.to == l.node_num))) [
          | inl exempt ↦ rw (should_drop, exempt) fits
          | inr considered ↦ elim (Bool-cases (over || should_drop_to_limited_dest l1 pkt)) [
            | inr open_yet ↦ rw (should_drop, considered, open_yet) all
            | inl full ↦ elim (Bool-cases (is_dest_trip fl l1.last_event)) [
              | inl tripped ↦ rw (should_drop, considered, full, tripped) charged
              | inr quiet ↦ rw (should_drop, considered, full, quiet) charged
            ]
          ]
        ]
