-- ===== src/Routing/RateLimit/Limiter/Charges.antt =====
-- The charges to a destination and to a sender keep the sizes of the tables.
use meshrustic.Base.{
  ℕ, zero, suc, ◌≡◌, refl, ap, arith, Bool, true, false, not, ◌||◌, List, [], ◌∷◌, if◌then◌else◌,
  length, get_or, set, length-set, Bool-cases, Option-cases, inl, inr,
}
use meshrustic.Routing.RateLimit.Types.{
  fresh_bucket, RelayEntry, DestEntry, OriginatorEntry, YoungSighting, GraphProximity,
  NodeRateLimiter, max_originators, max_relays, max_dests, RateLimitKind, dest_clear,
}
use meshrustic.Protocol.Portnum.{rate_limit_bucket}
use meshrustic.Routing.RateLimit.Bucket.{check_and_update_bucket, originator_clear}
use meshrustic.Routing.RateLimit.Young.{young_age_active}
use meshrustic.Routing.RateLimit.Tables.{
  get_or_create_originator, get_or_create_relay, get_or_create_dest, find_originator, find_relay,
  find_dest, find_originator_eviction_candidate, find_relay_eviction_candidate,
  find_dest_eviction_candidate, no_originator, no_dest,
}
use meshrustic.Routing.RateLimit.Dests.{
  RateLimitPacket, charge_dest_at, charge_dest_volume, is_unicast_dest, charges_dest_volume,
  roll_dest_senders, note_dest_sender, dest_trip_of,
}
use meshrustic.Routing.RateLimit.Limiter.{
  charge_originator, collect_ids, bucket_of, bucket_mut, trip_of, kind_of,
}
use meshrustic.Routing.RateLimit.Limiter.Sizes.{Fits, enter-length, note_event-Fits}

pub if-Fits : (b : Bool) (l m : NodeRateLimiter) → Fits l → Fits m → Fits (if b then l else m)
if-Fits true l m h k = h
if-Fits false l m h k = k

pub if_charged-Fits :
    (b : Bool) (r s : Bool × NodeRateLimiter) → Fits r.1 → Fits s.1 → Fits (if b then r else s).1
if_charged-Fits true r s h k = h
if_charged-Fits false r s h k = k

get_or_create_originator-Fits :
    (l : NodeRateLimiter) (id now : ℕ) (proximity : ℕ → GraphProximity)
    → Fits l
    → Fits (get_or_create_originator l id now proximity).1
unfolding get_or_create_originator
get_or_create_originator-Fits l id now proximity fits = elim (Option-cases (find_originator l id)) [
  | inr (i, hit) ↦
      let e : OriginatorEntry = record (get_or l.originators i no_originator) {
        last_seen_ms = now;
      } in
      rw (hit, get_or_create_originator) (omega (arith, fits, length-set l.originators i e))
  | inl miss ↦
      let e : OriginatorEntry = record {
        node_id = id;
        last_seen_ms = now;
        text = fresh_bucket now;
        routing = fresh_bucket now;
        other = fresh_bucket now;
        unknown = fresh_bucket now;
      } in
      let (fit, b, c, d, f) = fits in
      let entered =
        enter-length max_originators l.originators
          (find_originator_eviction_candidate l now proximity) e fit in
      rw (miss, get_or_create_originator) (entered, b, c, d, f)
]

pub get_or_create_relay-Fits :
    (l : NodeRateLimiter) (id now : ℕ) (proximity : ℕ → GraphProximity)
    → Fits l
    → Fits (get_or_create_relay l id now proximity).1
unfolding get_or_create_relay
get_or_create_relay-Fits l id now proximity fits = elim (Option-cases (find_relay l id)) [
  | inr (i, hit) ↦ rw (hit, get_or_create_relay) fits
  | inl miss ↦
      let e : RelayEntry = record { node_id = id; relay = fresh_bucket now } in
      let (a, fit, c, d, f) = fits in
      let entered =
        enter-length max_relays l.relays (find_relay_eviction_candidate l now proximity) e fit in
      rw (miss, get_or_create_relay) (a, entered, c, d, f)
]

get_or_create_dest-Fits :
    (l : NodeRateLimiter) (id now : ℕ) (proximity : ℕ → GraphProximity)
    → Fits l
    → Fits (get_or_create_dest l id now proximity).1
unfolding get_or_create_dest
get_or_create_dest-Fits l id now proximity fits = elim (Option-cases (find_dest l id)) [
  | inr (i, hit) ↦ rw (hit, get_or_create_dest) fits
  | inl miss ↦
      let e : DestEntry = record { node_id = id; dest = fresh_bucket now; senders = [] } in
      let (a, b, c, d, fit) = fits in
      let entered =
        enter-length max_dests l.dests (find_dest_eviction_candidate l now proximity) e fit in
      rw (miss, get_or_create_dest) (a, b, c, d, entered)
]

charge_dest_at-Fits :
    (l : NodeRateLimiter) (i : ℕ) (e : DestEntry) (charge now : ℕ)
    → Fits l
    → Fits (charge_dest_at l i e charge now).1
unfolding charge_dest_at
charge_dest_at-Fits l i e charge now fits =
    let (limited, event, dest) =
      check_and_update_bucket e.dest (dest_trip_of e) dest_clear charge now l.window e.node_id
        RateLimitKind.dest in
    let e' : DestEntry = record e { dest = dest } in
    note_event-Fits (record l { dests = set l.dests i e' }) event
      (omega (arith, fits, length-set l.dests i e'))

pub charge_dest_volume-Fits :
    (l : NodeRateLimiter) (pkt : RateLimitPacket) (proximity : ℕ → GraphProximity)
    → Fits l
    → Fits (charge_dest_volume l pkt proximity).1
unfolding charge_dest_volume
charge_dest_volume-Fits l pkt proximity fits =
    let l1 = (get_or_create_dest l pkt.to pkt.now_ms proximity).1 in
    let created = get_or_create_dest-Fits l pkt.to pkt.now_ms proximity fits in
    let rolled : NodeRateLimiter → ℕ → DestEntry =
      λ m i. roll_dest_senders (get_or m.dests i no_dest) pkt.now_ms m.window in
    elim (Bool-cases (not (is_unicast_dest pkt.to) || not pkt.on_default_channel)) [
      | inl out ↦ rw (charge_dest_volume, out) fits
      | inr ins ↦ elim (Bool-cases (charges_dest_volume pkt)) [
        | inl charged ↦ elim (Option-cases (get_or_create_dest l pkt.to pkt.now_ms proximity).0) [
          | inl none_free ↦ rw (charge_dest_volume, ins, charged, none_free) created
          | inr (i, at) ↦
              rw (charge_dest_volume, ins, charged, at)
                (charge_dest_at-Fits l1 i (note_dest_sender (rolled l1 i) pkt.from) 1 pkt.now_ms
                  created)
        ]
        | inr uncharged ↦ elim (Option-cases (find_dest l pkt.to)) [
          | inl miss ↦ rw (charge_dest_volume, ins, uncharged, miss) fits
          | inr (i, hit) ↦
              rw (charge_dest_volume, ins, uncharged, hit)
                (charge_dest_at-Fits l i (rolled l i) 0 pkt.now_ms fits)
        ]
      ]
    ]

pub charge_originator-Fits :
    (l : NodeRateLimiter) (pkt : RateLimitPacket) (proximity : ℕ → GraphProximity)
    → Fits l
    → Fits (charge_originator l pkt proximity).1
unfolding charge_originator
charge_originator-Fits l pkt proximity fits =
    let l1 = (get_or_create_originator l pkt.from pkt.now_ms proximity).1 in
    let class = rate_limit_bucket pkt.decoded_portnum in
    let created = get_or_create_originator-Fits l pkt.from pkt.now_ms proximity fits in
    elim (Option-cases (get_or_create_originator l pkt.from pkt.now_ms proximity).0) [
      | inl none_free ↦ rw (charge_originator, none_free) created
      | inr (i, at) ↦
          let e = get_or l1.originators i no_originator in
          let (limited, event, b) =
            check_and_update_bucket (bucket_of class e) (trip_of class)
              (originator_clear (trip_of class)) 1 pkt.now_ms l1.window pkt.from (kind_of class) in
          let e' = bucket_mut class e b in
          rw (charge_originator, at)
            (note_event-Fits (record l1 { originators = set l1.originators i e' }) event
              (omega (arith, created, length-set l1.originators i e')))
    ]

pub length-collect_ids :
    (room : ℕ) (young : List YoungSighting) (now : ℕ)
    → length (collect_ids room young now).1 ≡ length young
unfolding collect_ids
length-collect_ids room [] now = refl
length-collect_ids zero (s ∷ rest) now = refl
length-collect_ids (suc room) (s ∷ rest) now =
    ap suc (length-collect_ids (if (young_age_active s now).0 then room else suc room) rest now)
