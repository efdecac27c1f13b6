-- ===== src/Routing/RateLimit/Limiter/Refusal.antt =====
-- Packets that a limit already in force stops.
use meshrustic.Base.{
  List, position, ℕ, ◌≡◌, refl, ap, ◌∙◌, arith, Bool, true, false, inl, inr, ◌≢◌, Option, some,
  none, ◌==◌, get_or, set, Bool-cases, position_sound, get_or-set_self,
}
use meshrustic.Base.Float.{Float32}
use meshrustic.Protocol.Portnum.{RateLimitBucket, rate_limit_bucket}
use meshrustic.Routing.RateLimit.Types.{
  BucketState, NodeRateLimiter, OriginatorEntry, GraphProximity,
}
use meshrustic.Routing.RateLimit.Bucket.{limited_at, originator_clear, check_and_update_bucket}
use meshrustic.Routing.RateLimit.Young.{note_originator, note_boot}
use meshrustic.Routing.RateLimit.Tables.{find_originator, no_originator, get_or_create_originator}
use meshrustic.Routing.RateLimit.Dests.{RateLimitPacket, charge_dest_volume, note_event}
use meshrustic.Routing.RateLimit.Limiter.{
  is_decoded, bucket_of, bucket_mut, trip_of, kind_of, charge_originator, should_drop, charge_all,
}
use meshrustic.Routing.RateLimit.Bucket.Hold.{ClearOk, check-limited_at}
use meshrustic.Routing.RateLimit.Limiter.Frames.{
  SameSenders, same_trans, charge_dest_volume-senders, note_originator-senders, note_boot-senders,
}

-- The bucket of a sender's class of packets, and whether it is limited at a time.
abbrev pub class_of : RateLimitPacket → RateLimitBucket
class_of pkt = rate_limit_bucket pkt.decoded_portnum

abbrev pub sender_bucket : NodeRateLimiter → RateLimitPacket → ℕ → BucketState
sender_bucket l pkt i = bucket_of (class_of pkt) (get_or l.originators i no_originator)

abbrev seen : NodeRateLimiter → ℕ → ℕ → OriginatorEntry
seen l i now = record (get_or l.originators i no_originator) { last_seen_ms = now }

get_or_create_originator-hit :
    (l : NodeRateLimiter) (id now : ℕ) (proximity : ℕ → GraphProximity) (i : ℕ)
    → find_originator l id ≡ some i
    → get_or_create_originator l id now proximity
      ≡ (some i, record l { originators = set l.originators i (seen l i now) })
unfolding get_or_create_originator
get_or_create_originator-hit l id now proximity i hit = rw (hit, get_or_create_originator) refl

bucket_of-seen :
    (class : RateLimitBucket) (e : OriginatorEntry) (now : ℕ)
    → bucket_of class (record e { last_seen_ms = now }) ≡ bucket_of class e
bucket_of-seen RateLimitBucket.text e now = refl
bucket_of-seen RateLimitBucket.routing e now = refl
bucket_of-seen RateLimitBucket.other e now = refl
bucket_of-seen RateLimitBucket.unknown e now = refl

-- What the check of the entry found says.
abbrev charge_found : RateLimitPacket → Option ℕ × NodeRateLimiter → Bool
charge_found pkt (none, l) = false
charge_found pkt (some i, l) =
    let class = class_of pkt in
    (check_and_update_bucket (sender_bucket l pkt i) (trip_of class)
      (originator_clear (trip_of class)) 1 pkt.now_ms l.window pkt.from (kind_of class)).0

charge_originator-found :
    (l : NodeRateLimiter) (pkt : RateLimitPacket) (proximity : ℕ → GraphProximity)
    → (charge_originator l pkt proximity).0
      ≡ charge_found pkt (get_or_create_originator l pkt.from pkt.now_ms proximity)
unfolding charge_originator
charge_originator-found l pkt proximity =
    by_place (get_or_create_originator l pkt.from pkt.now_ms proximity)
  where
    by_place :
        (r : Option ℕ × NodeRateLimiter)
        → (elim r.0 as (λ _. Bool × NodeRateLimiter) [
          | none ↦ (false, r.1)
          | some i ↦
              let class = class_of pkt in
              let e = get_or r.1.originators i no_originator in
              let (limited, event, b) =
                check_and_update_bucket
                  (bucket_of class e)
                  (trip_of class)
                  (originator_clear (trip_of class))
                  1
                  pkt.now_ms
                  r.1.window
                  pkt.from
                  (kind_of class) in
              (
                limited,
                note_event
                    (record r.1 { originators = set r.1.originators i (bucket_mut class e b) })
                    event,
              )
        ]).0
          ≡ charge_found pkt r
    by_place (none, m) = refl
    by_place (some i, m) = refl

-- The charge to a sender's bucket that is limited.
charge_originator-limited :
    (l : NodeRateLimiter) (pkt : RateLimitPacket) (proximity : ℕ → GraphProximity) (i : ℕ)
    → find_originator l pkt.from ≡ some i
    → let clear = originator_clear (trip_of (class_of pkt)) in
      ClearOk (sender_bucket l pkt i) clear
      → limited_at (sender_bucket l pkt i) pkt.now_ms l.window clear ≡ true
      → (charge_originator l pkt proximity).0 ≡ true
unfolding find_originator
charge_originator-limited l pkt proximity i hit ok lim =
    let (here, _) = position_sound (λ e. e.node_id == pkt.from) l.originators no_originator hit in
    let class = class_of pkt in
    let e = get_or l.originators i no_originator in
    let same : bucket_of class (get_or (set l.originators i (seen l i pkt.now_ms)) i no_originator)
        ≡ bucket_of class e =
      ap (bucket_of class)
        (get_or-set_self l.originators i (seen l i pkt.now_ms) no_originator here)
      ∙ bucket_of-seen class e pkt.now_ms in
    charge_originator-found l pkt proximity
    ∙ ap (charge_found pkt) (get_or_create_originator-hit l pkt.from pkt.now_ms proximity i hit)
    ∙ rw (charge_found, same)
        (check-limited_at (bucket_of class e) (trip_of class) (originator_clear (trip_of class)) 1
          pkt.now_ms l.window pkt.from (kind_of class) ok lim).0

-- The packet is not one that the limiter leaves alone.
abbrev pub Considered : NodeRateLimiter → RateLimitPacket → Type 0
Considered l pkt =
    (l.enabled ≡ true) × (pkt.from ≢ 0) × (pkt.from ≢ l.node_num) × (pkt.to ≢ l.node_num)

-- Among the entries the sender's stands at an index, and its bucket for the packet's class is limited
-- when the packet comes.
abbrev pub LimitedIn : List OriginatorEntry → ℕ → RateLimitPacket → ℕ → Type 0
LimitedIn entries window pkt i =
    let class = class_of pkt in
    let b = bucket_of class (get_or entries i no_originator) in
    (position (λ e. e.node_id == pkt.from) entries ≡ some i)
    × ClearOk b (originator_clear (trip_of class))
    × (limited_at b pkt.now_ms window (originator_clear (trip_of class)) ≡ true)

along :
    (l l' : NodeRateLimiter) (pkt : RateLimitPacket) (i : ℕ)
    → SameSenders l l'
    → LimitedIn l.originators l.window pkt i
    → LimitedIn l'.originators l'.window pkt i
along l l' pkt i (p, q) h = rw (p, q) h

sender-limited :
    (l l' : NodeRateLimiter) (pkt : RateLimitPacket) (proximity : ℕ → GraphProximity) (i : ℕ)
    → SameSenders l l'
    → LimitedIn l.originators l.window pkt i
    → (charge_originator l' pkt proximity).0 ≡ true
unfolding find_originator
sender-limited l l' pkt proximity i same h =
    let (hit, ok, lim) = along l l' pkt i same h in
    charge_originator-limited l' pkt proximity i hit ok lim

charge_all-limited :
    (fl : Float32) (l : NodeRateLimiter) (pkt : RateLimitPacket) (util : fl.F32)
    (proximity : ℕ → GraphProximity) (i : ℕ)
    → LimitedIn l.originators l.window pkt i
    → (charge_all fl l pkt util proximity).0 ≡ true
unfolding charge_all
charge_all-limited fl l pkt util proximity i h =
    let l1 = note_originator l pkt.from pkt.now_ms in
    elim (Bool-cases (is_decoded (class_of pkt))) [
      | inl decoded ↦
          let over =
            sender-limited l l1 pkt proximity i (note_originator-senders l pkt.from pkt.now_ms) h in
          ground arith
      | inr unknown ↦ let over = sender-limited l l pkt proximity i (refl, refl) h in ground arith
    ]

-- Let the limiter be enabled, and a packet be neither from node 0, nor from this node, nor to this node:
-- the others it leaves alone. If the packet's sender has an entry whose bucket for this class of
-- packets is limited at that time, and the bucket keeps no threshold other than that of its class,
-- then the packet is dropped, to whatever other node it goes and whatever the rest of the state is.
pub should_drop-limited :
    (fl : Float32) (l : NodeRateLimiter) (pkt : RateLimitPacket) (util : fl.F32)
    (proximity : ℕ → GraphProximity) (i : ℕ)
    → Considered l pkt
    → LimitedIn l.originators l.window pkt i
    → (should_drop fl l pkt util proximity).0 ≡ true
unfolding should_drop
should_drop-limited fl l pkt util proximity i con h =
    let l0 = note_boot (record l { last_event = none }) pkt.now_ms in
    let (over, l1) = charge_dest_volume l0 pkt proximity in
    let kept =
      same_trans l l0 l1 (note_boot-senders (record l { last_event = none }) pkt.now_ms)
        (charge_dest_volume-senders l0 pkt proximity) in
    let all = charge_all-limited fl l1 pkt util proximity i (along l l1 pkt i kept h) in
    ground arith
