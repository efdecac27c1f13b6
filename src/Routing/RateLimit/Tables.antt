-- ===== src/Routing/RateLimit/Tables.antt =====
-- The tables of originators, relays and destinations: look-up, entry and eviction.
pub mod Eviction
use meshrustic.Base.{
  ℕ, ◌+◌, Bool, true, false, not, ◌&&◌, ◌||◌, Option, none, some, List, [], ◌∷◌, ◌++◌, map, ◌==◌,
  ltb, if◌then◌else◌, length, get_or, set, position, is_some, wrapping_sub,
}
use meshrustic.Protocol.Portnum.{RateLimitBucket}
use meshrustic.Routing.RateLimit.Types.{
  BucketState, fresh_bucket, OriginatorEntry, RelayEntry, DestEntry, GraphProximity,
  NodeRateLimiter, max_originators, max_relays, max_dests, threshold_text, threshold_routing,
  threshold_other, threshold_unknown, relay_clear_floor_ms, dest_clear,
}
use meshrustic.Routing.RateLimit.Bucket.{limited_at, originator_clear}

-- The order of the tuples `(!in_graph, hops, age)`.
pub record Rank : Type 0 where
  pub outside : Bool
  pub hops : ℕ
  pub age : ℕ

abbrev pub rank_lt : Rank → Rank → Bool
rank_lt a b =
    (not a.outside && b.outside)
    || (((a.outside && b.outside) || (not a.outside && not b.outside))
        && (ltb a.hops b.hops || (a.hops == b.hops && ltb a.age b.age)))

abbrev pub lowest : Rank
lowest = record { outside = false; hops = 0; age = 0 }

-- What `eviction_candidate` is given of an entry: its node, whether it is limited, and its age.
abbrev pub Candidate : Type 0
Candidate = ℕ × Bool × ℕ

abbrev pub rank_of : (ℕ → GraphProximity) → Candidate → Rank
rank_of proximity (id, _, age) = record {
  outside = not (proximity id).in_graph;
  hops = (proximity id).hops;
  age = age;
}

-- The loop of `eviction_candidate` from index `i` on.
unfoldable pub best_from : (ℕ → GraphProximity) → List Candidate → ℕ → Option ℕ → Rank → Option ℕ
best_from proximity [] i best best_rank = best
best_from proximity (c ∷ rest) i best best_rank =
    let rank = rank_of proximity c in
    let better = not c.1 && (not (is_some best) || rank_lt best_rank rank) in
    best_from proximity rest (i + 1) (if better then some i else best)
      (if better then rank else best_rank)

unfoldable pub eviction_candidate : (ℕ → GraphProximity) → List Candidate → Option ℕ
eviction_candidate proximity entries = best_from proximity entries 0 none lowest

abbrev pub no_originator : OriginatorEntry
no_originator = record {
  node_id = 0;
  last_seen_ms = 0;
  text = fresh_bucket 0;
  routing = fresh_bucket 0;
  other = fresh_bucket 0;
  unknown = fresh_bucket 0;
}

abbrev pub no_relay : RelayEntry
no_relay = record { node_id = 0; relay = fresh_bucket 0 }

abbrev pub no_dest : DestEntry
no_dest = record { node_id = 0; dest = fresh_bucket 0; senders = [] }

unfoldable pub find_originator : NodeRateLimiter → ℕ → Option ℕ
find_originator l node_id = position (λ e. e.node_id == node_id) l.originators

unfoldable pub find_relay : NodeRateLimiter → ℕ → Option ℕ
find_relay l node_id = position (λ e. e.node_id == node_id) l.relays

unfoldable pub find_dest : NodeRateLimiter → ℕ → Option ℕ
find_dest l node_id = position (λ e. e.node_id == node_id) l.dests

unfoldable pub entry_limited_at : OriginatorEntry → ℕ → ℕ → Bool
entry_limited_at e now_ms window =
    limited_at e.text now_ms window (originator_clear threshold_text)
    || (limited_at e.routing now_ms window (originator_clear threshold_routing)
        || (limited_at e.other now_ms window (originator_clear threshold_other)
            || limited_at e.unknown now_ms window (originator_clear threshold_unknown)))

unfoldable pub originator_limited_at : NodeRateLimiter → ℕ → ℕ → Bool
originator_limited_at l node_id now_ms = elim (find_originator l node_id) [
  | none ↦ false
  | some i ↦ entry_limited_at (get_or l.originators i no_originator) now_ms l.window
]

unfoldable pub dest_volume_limited_at : NodeRateLimiter → ℕ → ℕ → Bool
dest_volume_limited_at l node_id now_ms = elim (find_dest l node_id) [
  | none ↦ false
  | some i ↦ limited_at (get_or l.dests i no_dest).dest now_ms l.window dest_clear
]

unfoldable pub find_originator_eviction_candidate :
    NodeRateLimiter → ℕ → (ℕ → GraphProximity) → Option ℕ
find_originator_eviction_candidate l now_ms proximity = eviction_candidate proximity (
    map
      (λ e.
        (e.node_id, originator_limited_at l e.node_id now_ms, wrapping_sub now_ms e.last_seen_ms))
      l.originators)

unfoldable pub find_relay_eviction_candidate : NodeRateLimiter → ℕ → (ℕ → GraphProximity) → Option ℕ
find_relay_eviction_candidate l now_ms proximity = eviction_candidate proximity (
    map
      (λ e. (
        e.node_id,
        limited_at e.relay now_ms l.window relay_clear_floor_ms,
        wrapping_sub now_ms e.relay.window_start_ms,
      ))
      l.relays)

unfoldable pub find_dest_eviction_candidate : NodeRateLimiter → ℕ → (ℕ → GraphProximity) → Option ℕ
find_dest_eviction_candidate l now_ms proximity = eviction_candidate proximity (
    map
      (λ e. (
        e.node_id,
        limited_at e.dest now_ms l.window dest_clear,
        wrapping_sub now_ms e.dest.window_start_ms,
      ))
      l.dests)

-- A new entry goes behind the others while there is room, and over the candidate after that; with no
-- candidate nothing is entered.
abbrev pub enter {ℓ} : {A : Type ℓ} → ℕ → List A → Option ℕ → A → Option ℕ × List A
enter room entries candidate e =
    if ltb (length entries) room
    then (some (length entries), entries ++ (e ∷ []))
    else elim candidate [ none ↦ (none, entries) | some i ↦ (some i, set entries i e) ]

unfoldable pub get_or_create_originator :
    NodeRateLimiter → ℕ → ℕ → (ℕ → GraphProximity) → Option ℕ × NodeRateLimiter
get_or_create_originator l node_id now_ms proximity = elim (find_originator l node_id) [
  | some i ↦ (
    some i,
    record l {
      originators =
          set l.originators i
            (record (get_or l.originators i no_originator) { last_seen_ms = now_ms });
    },
  )
  | none ↦
      let (at, originators) =
        enter max_originators l.originators (find_originator_eviction_candidate l now_ms proximity)
          (record {
            node_id = node_id;
            last_seen_ms = now_ms;
            text = fresh_bucket now_ms;
            routing = fresh_bucket now_ms;
            other = fresh_bucket now_ms;
            unknown = fresh_bucket now_ms;
          }) in
      (at, record l { originators = originators })
]

unfoldable pub get_or_create_relay :
    NodeRateLimiter → ℕ → ℕ → (ℕ → GraphProximity) → Option ℕ × NodeRateLimiter
get_or_create_relay l node_id now_ms proximity = elim (find_relay l node_id) [
  | some i ↦ (some i, l)
  | none ↦
      let (at, relays) =
        enter max_relays l.relays (find_relay_eviction_candidate l now_ms proximity)
          (record { node_id = node_id; relay = fresh_bucket now_ms }) in
      (at, record l { relays = relays })
]

unfoldable pub get_or_create_dest :
    NodeRateLimiter → ℕ → ℕ → (ℕ → GraphProximity) → Option ℕ × NodeRateLimiter
get_or_create_dest l node_id now_ms proximity = elim (find_dest l node_id) [
  | some i ↦ (some i, l)
  | none ↦
      let (at, dests) =
        enter max_dests l.dests (find_dest_eviction_candidate l now_ms proximity)
          (record { node_id = node_id; dest = fresh_bucket now_ms; senders = [] }) in
      (at, record l { dests = dests })
]
