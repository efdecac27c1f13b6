-- ===== src/Routing/RateLimit/Types.antt =====
-- The constants and the state of the rate limiter.
use meshrustic.Base.{ℕ, Bool, true, false, Option, none, List, [], ◌||◌}

abbrev pub max_originators : ℕ
max_originators = 16

abbrev pub max_relays : ℕ
max_relays = 8

abbrev pub max_young : ℕ
max_young = 32

abbrev pub max_alumni : ℕ
max_alumni = 128

abbrev pub window_ms : ℕ
window_ms = 90_000

abbrev pub young_age_ms : ℕ
young_age_ms = 1_800_000

abbrev pub warmup_ms : ℕ
warmup_ms = 1_800_000

abbrev pub young_trip : ℕ
young_trip = 48

abbrev pub young_clear : ℕ
young_clear = 12

abbrev pub announce_refractory_ms : ℕ
announce_refractory_ms = 1_800_000

abbrev pub announce_max_ids : ℕ
announce_max_ids = 4

abbrev pub max_dests : ℕ
max_dests = 8

abbrev pub dest_trip : ℕ
dest_trip = 20

abbrev pub dest_clear : ℕ
dest_clear = 5

abbrev pub dest_min_senders : ℕ
dest_min_senders = 3

abbrev pub dest_sender_slots : ℕ
dest_sender_slots = 8

abbrev pub threshold_text : ℕ
threshold_text = 30

abbrev pub threshold_routing : ℕ
threshold_routing = 10

abbrev pub threshold_other : ℕ
threshold_other = 4

abbrev pub threshold_unknown : ℕ
threshold_unknown = 12

abbrev pub relay_trip_packets : ℕ
relay_trip_packets = 60

abbrev pub relay_clear_packets : ℕ
relay_clear_packets = 15

abbrev pub relay_ref_airtime_ms : ℕ
relay_ref_airtime_ms = 100

abbrev pub relay_trip_floor_ms : ℕ
relay_trip_floor_ms = 2000

abbrev pub relay_trip_ceil_ms : ℕ
relay_trip_ceil_ms = 12_000

abbrev pub relay_clear_floor_ms : ℕ
relay_clear_floor_ms = 500

abbrev pub relay_clear_ceil_ms : ℕ
relay_clear_ceil_ms = 4000

pub record BucketState : Type 0 where
  pub window_start_ms : ℕ
  pub count : ℕ
  pub limited : Bool
  pub clear_threshold : ℕ

abbrev pub fresh_bucket : ℕ → BucketState
fresh_bucket now_ms = record {
  window_start_ms = now_ms;
  count = 0;
  limited = false;
  clear_threshold = 0;
}

pub record OriginatorEntry : Type 0 where
  pub node_id : ℕ
  pub last_seen_ms : ℕ
  pub text : BucketState
  pub routing : BucketState
  pub other : BucketState
  pub unknown : BucketState

unfoldable pub any_limited : OriginatorEntry → Bool
any_limited e = e.text.limited || (e.routing.limited || (e.other.limited || e.unknown.limited))

pub record RelayEntry : Type 0 where
  pub node_id : ℕ
  pub relay : BucketState

pub record DestEntry : Type 0 where
  pub node_id : ℕ
  pub dest : BucketState
  pub senders : List ℕ

pub record YoungSighting : Type 0 where
  pub node_id : ℕ
  pub first_seen_ms : ℕ
  pub graduated : Bool

pub record GraphProximity : Type 0 where
  pub in_graph : Bool
  pub hops : ℕ

pub data RateLimitKind : Type 0 where
  text routing other unknown relay relay_unresolved young dest : RateLimitKind

pub data RateLimitEvent : Type 0 where
  trip : ℕ → RateLimitKind → RateLimitEvent
  clear : ℕ → RateLimitKind → RateLimitEvent
  dest_drop : ℕ → RateLimitEvent

-- The ids announced; their number is the list's length.
abbrev pub YoungAnnounce : Type 0
YoungAnnounce = List ℕ

pub record NodeRateLimiter : Type 0 where
  pub node_num : ℕ
  pub enabled : Bool
  pub window : ℕ
  pub originators : List OriginatorEntry
  pub relays : List RelayEntry
  pub unresolved_relay : BucketState
  pub young : List YoungSighting
  pub alumni : List ℕ
  pub young_bucket : BucketState
  pub dests : List DestEntry
  pub boot_ms : ℕ
  pub boot_known : Bool
  pub boot_warmed : Bool
  pub announce_broadcast : Bool
  pub last_announce_ms : ℕ
  pub announce_ever : Bool
  pub pending_announce : Option YoungAnnounce
  pub last_event : Option RateLimitEvent

abbrev pub with_node_num : ℕ → NodeRateLimiter
with_node_num node_num = record {
  node_num = node_num;
  enabled = true;
  window = window_ms;
  originators = [];
  relays = [];
  unresolved_relay = fresh_bucket 0;
  young = [];
  alumni = [];
  young_bucket = fresh_bucket 0;
  dests = [];
  boot_ms = 0;
  boot_known = false;
  boot_warmed = false;
  announce_broadcast = false;
  last_announce_ms = 0;
  announce_ever = false;
  pending_announce = none;
  last_event = none;
}
