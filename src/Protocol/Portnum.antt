-- ===== src/Protocol/Portnum.antt =====
-- crates/mesh-protocol/src/portnum.rs: the port numbers of the air protocol, and the classes in
-- which the rate limiter and the channel's quality of service put them.
use meshrustic.Base.{ℕ, Bool, Option, none, some, ◌==◌, ◌||◌, if◌then◌else◌}

abbrev pub unknown_app : ℕ
unknown_app = 0

abbrev pub text_message_app : ℕ
text_message_app = 1

abbrev pub routing_app : ℕ
routing_app = 5

abbrev pub admin_app : ℕ
admin_app = 6

abbrev pub text_message_compressed_app : ℕ
text_message_compressed_app = 7

abbrev pub telemetry_app : ℕ
telemetry_app = 67

abbrev pub traceroute_app : ℕ
traceroute_app = 70

abbrev pub signal_routing_app : ℕ
signal_routing_app = 88

pub data RateLimitBucket : Type 0 where
  text routing other unknown : RateLimitBucket

pub data QosTier : Type 0 where
  low medium high critical : QosTier

abbrev pub is_text : ℕ → Bool
is_text p = p == text_message_app || p == text_message_compressed_app

abbrev pub is_routing : ℕ → Bool
is_routing p = p == routing_app || (p == signal_routing_app || p == traceroute_app)

unfoldable pub rate_limit_bucket : Option ℕ → RateLimitBucket
rate_limit_bucket none = unknown
rate_limit_bucket (some portnum) =
    if is_text portnum then text else if is_routing portnum then routing else other

-- `Option::filter` keeps a port that is not UNKNOWN_APP.
unfoldable pub qos_tier : Option ℕ → ℕ → ℕ → QosTier
qos_tier none channel primary_channel = low
qos_tier (some portnum) channel primary_channel =
    if portnum == unknown_app
    then low
    else if is_text portnum
    then (if channel == primary_channel then critical else medium)
    else if portnum == admin_app
    then critical
    else if is_routing portnum
    then high
    else low
