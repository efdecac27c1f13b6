-- ===== src/Routing/RateLimit/Tests.antt =====
-- Runs of the limiter at concrete packets.
use meshrustic.Base.{
  ℕ, ◌+◌, ◌<◌, ◌≡◌, refl, arith, Bool, true, false, none, some, List, [], ◌∷◌, inr,
}
use meshrustic.Base.Float.Percent.{percent}
use meshrustic.Routing.RateLimit.Types.{
  BucketState, RateLimitKind, fresh_bucket, GraphProximity, NodeRateLimiter, with_node_num,
}
use meshrustic.Protocol.Header.{nodenum_broadcast}
use meshrustic.Routing.RateLimit.Dests.{
  is_unicast_dest, dest_volume_port, charges_dest_volume, dest_window_will_roll, roll_dest_senders,
  note_dest_sender, dest_trip_of, charge_dest_at, dest_volume_limited, charge_dest_volume,
  should_drop_to_limited_dest, RateLimitPacket,
}
use meshrustic.Routing.RateLimit.Limiter.{
  relay_any_limited, collect_ids, chargeable_relay, charge_originator, maybe_announce, scaled_trip,
  relay_budgets, charge_young, charge_relay, charge_all, should_drop,
}
use meshrustic.Routing.RateLimit.Tables.{
  best_from, eviction_candidate, find_originator, find_relay, find_dest, entry_limited_at,
  originator_limited_at, dest_volume_limited_at, find_originator_eviction_candidate,
  find_relay_eviction_candidate, find_dest_eviction_candidate, get_or_create_originator,
  get_or_create_relay, get_or_create_dest,
}
use meshrustic.Routing.RateLimit.Young.{
  note_boot, warmed_up, find_young, in_alumni, add_alumni, remove_young_at, young_age_active,
  count_active, active_young_count, young_table_full, find_aged, find_aged_young, expire_if_old,
  insert_young, admit_young, note_originator, is_young,
}
use meshrustic.Routing.RateLimit.Bucket.{
  originator_clear, limited_at, roll, charge_bucket, check_and_update_bucket,
}
use meshrustic.Protocol.Portnum.{rate_limit_bucket}
use meshrustic.Routing.Graph.Placeholder.{is_placeholder_node}
use meshrustic.Routing.RateLimit.Queries.{blocks, coverage_gate}
use meshrustic.Routing.RateLimit.Queries.Gate.{blocks-coverage_gate}
use meshrustic.Routing.RateLimit.Bucket.Budget.{admitted, admitted_lt}
use meshrustic.Routing.RateLimit.Tables.Eviction.{Chosen, eviction_candidate_lem}
use meshrustic.Routing.RateLimit.Limiter.Sizes.{Fits}
use meshrustic.Routing.RateLimit.Limiter.Bounds.{should_drop-Fits}
use meshrustic.Routing.RateLimit.Limiter.Refusal.{should_drop-limited}

-- A position, telemetry or text packet of a node, to all, at a time.
abbrev packet : ℕ → ℕ → ℕ → RateLimitPacket
packet from port now_ms = record {
  from = from;
  to = nodenum_broadcast;
  decoded_portnum = some port;
  now_ms = now_ms;
  rebroadcast_candidate = false;
  resolved_relay = none;
  airtime_ms = 100;
  graph_established = false;
  on_default_channel = true;
}

abbrev near : ℕ → GraphProximity
near id = record { in_graph = true; hops = 1 }

abbrev feed : NodeRateLimiter → List RateLimitPacket → List Bool
feed l [] = []
feed l (pkt ∷ pkts) = let (dropped, l') = should_drop percent l pkt 0 near in dropped ∷ feed l' pkts

-- The source's test `other_bucket_limits_at_four`.
other_bucket :
    feed
      (with_node_num 1)
      (packet 5 3 1 ∷ packet 5 3 2 ∷ packet 5 3 3 ∷ packet 5 3 4 ∷ packet 5 1 5 ∷ [])
    ≡ false ∷ false ∷ false ∷ true ∷ false ∷ []
unfolding is_unicast_dest dest_volume_port charges_dest_volume dest_window_will_roll
    roll_dest_senders note_dest_sender dest_trip_of charge_dest_at dest_volume_limited
    charge_dest_volume should_drop_to_limited_dest relay_any_limited collect_ids chargeable_relay
    charge_originator maybe_announce scaled_trip relay_budgets charge_young charge_relay charge_all
    should_drop best_from eviction_candidate find_originator find_relay find_dest entry_limited_at
    originator_limited_at dest_volume_limited_at find_originator_eviction_candidate
    find_relay_eviction_candidate find_dest_eviction_candidate get_or_create_originator
    get_or_create_relay get_or_create_dest note_boot warmed_up find_young in_alumni add_alumni
    remove_young_at young_age_active count_active active_young_count young_table_full find_aged
    find_aged_young expire_if_old insert_young admit_young note_originator is_young originator_clear
    limited_at roll charge_bucket check_and_update_bucket rate_limit_bucket is_placeholder_node
other_bucket = refl

-- The limiter as four position packets of node 5 leave its table of senders.
abbrev flooded : NodeRateLimiter
flooded = record (with_node_num 1) {
  originators =
      record {
        node_id = 5;
        last_seen_ms = 4;
        text = fresh_bucket 1;
        routing = fresh_bucket 1;
        other = record { window_start_ms = 4; count = 4; limited = true; clear_threshold = 2 };
        unknown = fresh_bucket 1;
      }
      ∷ [];
}

should_drop-limited_example : (should_drop percent flooded (packet 5 3 9) 0 near).0 ≡ true
unfolding limited_at rate_limit_bucket originator_clear
should_drop-limited_example =
    should_drop-limited percent flooded (packet 5 3 9) 0 near 0
      (refl, ground arith, ground arith, ground arith) (refl, inr refl, refl)

should_drop-Fits_example : Fits (should_drop percent flooded (packet 5 3 9) 0 near).1
should_drop-Fits_example =
    should_drop-Fits percent 0 flooded (packet 5 3 9) near
      (omega arith, omega arith, omega arith, omega arith, omega arith)

-- A limiter past its warm-up whose young nodes are limited.
abbrev gated : NodeRateLimiter
gated = record (with_node_num 1) {
  boot_known = true;
  boot_warmed = true;
  young_bucket = record { window_start_ms = 100; count = 48; limited = true; clear_threshold = 12 };
  young =
      record { node_id = 7; first_seen_ms = 50; graduated = false }
      ∷ record { node_id = 8; first_seen_ms = 60; graduated = true }
      ∷ [];
}

blocks-coverage_gate_example : blocks (coverage_gate gated 200).0 7 ≡ (is_young gated 7 200).0
unfolding coverage_gate warmed_up limited_at in_alumni
blocks-coverage_gate_example =
    blocks-coverage_gate gated 7 200 (ground arith) (omega arith, inr refl) refl

admitted_lt_example :
    let b = fresh_bucket 100 in
    b.count
      + admitted 4 2 90_000 5 RateLimitKind.other b.window_start_ms b
          ((1, 1) ∷ (2, 1) ∷ (2, 2) ∷ (9, 1) ∷ [])
    < 4
admitted_lt_example =
    admitted_lt 4 2 90_000 5 RateLimitKind.other ((1, 1) ∷ (2, 1) ∷ (2, 2) ∷ (9, 1) ∷ [])
      (fresh_bucket 100) 0 (omega arith) (omega arith) (omega arith) refl (omega arith)
      ((
        omega arith,
        omega arith,
        (omega arith, omega arith, (omega arith, omega arith, (omega arith, omega arith, tt))),
      ))

-- A limited bucket of a sender.
abbrev tripped : BucketState
tripped = record { window_start_ms = 4; count = 4; limited = true; clear_threshold = 2 }

eviction_candidate_lem_example :
    Chosen near
      ((7, true, 5) ∷ (8, false, 3) ∷ (9, false, 4) ∷ [])
      (eviction_candidate near ((7, true, 5) ∷ (8, false, 3) ∷ (9, false, 4) ∷ []))
eviction_candidate_lem_example =
    eviction_candidate_lem near ((7, true, 5) ∷ (8, false, 3) ∷ (9, false, 4) ∷ [])
