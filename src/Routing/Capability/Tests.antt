-- ===== src/Routing/Capability/Tests.antt =====
-- Runs of the capability cache at concrete inputs.
use meshrustic.Base.{
  ◌≡◌, ◌≤◌, refl, true, false, not, ◌&&◌, ◌||◌, [], ◌∷◌, some, none, ◌==◌, is_some, length,
  count_if, swap_remove, arith,
}
use meshrustic.Routing.Roles.{
  role_router, role_client, role_tracker, role_sensor, role_lost_and_found, role_is_mute,
  role_is_active_routing, role_is_passive,
}
use meshrustic.Routing.Capability.{
  Cache, CapabilityRecord, unknown, legacy, sr_active, new, clear, find, is_stale, is_node,
  is_signal_routing, status_at, status_of, role_of, victim_from, insert, capability_from_role,
  with_role, track_role, published, with_status, track_topology, noted, prune_loop, prune,
  publishes_topology, is_immediate_relay_router, will_not_cancel_for_us, is_legacy,
  is_legacy_router, role_may_send_topology,
}
use meshrustic.Routing.Capability.Reach.{
  IsCache, fresh, next, role_tracked, topology_tracked, pruned, Reach-IsCache,
}
use meshrustic.Routing.Capability.Prune.{is_gone, prune_lem}
use meshrustic.Routing.Capability.Publishers.{has_room, publisher_stays, status_at-track_topology}

program : Unit {0}
unfolding role_is_mute role_is_active_routing role_is_passive clear find is_stale status_at
    status_of role_of victim_from insert capability_from_role with_role track_role published
    with_status track_topology noted prune_loop prune publishes_topology is_immediate_relay_router
    will_not_cancel_for_us is_legacy is_legacy_router role_may_send_topology swap_remove is_gone
    has_room
program = tt

-- Node 7 told its role, router; node 8 published topology; node 9, a tracker, told its role later.
abbrev three : Cache
three =
    track_role (track_topology (track_role new 7 role_router 1000) 8 true 2000) 9 role_tracker 9000

roles_known : (role_of three 7 ≡ some role_router) × (role_of three 6 ≡ none)
unfolding program
roles_known = (refl, refl)

statuses :
    (status_of three 7 ≡ unknown) × (status_of three 8 ≡ sr_active) × (status_of three 9 ≡ legacy)
unfolding program
statuses = (refl, refl, refl)

routers :
    (is_immediate_relay_router three 7 ≡ true)
    × (will_not_cancel_for_us three 7 ≡ true)
    × (is_legacy_router three 9 ≡ false)
    × (is_legacy three 9 ≡ true)
    × (publishes_topology three 8 ≡ true)
unfolding program
routers = (refl, refl, refl, refl, refl)

sensor_is_passive :
    (role_is_passive role_sensor ≡ true) × (role_may_send_topology role_lost_and_found ≡ false)
unfolding program
sensor_is_passive = (refl, refl)

-- At 2725000 ms nodes 7 and 8 are out of date, and only 8 is reported.
pruned_three :
    (status_of (prune three 2725000 1).0 9 ≡ legacy)
    × (role_of (prune three 2725000 1).0 7 ≡ none)
    × ((prune three 2725000 1).1 ≡ 8 ∷ [])
unfolding program
pruned_three = (refl, refl, refl)

Reach-IsCache_example : IsCache (prune three 2725000 1).0
Reach-IsCache_example = Reach-IsCache (
    next
      (next (next (next fresh (role_tracked 7 role_router 1000)) (topology_tracked 8 true 2000))
        (role_tracked 9 role_tracker 9000))
      (pruned 2725000 1))

three_small : length three ≤ 64
unfolding program
three_small = omega arith

prune_lem_example :
    (count_if (is_node 9) (prune three 2725000 1).0
      ≡ count_if (λ r. is_node 9 r && not (is_gone 2725000 1 r)) three)
    × (count_if (λ m. m == 8) (prune three 2725000 1).1
        ≡ count_if (λ r. is_gone 2725000 1 r && (is_signal_routing r.status && is_node 8 r)) three)
prune_lem_example = prune_lem three 2725000 1 8 (is_node 9) three_small

abbrev eight : CapabilityRecord
eight = record { node_id = 8; status = sr_active; role = 0; last_updated_ms = 2000 }

eight_found : find three 8 ≡ some eight
unfolding program
eight_found = refl

publisher_stays_example :
    (find (track_role three 8 role_client 3000) 8 ≡ some (record eight { role = role_client }))
    × (find (track_topology three 8 false 3000) 8
        ≡ some (record eight { status = published false; last_updated_ms = 3000 }))
publisher_stays_example =
    publisher_stays three 8 8 role_client 3000 false eight refl eight_found refl

seven_has_place : is_some (find three 7) || has_room three ≡ true
unfolding program
seven_has_place = refl

status_at-track_topology_example :
    status_at (track_topology three 7 false 5000) 7 1 2725000 ≡ published false
status_at-track_topology_example =
    status_at-track_topology three 7 1 5000 2725000 false refl seven_has_place (omega arith)
