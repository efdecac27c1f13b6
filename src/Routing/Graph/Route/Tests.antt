-- ===== src/Routing/Graph/Route/Tests.antt =====
-- Runs of the routes over a small graph.
use meshrustic.Base.{
  ℕ, zero, suc, ◌==◌, ◌||◌, ◌≡◌, ◌⊎◌, refl, true, false, none, some, List, [], ◌∷◌, is_some, arith,
}
use meshrustic.Base.Float.Percent.{percent, percent-IsGapped}
use meshrustic.Routing.Roles.{role_router, role_is_mute}
use meshrustic.Routing.Capability
use meshrustic.Routing.Capability.{
  Cache, track_topology, track_role, with_role, capability_from_role, role_of,
  is_immediate_relay_router, publishes_topology, find, status_at, status_of, published, with_status,
  is_stale, victim_from, is_legacy_router, is_legacy,
}
use meshrustic.Routing.Graph.Downstream.{
  Table, list_downstream, get_relay, relay_and_cost, cheapest, chain_egress, follow,
}
use meshrustic.Routing.Graph.Edge.{
  Edge, NodeEdges, reported, effective_variance_byte, silence_etx_fixed_from_age,
  silence_variance_byte_from_age,
}
use meshrustic.Routing.Graph.Edge.Remove.{blank_edge, blank_node}
use meshrustic.Routing.Graph.Edge.Store.{EdgeStore, has_direct_reported_edge_to}
use meshrustic.Routing.Graph.Placeholder.{is_placeholder_node}
use meshrustic.Routing.Graph.Route.{
  RoutableFilter, Route, ball, list_downstream_mode, status_routable, is_node_routable, get, insert,
  oldest_from,
}
use meshrustic.Routing.Graph.Route.Price.{
  known_to_hear, publishes, can_deliver, measured_edge, measured_etx, hop_cost_fixed,
  priced_hop_cost_fixed, delivery_direction_cost_fixed, delivery_hop_cost_fixed, has_strong_hop_to,
  has_strong_delivery_hop, return_price, acknowledgement_price_fixed, is_silent_publisher, covers,
}
use meshrustic.Routing.Graph.Route.Search.{
  find_or_add_node, prev_of, lowered, lower_at, relax, edge_price, relax_priced, relax_links,
  relax_back, relax_backs, nearest, passes, expand, search, start, count_hops, way_back,
  backward_search,
}
use meshrustic.Routing.Graph.Route.Compose.{
  composed, try_compose_via_parent, with_ball, with_egress, unverified_route, gateway_route,
  chain_route, or_else, hint_route, list_route, skip_search, calculate_route,
  is_stock_for_connectivity, verified_connectivity,
}
use meshrustic.Routing.Graph.Route.Ends.{search-start}
use meshrustic.Routing.Graph.Route.Ways.{Way, arrived, hop, FirstHop, backward_search_lem}
use meshrustic.Routing.Graph.Route.Owner.{
  key_lt, key_eq, precedes, tier_of, key_by, candidate_key, better_owner, owner_from,
  coverage_owner, may_take_over, direct_etx, cheaper_neighbor, better_from,
  find_better_positioned_neighbor,
}
use meshrustic.Routing.Graph.Route.Owned.{IsOwner, coverage_owner_lem}
use meshrustic.Routing.Graph.Route.Better.{IsDear, IsTaken, find_better_positioned_neighbor_lem}
use meshrustic.Routing.Graph.Route.Expand.{first, listed}
use meshrustic.Routing.Graph.Route.Cheapest.{IsCovered, AnswersWithin, backward_search_least}
use meshrustic.Routing.Graph.Route.Led.{Leads, calculate_route_lem}
use meshrustic.Routing.Graph.Route.Cached.{get-insert}

program : Unit {0}
unfolding track_role with_role capability_from_role role_of is_immediate_relay_router
    publishes_topology role_is_mute track_topology Capability.insert find status_at status_of
    published with_status is_stale victim_from is_legacy_router is_legacy list_downstream get_relay
    relay_and_cost cheapest chain_egress follow effective_variance_byte silence_etx_fixed_from_age
    silence_variance_byte_from_age has_direct_reported_edge_to is_placeholder_node status_routable
    is_node_routable get oldest_from known_to_hear publishes can_deliver measured_edge measured_etx
    hop_cost_fixed priced_hop_cost_fixed delivery_direction_cost_fixed delivery_hop_cost_fixed
    has_strong_hop_to has_strong_delivery_hop return_price acknowledgement_price_fixed
    is_silent_publisher covers find_or_add_node prev_of lowered lower_at relax edge_price
    relax_priced relax_links relax_back relax_backs nearest passes expand search count_hops way_back
    backward_search composed try_compose_via_parent with_ball with_egress unverified_route
    gateway_route chain_route or_else hint_route list_route skip_search calculate_route
    is_stock_for_connectivity verified_connectivity key_lt key_eq precedes tier_of key_by
    candidate_key better_owner owner_from coverage_owner may_take_over direct_etx cheaper_neighbor
    better_from find_better_positioned_neighbor
program = tt

-- A reported link to the node, at the price 2.
abbrev link : ℕ → Edge
link to = record blank_edge {
  to = to;
  etx_fixed = 200;
  source = reported;
  hears_us = true;
  heard_on = 1;
}

abbrev node : ℕ → List Edge → NodeEdges
node id edges = record blank_node { node_id = id; edges = edges }

-- 1 hears 2, 2 hears 1 and 3, and 3 hears 2; the parent of 9 is 3.
abbrev line : EdgeStore
line = record {
  nodes =
      node 1 (link 2 ∷ [])
      ∷ node 2 (link 1 ∷ link 3 ∷ [])
      ∷ node 3 (link 2 ∷ link 9 ∷ [])
      ∷ record (node 9 []) { parent_hint = 3 }
      ∷ [];
  pending_demotion = none;
}

two_hops : backward_search line 1 3 0 none false ≡ some (400, 2, 2)
unfolding program
two_hops = refl

abbrev no_list : Table
no_list = []

-- Node 9 publishes topology and lists nobody: hops to it need another word.
abbrev careful : RoutableFilter
careful = record {
  capability = track_topology [] 9 true 1;
  my_node = 1;
  device_role = 0;
  excluded = [];
}

searched :
    ((calculate_route line no_list 1 3 0 none).mode ≡ ball)
    × ((calculate_route line no_list 1 3 0 none).verified ≡ true)
    × ((calculate_route line no_list 1 3 0 none).next_hop ≡ 2)
    × ((calculate_route line no_list 1 3 0 none).egress_radio ≡ 1)
unfolding program
searched = (refl, refl, refl, refl)

-- The way to 9 is composed of the way to its parent and the link of the parent.
by_parent :
    ((calculate_route line no_list 1 9 0 (some careful)).mode ≡ list_downstream_mode)
    × ((calculate_route line no_list 1 9 0 (some careful)).cost_fixed ≡ 600)
    × ((calculate_route line no_list 1 9 0 (some careful)).hops ≡ 3)
unfolding program
by_parent = (refl, refl, refl)

evidence :
    (covers line none 1 2 ≡ true)
    × (can_deliver line (some careful.capability) 3 9 ≡ true)
    × (has_strong_hop_to line none 2 3 0 1 ≡ true)
    × (has_strong_delivery_hop line none 1 3 0 1 ≡ false)
    × (acknowledgement_price_fixed line 2 3 ≡ some 200)
    × (is_silent_publisher line (some careful.capability) 9 2000000 ≡ true)
    × (verified_connectivity line careful.capability 1 2 ≡ (false, true))
unfolding program
evidence = (refl, refl, refl, refl, refl, refl, refl)

search-start_example : is_some (search line 1 3 0 none false 33 (start 3)) ≡ true
search-start_example = search-start line 1 3 0 none false

backward_search_lem_example : FirstHop line 3 none false 1 0 2 1 400
backward_search_lem_example = backward_search_lem line 3 none false 1 0 400 2 2 two_hops

calculate_route_lem_example :
    Leads line no_list 1 9 0
      (some careful)
      (calculate_route line no_list 1 9 0 (some careful)).mode
      (calculate_route line no_list 1 9 0 (some careful)).verified
      (calculate_route line no_list 1 9 0 (some careful)).next_hop
      (calculate_route line no_list 1 9 0 (some careful)).cost_fixed
    × ((calculate_route line no_list 1 9 0 (some careful)).destination ≡ 9)
calculate_route_lem_example = calculate_route_lem line no_list 1 9 0 (some careful)

abbrev to_three : ℕ → ℕ → Route
to_three next_hop stamp = record {
  destination = 3;
  next_hop = next_hop;
  egress_radio = 1;
  cost_fixed = 400;
  timestamp_ms = stamp;
  hops = 2;
  verified = true;
  mode = ball;
}

get-insert_example :
    get (insert (to_three 5 0 ∷ []) (to_three 2 1000)) 3 5000 ≡ some (to_three 2 1000)
get-insert_example = get-insert (to_three 5 0 ∷ []) (to_three 2 1000) 5000 refl (omega arith)

-- The ids of the line, and those that its links lead to.
abbrev four_ids : List ℕ
four_ids = 1 ∷ 2 ∷ 3 ∷ 9 ∷ []

line-IsCovered : IsCovered four_ids line.nodes
line-IsCovered = (
  (refl, (refl, tt)),
  ((refl, (refl, (refl, tt))), ((refl, (refl, (refl, tt))), ((refl, tt), tt))),
)

-- The way from 1 over 2 to 3.
line-Way : Way line 3 none false 1 0 1 400
unfolding program
line-Way =
    hop 1 2 200 200 (hop 2 3 0 200 arrived refl (listed (link 2) first refl)) refl
      (listed (link 1) first refl)

backward_search_least_example : AnswersWithin 400 (backward_search line 1 3 0 none false)
backward_search_least_example =
    backward_search_least line 3 none false 1 0 four_ids 400 (omega arith) line-IsCovered refl refl
      refl line-Way

-- So many links, from an id on, and then one to 1.
links_from : ℕ → ℕ → List Edge
links_from zero id = link 1 ∷ []
links_from (suc n) id = link id ∷ links_from n (suc id)

-- 3 reports links to 31 nodes of which nothing is known, and then to us.
abbrev crowded : EdgeStore
crowded = record { nodes = node 1 [] ∷ node 3 (links_from 31 100) ∷ []; pending_demotion = none }

-- The table is full before our own node comes in, so that the link is not found.
not_found : backward_search crowded 1 3 0 none false ≡ none
unfolding program links_from
not_found = refl

-- 2 and 3 are neighbours of ours, routers, and report the link to 9 at one price.
abbrev trio : EdgeStore
trio = record {
  nodes =
      node 1 (link 3 ∷ link 2 ∷ []) ∷ node 3 (link 9 ∷ []) ∷ node 2 (link 9 ∷ []) ∷ node 9 [] ∷ [];
  pending_demotion = none;
}

abbrev routers : Cache
routers = track_role (track_role [] 3 role_router 1) 2 role_router 1

owner_is_two : coverage_owner trio routers 1 true 9 ≡ 2
unfolding program
owner_is_two = refl

silent_nine : publishes (some routers) 9 ≡ false
unfolding program
silent_nine = refl

nine_named : 9 == 0 || is_placeholder_node 9 ≡ false
unfolding program
nine_named = refl

coverage_owner_lem_example : IsOwner trio routers 1 true 9 (coverage_owner trio routers 1 true 9)
coverage_owner_lem_example = coverage_owner_lem trio routers 1 true 9 nine_named silent_nine

better_is_three : find_better_positioned_neighbor percent trio routers 1 0 9 7 0 5 ≡ 3
unfolding program
better_is_three = refl

find_better_positioned_neighbor_lem_example :
    let n = find_better_positioned_neighbor percent trio routers 1 0 9 7 0 5 in
    ((n ≡ 0) × IsDear percent trio routers 1 0 9 7 0 5) ⊎ IsTaken percent trio routers 1 0 9 7 0 5 n
find_better_positioned_neighbor_lem_example =
    find_better_positioned_neighbor_lem percent trio routers 1 0 9 7 0 5 percent-IsGapped
