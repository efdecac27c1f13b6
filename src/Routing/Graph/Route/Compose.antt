-- ===== src/Routing/Graph/Route/Compose.antt =====
-- crates/mesh-routing/src/graph/route.rs: `calculate_route`, which tries the search, the parent that lists
-- the destination, the chain of relays, and the search over hops without the word of their receiver;
-- and what the graph says of the connection of two nodes.
use meshrustic.Base.{
  ℕ, ◌^◌, ◌-◌, Bool, true, false, not, ◌&&◌, ◌||◌, Option, none, some, ◌==◌, leb, ltb,
  if◌then◌else◌, any, is_some, saturating_add8, saturating_add16,
}
use meshrustic.Routing.Capability.{
  Cache, CapabilityStatus, unknown, legacy, passive, sr_active, status_of,
}
use meshrustic.Routing.Graph.Placeholder.{is_placeholder_node}
use meshrustic.Routing.Graph.Downstream.{
  Table, ChainEgress, list_downstream, get_relay, chain_egress,
}
use meshrustic.Routing.Graph.Edge.{Edge}
use meshrustic.Routing.Graph.Edge.Store.{
  EdgeStore, find_node, find_link, has_direct_reported_edge_to,
}
use meshrustic.Routing.Graph.Route.{
  RoutableFilter, Route, ball, list_downstream_mode, orphan_gateway, route_cost_unknown,
}
use meshrustic.Routing.Graph.Route.Price.{if_measured}
use meshrustic.Routing.Graph.Route.Search.{backward_search}

abbrev heard_on_of : Option Edge → ℕ
heard_on_of none = 0
heard_on_of (some e) = e.heard_on

abbrev pub cost_of : Option Edge → ℕ
cost_of none = route_cost_unknown
cost_of (some e) = e.etx_fixed

abbrev is_excluded : Option RoutableFilter → ℕ → Bool
is_excluded none n = false
is_excluded (some f) n = any (λ x. x == n) f.excluded

-- What is composed of a way to the parent and its price for the last hop.
unfoldable pub composed : EdgeStore → ℕ → ℕ → Bool → Route → Option (ℕ × ℕ × ℕ) → Bool × Route
composed s my_node hop_cost verified r none = (false, r)
composed s my_node hop_cost verified r (some (cost_to_m, next_hop, hops)) =
    if next_hop == 0 || leb 0xfff0 cost_to_m then (false, r) else (
      true,
      record r {
        next_hop = next_hop;
        cost_fixed = saturating_add16 cost_to_m hop_cost;
        hops = saturating_add8 hops 1;
        verified = verified;
        mode = list_downstream_mode;
        egress_radio = heard_on_of (find_link s my_node next_hop);
      },
    )

module _ (s : EdgeStore) (downstream : Table) (my_node destination now_ms : ℕ)
    (routable : Option RoutableFilter) where
  unfoldable pub try_compose_via_parent : ℕ → ℕ → Bool → Route → Bool × Route
  try_compose_via_parent parent hop_cost verified r =
      if is_some (find_node s parent)
      then composed s my_node hop_cost verified r
          (backward_search s my_node parent now_ms routable false)
      else (false, r)

  -- The route with the answer of the search, if there is one.
  unfoldable pub with_ball : Bool → Option (ℕ × ℕ × ℕ) → Route → Route
  with_ball verified none r = r
  with_ball verified (some (cost, next_hop, hops)) r = record r {
    cost_fixed = cost;
    next_hop = next_hop;
    hops = hops;
    verified = verified;
    mode = ball;
  }

  unfoldable pub with_egress : Route → Route
  with_egress r = record r { egress_radio = heard_on_of (find_link s my_node r.next_hop) }

  -- The last step. Each of these steps is taken while no next hop is known.
  unfoldable pub unverified_route : Route → Route
  unverified_route r = elim (backward_search s my_node destination now_ms routable true) [
    | none ↦ r
    | some answer ↦ with_egress (with_ball false (some answer) r)
  ]

  abbrev pub is_egress : ℕ → Bool
  is_egress n =
      not (n == 0)
      && (not (n == my_node) && (is_some (find_link s my_node n) && not (is_excluded routable n)))

  unfoldable pub gateway_route : Route → Option ChainEgress → Route
  gateway_route r none = unverified_route r
  gateway_route r (some chain) =
      let cost_to_egress = cost_of (find_link s my_node chain.node) in
      if ltb cost_to_egress 0xfff0 && ltb chain.cost_fixed 0xfff0
      then record r {
        next_hop = chain.node;
        cost_fixed = saturating_add16 cost_to_egress chain.cost_fixed;
        verified = false;
        mode = orphan_gateway;
        hops = chain.hops;
        egress_radio = heard_on_of (find_link s my_node chain.node);
      }
      else unverified_route r

  unfoldable pub chain_route : Route → Route
  chain_route r =
      gateway_route r (chain_egress downstream now_ms (2 ^ 32 - 1) is_egress destination)

  -- The route through a parent, or else the next step.
  unfoldable pub or_else : (Route → Route) → Bool × Route → Route
  or_else next (true, r) = r
  or_else next (false, r) = next r

  abbrev pub parent_hint : ℕ
  parent_hint = elim (find_node s destination) [ none ↦ 0 | some n ↦ n.parent_hint ]

  unfoldable pub hint_route : Route → Route
  hint_route r =
      if not (parent_hint == 0)
        && (not (parent_hint == destination) && not (parent_hint == my_node))
      then elim (if_measured (find_link s parent_hint destination)) [
        | none ↦ chain_route r
        | some e ↦ or_else chain_route (try_compose_via_parent parent_hint e.etx_fixed e.hears_us r)
      ]
      else chain_route r

  unfoldable pub list_route : Route → Option (ℕ × ℕ) → Route
  list_route r none = hint_route r
  list_route r (some (m, hop_cost)) = or_else hint_route (try_compose_via_parent m hop_cost true r)

  abbrev pub no_route : Route
  no_route = record {
    destination = destination;
    next_hop = 0;
    egress_radio = 0;
    cost_fixed = route_cost_unknown;
    timestamp_ms = now_ms;
    hops = 0;
    verified = false;
    mode = ball;
  }

  -- A relay that the graph knows has the destination behind it: the one that lists it comes first.
  unfoldable pub skip_search : Option (ℕ × ℕ) → Option ℕ → Bool
  skip_search (some (m, _)) ds_relay = is_some (find_node s m)
  skip_search none (some m) = is_some (find_node s m)
  skip_search none none = false

  unfoldable pub calculate_route : Route
  calculate_route =
      let list_ds = list_downstream downstream destination now_ms (2 ^ 32 - 1) in
      let ds_relay = get_relay downstream destination now_ms (2 ^ 32 - 1) in
      let searched : Route =
        if is_some (find_node s destination) || not (skip_search list_ds ds_relay)
        then with_ball true (backward_search s my_node destination now_ms routable false) no_route
        else no_route in
      if my_node == 0 || (destination == 0 || destination == my_node)
      then no_route
      else if not (searched.next_hop == 0)
      then with_egress searched
      else list_route searched list_ds

abbrev is_stock_status : CapabilityStatus → Bool
is_stock_status unknown = true
is_stock_status legacy = true
is_stock_status passive = false
is_stock_status sr_active = false

unfoldable pub is_stock_for_connectivity : Cache → ℕ → Bool
is_stock_for_connectivity capability node =
    is_placeholder_node node || is_stock_status (status_of capability node)

-- Whether the connection is verified, and whether it is unknown.
unfoldable pub verified_connectivity : EdgeStore → Cache → ℕ → ℕ → Bool × Bool
verified_connectivity s capability transmitter receiver =
    let tx_stock = is_stock_for_connectivity capability transmitter in
    let rx_stock = is_stock_for_connectivity capability receiver in
    if tx_stock && rx_stock
    then (false, true)
    else if not tx_stock && has_direct_reported_edge_to s transmitter receiver
    then (true, false)
    else if not rx_stock && has_direct_reported_edge_to s receiver transmitter
    then (true, false)
    else if tx_stock || rx_stock
    then (false, true)
    else (false, false)
