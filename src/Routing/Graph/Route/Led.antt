-- ===== src/Routing/Graph/Route/Led.antt =====
-- Where the routes of `calculate_route` (crates/mesh-routing/src/graph/route.rs) lead.
use meshrustic.Base.{
  saturating_add16, ℕ, ◌^◌, ◌-◌, ◌≡◌, refl, sym, ap, subst, ◌⊎◌, if-true, if-false, Bool, true,
  false, not, ◌&&◌, ◌||◌, Option, none, some, ◌==◌, if◌then◌else◌, is_some, ltb, leb, inl, inr,
  arith, Bool-cases,
}
use meshrustic.Routing.Graph.Downstream.{Table, ChainEgress, list_downstream}
use meshrustic.Routing.Graph.Downstream.Chain.{IsChainTo, chain_egress_lem}
use meshrustic.Routing.Graph.Edge.{Edge}
use meshrustic.Routing.Graph.Edge.Store.{EdgeStore, find_node, find_link}
use meshrustic.Routing.Graph.Route.{
  RoutableFilter, Route, RouteMode, route_cost_unknown, ball, list_downstream_mode, orphan_gateway,
}
use meshrustic.Routing.Graph.Route.Price.{if_measured}
use meshrustic.Routing.Graph.Route.Search.{backward_search}
use meshrustic.Routing.Graph.Route.Ways.{FirstHop, IsAnswer, backward_search-IsAnswer}
use meshrustic.Routing.Graph.Route.Compose.{
  composed, try_compose_via_parent, with_ball, with_egress, unverified_route, is_egress,
  gateway_route, chain_route, or_else, parent_hint, hint_route, list_route, cost_of, no_route,
  calculate_route,
}

module _ (s : EdgeStore) (downstream : Table) (my_node destination now_ms : ℕ)
    (routable : Option RoutableFilter) where
  -- A parent that a way can be composed over: a node other than the two ends.
  abbrev pub IsHint : ℕ → Type 0
  IsHint parent =
      ((parent == 0) ≡ false) × ((parent == destination) ≡ false) × ((parent == my_node) ≡ false)

  -- No route is to be looked for, or there is no way even over hops without the word of their receiver.
  pub IsUnfound : Type 0
  IsUnfound =
      ((my_node == 0 || (destination == 0 || destination == my_node)) ≡ true)
      ⊎ (backward_search s my_node destination now_ms routable true ≡ none)

  -- What the mode of a route and its mark as verified say of its next hop and its cost. The next hop is
  -- no node, where none is found; the first hop of a way to the destination; of one to the cheapest relay that lists the
  -- destination, at the price of that list; of one to the parent that the graph keeps for the
  -- destination, at the price of the parent's measured link, and verified if that link hears us; the
  -- end of the chain of relays from the destination; or the first hop of a way over hops without the
  -- word of their receiver.
  pub data Leads : RouteMode → Bool → ℕ → ℕ → Type 0 where
    nowhere : IsUnfound → Leads ball false 0 route_cost_unknown
    to_destination :
        (n cost : ℕ)
        → FirstHop s destination routable false my_node now_ms n my_node cost
        → Leads ball true n cost
    to_lister :
        (m n cost hop_cost : ℕ)
        → list_downstream downstream destination now_ms (2 ^ 32 - 1) ≡ some (m, hop_cost)
        → FirstHop s m routable false my_node now_ms n my_node cost
        → Leads list_downstream_mode true n (saturating_add16 cost hop_cost)
    to_hint :
        (n cost : ℕ) (e : Edge)
        → IsHint (parent_hint s downstream my_node destination now_ms routable)
        → if_measured
            (find_link s (parent_hint s downstream my_node destination now_ms routable) destination)
          ≡ some e
        → FirstHop s
            (parent_hint s downstream my_node destination now_ms routable)
            routable
            false
            my_node
            now_ms
            n
            my_node
            cost
        → Leads list_downstream_mode e.hears_us n (saturating_add16 cost e.etx_fixed)
    to_gateway :
        (c : ChainEgress)
        → IsChainTo downstream now_ms
            (2 ^ 32 - 1)
            (is_egress s downstream my_node destination now_ms routable)
            destination
            c
        → Leads orphan_gateway false c.node
            (saturating_add16 (cost_of (find_link s my_node c.node)) c.cost_fixed)
    unverified :
        (n cost : ℕ)
        → FirstHop s destination routable true my_node now_ms n my_node cost
        → Leads ball false n cost

  pub IsLed : Route → Type 0
  IsLed r = Leads r.mode r.verified r.next_hop r.cost_fixed × (r.destination ≡ destination)

  -- A route to go on with: it leads where its mode says if nothing else is found.
  IsPending : Route → Type 0
  IsPending r = (IsUnfound → IsLed r) × (r.destination ≡ destination)

  IsTried : Bool × Route → Type 0
  IsTried (true, r) = IsLed r
  IsTried (false, r) = IsPending r

  composed-IsTried :
      (parent hop_cost : ℕ) (verified : Bool) (r : Route) (o : Option (ℕ × ℕ × ℕ))
      → IsAnswer s parent routable false my_node now_ms o
      → ((n cost : ℕ)
          → FirstHop s parent routable false my_node now_ms n my_node cost
          → Leads list_downstream_mode verified n (saturating_add16 cost hop_cost))
      → IsPending r
      → IsTried (composed s my_node hop_cost verified r o)
  unfolding composed IsLed IsTried IsPending
  composed-IsTried parent hop_cost verified r none answer leads ok = ok
  composed-IsTried parent hop_cost verified r (some (cost, n, hops)) answer leads ok =
      elim (Bool-cases (n == 0 || leb 0xfff0 cost)) [
        | inl refused ↦ rw (refused) ok
        | inr good ↦ rw (good) (leads n cost answer, ok.1)
      ]

  try_compose-IsTried :
      (parent hop_cost : ℕ) (verified : Bool) (r : Route)
      → ((n cost : ℕ)
          → FirstHop s parent routable false my_node now_ms n my_node cost
          → Leads list_downstream_mode verified n (saturating_add16 cost hop_cost))
      → IsPending r
      → IsTried (
          try_compose_via_parent s downstream my_node destination now_ms routable parent hop_cost
            verified r)
  unfolding try_compose_via_parent IsTried
  try_compose-IsTried parent hop_cost verified r leads ok =
      elim (Bool-cases (is_some (find_node s parent))) [
        | inl there ↦ rw (there) (
            composed-IsTried parent hop_cost verified r _
              (backward_search-IsAnswer s parent routable false my_node now_ms) leads ok)
        | inr missing ↦ rw (missing) ok
      ]

  or_else-IsLed :
      (next : Route → Route) (tried : Bool × Route)
      → ((r : Route) → IsPending r → IsLed (next r))
      → IsTried tried
      → IsLed (or_else s downstream my_node destination now_ms routable next tried)
  unfolding or_else IsTried
  or_else-IsLed next (true, r) further ok = ok
  or_else-IsLed next (false, r) further ok = further r ok

  unverified-IsLed :
      (r : Route)
      → IsPending r
      → IsLed (unverified_route s downstream my_node destination now_ms routable r)
  unfolding unverified_route with_egress with_ball IsLed IsPending IsUnfound
  unverified-IsLed r ok =
      by_answer (backward_search s my_node destination now_ms routable true) refl
        (backward_search-IsAnswer s destination routable true my_node now_ms)
    where
      by_answer :
          (o : Option (ℕ × ℕ × ℕ))
          → backward_search s my_node destination now_ms routable true ≡ o
          → IsAnswer s destination routable true my_node now_ms o
          → IsLed (elim o [
            | none ↦ r
            | some answer ↦
                with_egress s downstream my_node destination now_ms routable
                  (with_ball s downstream my_node destination now_ms routable false (some answer) r)
          ])
      by_answer none no_way answer = ok.0 (inr no_way)
      by_answer (some (cost, n, hops)) found answer = (unverified n cost answer, ok.1)

  IsChainFrom : ChainEgress → Type 0
  IsChainFrom c =
      IsChainTo downstream now_ms (2 ^ 32 - 1)
        (is_egress s downstream my_node destination now_ms routable) destination c

  gateway-IsLed :
      (r : Route) (o : Option ChainEgress)
      → ((c : ChainEgress) → o ≡ some c → IsChainFrom c)
      → IsPending r
      → IsLed (gateway_route s downstream my_node destination now_ms routable r o)
  unfolding gateway_route IsLed IsChainFrom IsPending
  gateway-IsLed r none chains ok = unverified-IsLed r ok
  gateway-IsLed r (some c) chains ok =
      elim (Bool-cases
        (ltb (cost_of (find_link s my_node c.node)) 0xfff0 && ltb c.cost_fixed 0xfff0)) [
          | inl cheap ↦ subst IsLed (sym (if-true _ _ cheap)) (to_gateway c (chains c refl), ok.1)
          | inr dear ↦ subst IsLed (sym (if-false _ _ dear)) (unverified-IsLed r ok)
        ]

  chain-IsLed :
      (r : Route)
      → IsPending r
      → IsLed (chain_route s downstream my_node destination now_ms routable r)
  unfolding chain_route IsChainFrom
  chain-IsLed r = gateway-IsLed r _ (λ c found.
      ((chain_egress_lem downstream now_ms (2 ^ 32 - 1)
          (is_egress s downstream my_node destination now_ms routable) destination c).0
        found).1)

  hint-IsLed :
      (r : Route)
      → IsPending r
      → IsLed (hint_route s downstream my_node destination now_ms routable r)
  unfolding hint_route
  hint-IsLed r ok =
      let parent = parent_hint s downstream my_node destination now_ms routable in
      elim (Bool-cases
        (not (parent == 0) && (not (parent == destination) && not (parent == my_node)))) [
          | inr no_hint ↦ subst IsLed (sym (if-false _ _ no_hint)) (chain-IsLed r ok)
          | inl hint ↦ subst IsLed (sym (if-true _ _ hint)) (
              by_link (if_measured (find_link s parent destination)) refl
                (ground (arith, hint), ground (arith, hint), ground (arith, hint)))
        ]
    where
      by_link :
          (o : Option Edge)
          → if_measured (
              find_link s
                (parent_hint s downstream my_node destination now_ms routable)
                destination)
            ≡ o
          → IsHint (parent_hint s downstream my_node destination now_ms routable)
          → IsLed (elim o [
            | none ↦ chain_route s downstream my_node destination now_ms routable r
            | some e ↦
                or_else s downstream my_node destination now_ms routable
                  (chain_route s downstream my_node destination now_ms routable)
                  (try_compose_via_parent s downstream my_node destination now_ms routable
                    (parent_hint s downstream my_node destination now_ms routable)
                    e.etx_fixed
                    e.hears_us
                    r)
          ])
      by_link none found hint = chain-IsLed r ok
      by_link (some e) found hint = or_else-IsLed _ _ chain-IsLed (
          try_compose-IsTried _ e.etx_fixed e.hears_us r
            (λ n cost hop. to_hint n cost e hint found hop) ok)

  list-IsLed :
      (r : Route) (o : Option (ℕ × ℕ))
      → list_downstream downstream destination now_ms (2 ^ 32 - 1) ≡ o
      → IsPending r
      → IsLed (list_route s downstream my_node destination now_ms routable r o)
  unfolding list_route
  list-IsLed r none found ok = hint-IsLed r ok
  list-IsLed r (some (m, hop_cost)) found ok = or_else-IsLed _ _ hint-IsLed (
      try_compose-IsTried m hop_cost true r (λ n cost hop. to_lister m n cost hop_cost found hop)
        ok)

  no_route-IsLed : IsUnfound → IsLed (no_route s downstream my_node destination now_ms routable)
  unfolding IsLed
  no_route-IsLed unfound = (nowhere unfound, refl)

  -- What the search over evidence leaves: no route yet, or one that leads to the destination.
  IsSearched : Route → Type 0
  IsSearched r = (r ≡ no_route s downstream my_node destination now_ms routable) ⊎ IsLed r

  ball-IsSearched :
      (o : Option (ℕ × ℕ × ℕ))
      → IsAnswer s destination routable false my_node now_ms o
      → IsSearched (
          with_ball s downstream my_node destination now_ms routable true o
            (no_route s downstream my_node destination now_ms routable))
  unfolding with_ball IsLed IsSearched
  ball-IsSearched none answer = inl refl
  ball-IsSearched (some (cost, n, hops)) answer = inr (to_destination n cost answer, refl)

  if-IsSearched :
      (b : Bool) (x y : Route) → IsSearched x → IsSearched y → IsSearched (if b then x else y)
  if-IsSearched true x y hx hy = hx
  if-IsSearched false x y hx hy = hy

  IsSearched-IsPending : (r : Route) → IsSearched r → IsPending r
  unfolding IsSearched IsPending IsLed
  IsSearched-IsPending r (inl same) = (
    λ unfound. subst IsLed (sym same) (no_route-IsLed unfound),
    ap (λ (x : Route). x.destination) same,
  )
  IsSearched-IsPending r (inr led) = (λ unfound. led, led.1)

  egress-IsLed :
      (r : Route)
      → IsSearched r
      → not (r.next_hop == 0) ≡ true
      → IsLed (with_egress s downstream my_node destination now_ms routable r)
  unfolding with_egress IsLed IsSearched
  egress-IsLed r (inl same) hop =
      absurd (cc (subst (λ (x : Route). not (x.next_hop == 0) ≡ true) same hop))
  egress-IsLed r (inr led) hop = led

  -- The route is one to the destination, and its next hop and cost are what its mode says: with mode
  -- `ball`, if it is verified, the first hop and the cost of a way to the destination, over hops for
  -- which there is evidence and through nodes that may carry packets on, and else those of a way
  -- over hops without the word of their receiver, or none at an unknown cost, and this only if an end is
  -- node 0 or both are one, or if the search finds nothing over such hops either; with mode
  -- `list_downstream` either, verified, the first hop of a way to the relay that `list_downstream` gives
  -- for the destination, at the cost of that way and the price given with it, or the first hop of a way
  -- to the parent that the graph keeps for the destination, at the cost of that way and the price of
  -- the parent's measured link to the destination, and verified exactly if that link hears us; with
  -- mode `orphan_gateway` the egress that the chain of the cheapest relays from the destination leads
  -- to, at the cost of the link to it and of the chain.
  pub calculate_route_lem :
      let r = calculate_route s downstream my_node destination now_ms routable in
      Leads r.mode r.verified r.next_hop r.cost_fixed × (r.destination ≡ destination)
  unfolding calculate_route IsLed IsSearched IsUnfound
  calculate_route_lem =
      let searched =
        if-IsSearched _ _ _
          (ball-IsSearched _ (backward_search-IsAnswer s destination routable false my_node now_ms))
          (inl refl) in
      elim (Bool-cases (my_node == 0 || (destination == 0 || destination == my_node))) [
        | inl exempt ↦ subst IsLed (sym (if-true _ _ exempt)) (no_route-IsLed (inl exempt))
        | inr asked ↦ subst IsLed (sym (if-false _ _ asked)) (hop_or_list _ searched)
      ]
    where
      hop_or_list :
          (r : Route)
          → IsSearched r
          → IsLed (
              if not (r.next_hop == 0)
              then with_egress s downstream my_node destination now_ms routable r
              else list_route s downstream my_node destination now_ms routable r
                  (list_downstream downstream destination now_ms (2 ^ 32 - 1)))
      hop_or_list r searched = elim (Bool-cases (not (r.next_hop == 0))) [
        | inl hop ↦ subst IsLed (sym (if-true _ _ hop)) (egress-IsLed r searched hop)
        | inr none_yet ↦
            subst IsLed (sym (if-false _ _ none_yet))
              (list-IsLed r _ refl (IsSearched-IsPending r searched))
      ]
