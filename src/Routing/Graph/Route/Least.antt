-- ===== src/Routing/Graph/Route/Least.antt =====
-- `backward_search` (crates/mesh-routing/src/graph/route.rs) finds a way of the least cost, where its table
-- has room.
use meshrustic.Base.{
  ℕ, zero, suc, ◌≤◌, ◌<◌, ◌≡◌, ◌⊎◌, ap, subst, Bool, true, false, ◌||◌, Option, none, some, List,
  ◌==◌, length, position, position_sound, inl, inr, Bool-cases, arith,
}
use meshrustic.Routing.Graph.Edge.{max_graph_nodes}
use meshrustic.Routing.Graph.Edge.Store.{EdgeStore}
use meshrustic.Routing.Graph.Route.{RoutableFilter, route_cost_unknown}
use meshrustic.Routing.Graph.Route.Search.{
  DNode, blank, has_id, add_cost, nearest, visit, passes, expand, search, start,
}
use meshrustic.Routing.Graph.Route.Expand.{Hop}
use meshrustic.Routing.Graph.Route.Ends.{IsNext}
use meshrustic.Routing.Graph.Route.Rule.{AtEnd, search-AtEnd}
use meshrustic.Routing.Graph.Route.Ways.{Way, arrived, hop}
use meshrustic.Routing.Graph.Route.Table.{at, Reaches}
use meshrustic.Routing.Graph.Route.Room.{holds, found_at}
use meshrustic.Routing.Graph.Route.Visited.{IsClosed, visit-IsOpen, Reaches-visit}
use meshrustic.Routing.Graph.Route.Nearest.{nearest_least, nearest-none}
use meshrustic.Routing.Graph.Route.Expanded.{expand-IsClosed}

module _ (s : EdgeStore) (destination : ℕ) (routable : Option RoutableFilter) (allow : Bool)
    (my_node now_ms : ℕ) (ks : List ℕ) (fits : length ks ≤ max_graph_nodes)
    (covered : (n m price : ℕ)
      → Hop s my_node now_ms routable allow n m price
      → holds ks m ≡ true) where
  abbrev WayTo : ℕ → ℕ → Type 0
  WayTo = Way s destination routable allow my_node now_ms

  abbrev Closed : ℕ → List DNode → Type 0
  Closed = IsClosed s my_node destination now_ms routable allow ks

  pub low_way : (m w : ℕ) → WayTo m w → w < route_cost_unknown
  low_way m w arrived = omega arith
  low_way m w (hop _ n cost price way passed over) = omega arith

  -- A visited node of at most that cost.
  record IsVisitedAt (nodes : List DNode) (m w : ℕ) : Type 0 where
    index : ℕ
    found : position (has_id m) nodes ≡ some index
    seen : (at nodes index).visited ≡ true
    cheap : (at nodes index).cost ≤ w

  reached_or_not :
      (nodes : List DNode) (c m w : ℕ)
      → ((k : ℕ) → k < length nodes → (at nodes k).visited ≡ false → c ≤ (at nodes k).cost)
      → Reaches nodes m w
      → IsVisitedAt nodes m w ⊎ (c ≤ w)
  reached_or_not nodes c m w least reached =
      let lt = (position_sound (has_id m) nodes blank reached.found).0 in
      elim (Bool-cases ((at nodes reached.index).visited)) [
        | inl seen ↦ inl (record {
          index = reached.index;
          found = reached.found;
          seen = seen;
          cheap = reached.cheap;
        })
        | inr idle ↦ inr (omega (arith, least reached.index lt idle, reached.cheap))
      ]

  -- A way leads from a visited node of at most its cost, or costs as much as any node not visited.
  way_or_more :
      (u c : ℕ) (nodes : List DNode) (m w : ℕ)
      → Closed u nodes
      → ((k : ℕ) → k < length nodes → (at nodes k).visited ≡ false → c ≤ (at nodes k).cost)
      → WayTo m w
      → IsVisitedAt nodes m w ⊎ (c ≤ w)
  way_or_more u c nodes m w ok least arrived = reached_or_not nodes c destination 0 least ok.source
  way_or_more u c nodes m w ok least (hop _ n cost price way passed over) =
      let low = low_way n cost way in
      elim (way_or_more u c nodes n cost ok least way) [
        | inr more ↦ inr (omega (arith, more, low))
        | inl before ↦
            let k = before.index in
            let (lt, hit) = position_sound (has_id n) nodes blank before.found in
            let named : n ≡ (at nodes k).id = ground (arith, hit) in
            let reached =
              ok.closed k m price lt before.seen
                (subst (λ i. (i == destination) || passes routable i ≡ true) named passed)
                (subst (λ i. Hop s my_node now_ms routable allow i m price) named over) in
            let cheap : (at nodes reached.index).cost ≤ add_cost cost price =
              omega (arith, reached.cheap, before.cheap) in
            reached_or_not nodes c m (add_cost cost price) least
              (record { index = reached.index; found = reached.found; cheap = cheap })
      ]

  -- Our own node is in the table at no more than the cost of any way.
  abbrev pub IsLeast : List DNode → Type 0
  IsLeast nodes = (w : ℕ) → WayTo my_node w → Reaches nodes my_node w

  not_visited :
      (u : ℕ) (nodes : List DNode) (w : ℕ) → Closed u nodes → IsVisitedAt nodes my_node w → ⊥
  not_visited u nodes w ok me =
      let (lt, hit) = position_sound (has_id my_node) nodes blank me.found in
      cc (ok.not_ours me.index lt me.seen, hit)

  stop-IsLeast :
      (nodes : List DNode)
      → (nearest nodes 0 none route_cost_unknown).0 ≡ none
      → (u : ℕ) × Closed u nodes
      → IsLeast nodes
  stop-IsLeast nodes e (u, ok) w way =
      let (_, cost) = nearest-none nodes 0 none route_cost_unknown e in
      let all_unknown = λ (k : ℕ) (lt : k < length nodes) (idle : (at nodes k).visited ≡ false).
        subst (λ c. c ≤ (at nodes k).cost) cost
          (nearest_least nodes 0 none route_cost_unknown k lt idle) in
      elim (way_or_more u route_cost_unknown nodes my_node w ok all_unknown way) [
        | inl me ↦ absurd (not_visited u nodes w ok me)
        | inr more ↦ absurd (omega (arith, more, low_way my_node w way))
      ]

  least_of :
      (nodes : List DNode) (i c : ℕ)
      → nearest nodes 0 none route_cost_unknown ≡ (some i, c)
      → (k : ℕ) → k < length nodes
      → (at nodes k).visited ≡ false
      → c ≤ (at nodes k).cost
  least_of nodes i c e k lt idle =
      subst (λ x. x ≤ (at nodes k).cost) (ap (λ (r : Option ℕ × ℕ). r.1) e)
        (nearest_least nodes 0 none route_cost_unknown k lt idle)

  ours-IsLeast :
      (nodes : List DNode) (i c : ℕ)
      → nearest nodes 0 none route_cost_unknown ≡ (some i, c)
      → IsNext nodes i c
      → (at nodes i).id ≡ my_node
      → (u : ℕ) × Closed u nodes
      → IsLeast (visit nodes i)
  ours-IsLeast nodes i c e chosen ours (u, ok) w way =
      elim (way_or_more u c nodes my_node w ok (least_of nodes i c e) way) [
        | inl me ↦ absurd (not_visited u nodes w ok me)
        | inr more ↦
            let here : position (has_id my_node) nodes ≡ some i =
              subst (λ v. position (has_id v) nodes ≡ some i) ours
                (found_at ks nodes i ok.table chosen.inside) in
            Reaches-visit s my_node destination now_ms routable allow ks nodes i my_node w
              chosen.inside
              (record { index = i; found = here; cheap = omega (arith, chosen.priced, more) })
      ]

  round-Closed :
      (nodes : List DNode) (i c : ℕ)
      → nearest nodes 0 none route_cost_unknown ≡ (some i, c)
      → IsNext nodes i c
      → ((at nodes i).id == my_node) ≡ false
      → (u : ℕ) × Closed u nodes
      → (u : ℕ) × Closed u
          (expand s my_node destination now_ms routable allow (at nodes i).id c (visit nodes i))
  round-Closed nodes i c e chosen other (u, ok) = (
    c,
    expand-IsClosed s my_node destination now_ms routable allow ks fits covered c (at nodes i).id
        chosen.cheap (visit nodes i)
        (visit-IsOpen s my_node destination now_ms routable allow ks u c i nodes ok chosen
          (least_of nodes i c e) other),
  )

  start-Closed : holds ks destination ≡ true → (u : ℕ) × Closed u (start destination)
  start-Closed there = (
    0,
    record {
      table = record { distinct = λ v. ground arith; known_ids = (there, tt) };
      below = λ k lt seen. absurd (no_visits k lt seen);
      above = λ k lt idle. omega arith;
      not_ours = λ k lt seen. absurd (no_visits k lt seen);
      closed = λ k m price lt seen passed over. absurd (no_visits k lt seen);
      source = record { index = 0; found = ground arith; cheap = omega arith };
    },
  )
    where
      no_visits :
          (k : ℕ) → k < length (start destination) → (at (start destination) k).visited ≡ true → ⊥
      no_visits zero lt seen = cc
      no_visits (suc k) lt seen = omega arith

  pub search-IsLeast :
      (fuel : ℕ)
      → holds ks destination ≡ true
      → AtEnd IsLeast (search s my_node destination now_ms routable allow fuel (start destination))
  search-IsLeast fuel there =
      search-AtEnd s my_node destination now_ms routable allow (λ nodes. (u : ℕ) × Closed u nodes)
        IsLeast stop-IsLeast ours-IsLeast round-Closed fuel (start destination) (start-Closed there)
