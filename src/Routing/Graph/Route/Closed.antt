-- ===== src/Routing/Graph/Route/Closed.antt =====
-- In a round of `backward_search` (crates/mesh-routing/src/graph/route.rs) every hop to the visited node
-- is relaxed, and the visited nodes stay those of the lowest costs.
use meshrustic.Base.{
  ℕ, ◌≤◌, ◌<◌, ◌≡◌, ◌⊎◌, sym, ap, subst, ◌∙◌, Bool, true, false, ◌||◌, Option, List, ◌==◌, ltb,
  length, inl, inr, Bool-cases, arith,
}
use meshrustic.Routing.Graph.Edge.{max_graph_nodes}
use meshrustic.Routing.Graph.Edge.Store.{EdgeStore}
use meshrustic.Routing.Graph.Route.{RoutableFilter, route_cost_unknown}
use meshrustic.Routing.Graph.Route.Search.{DNode, add_cost, relax, passes}
use meshrustic.Routing.Graph.Route.Expand.{Hop}
use meshrustic.Routing.Graph.Route.Table.{at, Reaches, Relaxed, relax-Relaxed}
use meshrustic.Routing.Graph.Route.Grown.{IsGrown, Relaxed-IsGrown, Reaches-grown, Relaxed-Reaches}
use meshrustic.Routing.Graph.Route.Room.{holds, IsTable, room, Relaxed-IsTable}

module _ (s : EdgeStore) (my_node destination now_ms : ℕ) (routable : Option RoutableFilter)
    (allow : Bool) (ks : List ℕ) where
  -- In a round: the costs of the visited nodes are at most `u` and those of the others at least `u`, and
  -- but for the current node every hop to a visited node that may carry packets on has been relaxed.
  pub record IsOpen (u cur : ℕ) (nodes : List DNode) : Type 0 where
    pub table : IsTable ks nodes
    pub below : (k : ℕ) → k < length nodes → (at nodes k).visited ≡ true → (at nodes k).cost ≤ u
    pub above : (k : ℕ) → k < length nodes → (at nodes k).visited ≡ false → u ≤ (at nodes k).cost
    pub not_ours :
        (k : ℕ)
        → k < length nodes
        → (at nodes k).visited ≡ true
        → ((at nodes k).id == my_node) ≡ false
    pub closed :
        (k m price : ℕ)
        → k < length nodes
        → (at nodes k).visited ≡ true
        → ((at nodes k).id == destination) || passes routable (at nodes k).id ≡ true
        → Hop s my_node now_ms routable allow (at nodes k).id m price
        → (((at nodes k).id ≡ cur) × ((at nodes k).cost ≡ u))
          ⊎ Reaches nodes m (add_cost (at nodes k).cost price)
    pub source : Reaches nodes destination 0

  module _ (fits : length ks ≤ max_graph_nodes)
      (covered : (n m price : ℕ)
        → Hop s my_node now_ms routable allow n m price
        → holds ks m ≡ true)
      (u cur : ℕ) (low : u < route_cost_unknown) where
    module _ (nodes nodes' : List DNode) (ok : IsOpen u cur nodes)
        (grown : IsGrown u nodes nodes') where
      old_visits :
          (k : ℕ)
          → k < length nodes'
          → (at nodes' k).visited ≡ true
          → (k < length nodes) × ((at nodes k).visited ≡ true)
      old_visits k lt seen = elim (Bool-cases (ltb k (length nodes))) [
        | inl before ↦
            let inside : k < length nodes = ground arith in
            (inside, sym (grown.old k inside).same_visits ∙ seen)
        | inr new ↦ absurd (cc ((grown.fresh k (ground arith) lt).unvisited, seen))
      ]

      IsOpen-grown : IsTable ks nodes' → IsOpen u cur nodes'
      IsOpen-grown table = record {
        table = table;
        below = λ k lt seen.
            let (inside, visited) = old_visits k lt seen in
            omega (arith, (grown.old k inside).cheaper, ok.below k inside visited);
        above = λ k lt idle. elim (Bool-cases (ltb k (length nodes))) [
          | inl before ↦
              let inside : k < length nodes = ground arith in
              let one = grown.old k inside in
              one.not_below (ok.above k inside (sym one.same_visits ∙ idle))
          | inr new ↦ (grown.fresh k (ground arith) lt).cost_le
        ];
        not_ours = λ k lt seen.
            let (inside, visited) = old_visits k lt seen in
            ap (λ i. i == my_node) (grown.old k inside).same_id ∙ ok.not_ours k inside visited;
        closed = λ k m price lt seen passed over.
            let (inside, visited) = old_visits k lt seen in
            let one = grown.old k inside in
            let same_cost = one.settled visited in
            elim (ok.closed k m price inside visited
              (subst (λ i. (i == destination) || passes routable i ≡ true) one.same_id passed)
              (subst (λ i. Hop s my_node now_ms routable allow i m price) one.same_id over)) [
                | inl (current, cost) ↦ inl (one.same_id ∙ current, same_cost ∙ cost)
                | inr reached ↦ inr (
                    subst (λ c. Reaches nodes' m (add_cost c price)) (sym same_cost)
                      (Reaches-grown m _ grown reached))
              ];
        source = Reaches-grown destination 0 grown ok.source;
      }

    relax-view :
        (m price : ℕ) (nodes : List DNode)
        → Hop s my_node now_ms routable allow cur m price
        → IsOpen u cur nodes
        → Relaxed nodes m cur (add_cost u price) (relax nodes m cur u price)
    relax-view m price nodes over ok = relax-Relaxed nodes m cur u price (λ missing.
        omega (arith, fits, room ks nodes m ok.table (covered cur m price over) missing))

    pub relax-IsGrown :
        (m price : ℕ) (nodes : List DNode)
        → Hop s my_node now_ms routable allow cur m price
        → IsOpen u cur nodes
        → IsGrown u nodes (relax nodes m cur u price)
    relax-IsGrown m price nodes over ok =
        Relaxed-IsGrown u (omega (arith, low)) (relax-view m price nodes over ok)

    pub relax-IsOpen :
        (m price : ℕ) (nodes : List DNode)
        → Hop s my_node now_ms routable allow cur m price
        → IsOpen u cur nodes
        → IsOpen u cur (relax nodes m cur u price)
    relax-IsOpen m price nodes over ok =
        IsOpen-grown nodes _ ok (relax-IsGrown m price nodes over ok) (
          Relaxed-IsTable ks (covered cur m price over) (relax-view m price nodes over ok) ok.table)

    pub relax-Reaches :
        (m price : ℕ) (nodes : List DNode)
        → Hop s my_node now_ms routable allow cur m price
        → IsOpen u cur nodes
        → Reaches (relax nodes m cur u price) m (add_cost u price)
    relax-Reaches m price nodes over ok =
        Relaxed-Reaches (λ k lt seen. omega (arith, ok.below k lt seen, low))
          (relax-view m price nodes over ok)
