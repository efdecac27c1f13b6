-- ===== src/Routing/Graph/Route/Visited.antt =====
-- The visit of the node of the least cost, in `backward_search` (crates/mesh-routing/src/graph/route.rs).
use meshrustic.Base.{
  ℕ, ◌≤◌, ◌<◌, ◌≡◌, ◌≢◌, ◌⊎◌, refl, sym, ap, subst, ◌∙◌, Bool, true, false, ◌||◌, Option, List,
  ◌==◌, length, get_or-set_self, get_or-set_ne, length-set, inl, inr, Bool-cases, arith,
}
use meshrustic.Routing.Graph.Edge.Store.{EdgeStore}
use meshrustic.Routing.Graph.Route.{RoutableFilter}
use meshrustic.Routing.Graph.Route.Search.{DNode, blank, has_id, add_cost, passes, visit}
use meshrustic.Routing.Graph.Route.Expand.{Hop}
use meshrustic.Routing.Graph.Route.Ends.{IsNext}
use meshrustic.Routing.Graph.Route.Table.{at, Reaches, position-set_same}
use meshrustic.Routing.Graph.Route.Room.{IsTable, visit-IsTable}
use meshrustic.Routing.Graph.Route.Closed.{IsOpen}

module _ (s : EdgeStore) (my_node destination now_ms : ℕ) (routable : Option RoutableFilter)
    (allow : Bool) (ks : List ℕ) where
  -- Between two rounds: the costs of the visited nodes are at most `u` and those of the others at least
  -- `u`, and every hop to a visited node that may carry packets on has been relaxed.
  pub record IsClosed (u : ℕ) (nodes : List DNode) : Type 0 where
    pub table : IsTable ks nodes
    pub below : (k : ℕ) → k < length nodes → (at nodes k).visited ≡ true → (at nodes k).cost ≤ u
    pub above : (k : ℕ) → k < length nodes → (at nodes k).visited ≡ false → u ≤ (at nodes k).cost
    pub not_ours :
        (k : ℕ)
        → k < length nodes
        → (at nodes k).visited ≡ true
        → ((at nodes k).id == my_node) ≡ false
    pub closed :
        (k m price : ℕ)
        → k < length nodes
        → (at nodes k).visited ≡ true
        → ((at nodes k).id == destination) || passes routable (at nodes k).id ≡ true
        → Hop s my_node now_ms routable allow (at nodes k).id m price
        → Reaches nodes m (add_cost (at nodes k).cost price)
    pub source : Reaches nodes destination 0

  -- The visit of a node of the least cost.
  visited_at :
      (nodes : List DNode) (i k : ℕ)
      → i < length nodes
      → ((k ≡ i) × (at (visit nodes i) k ≡ record (at nodes i) { visited = true }))
        ⊎ ((k ≢ i) × (at (visit nodes i) k ≡ at nodes k))
  visited_at nodes i k lt = elim (Bool-cases (k == i)) [
    | inl here ↦
        let same : k ≡ i = ground arith in
        inl (
          same,
          ap (at (visit nodes i)) same
              ∙ get_or-set_self nodes i (record (at nodes i) { visited = true }) blank lt,
        )
    | inr other ↦ inr (
      ground arith,
      get_or-set_ne nodes i k (record (at nodes i) { visited = true }) blank (ground arith),
    )
  ]

  visited_cost :
      (nodes : List DNode) (i k : ℕ)
      → i < length nodes
      → (at (visit nodes i) k).cost ≡ (at nodes k).cost
  visited_cost nodes i k lt = elim (visited_at nodes i k lt) [
    | inl (same, e) ↦ ap (λ (n : DNode). n.cost) e ∙ ap (λ j. (at nodes j).cost) (sym same)
    | inr (other, e) ↦ ap (λ (n : DNode). n.cost) e
  ]

  pub Reaches-visit :
      (nodes : List DNode) (i m cost : ℕ)
      → i < length nodes
      → Reaches nodes m cost
      → Reaches (visit nodes i) m cost
  Reaches-visit nodes i m cost lt reached = record {
    index = reached.index;
    found =
        position-set_same (has_id m) nodes i (record (at nodes i) { visited = true }) blank refl
        ∙ reached.found;
    cheap = omega (arith, visited_cost nodes i reached.index lt, reached.cheap);
  }

  pub visit-IsOpen :
      (u c i : ℕ) (nodes : List DNode)
      → IsClosed u nodes
      → IsNext nodes i c
      → ((k : ℕ) → k < length nodes → (at nodes k).visited ≡ false → c ≤ (at nodes k).cost)
      → ((at nodes i).id == my_node) ≡ false
      → IsOpen s my_node destination now_ms routable allow ks c (at nodes i).id (visit nodes i)
  visit-IsOpen u c i nodes ok chosen least other =
      let lt = chosen.inside in
      let n : DNode = record (at nodes i) { visited = true } in
      let u_le : u ≤ c = omega (arith, ok.above i lt chosen.unvisited, chosen.priced) in
      let inside : (k : ℕ) → k < length (visit nodes i) → k < length nodes =
        λ k bound. omega (arith, length-set nodes i n, bound) in
      record {
        table = visit-IsTable ks nodes i lt ok.table;
        below = λ k bound seen. elim (visited_at nodes i k lt) [
          | inl (same, e) ↦ omega (arith, ap (λ (n : DNode). n.cost) e, chosen.priced)
          | inr (differs, e) ↦
              let before =
                ok.below k (inside k bound) (sym (ap (λ (n : DNode). n.visited) e) ∙ seen) in
              omega (arith, ap (λ (n : DNode). n.cost) e, before, u_le)
        ];
        above = λ k bound idle. elim (visited_at nodes i k lt) [
          | inl (same, e) ↦ absurd (cc (ap (λ (n : DNode). n.visited) e, idle))
          | inr (differs, e) ↦
              let before =
                least k (inside k bound) (sym (ap (λ (n : DNode). n.visited) e) ∙ idle) in
              omega (arith, ap (λ (n : DNode). n.cost) e, before)
        ];
        not_ours = λ k bound seen. elim (visited_at nodes i k lt) [
          | inl (same, e) ↦ ap (λ (n : DNode). n.id == my_node) e ∙ other
          | inr (differs, e) ↦
              ap (λ (n : DNode). n.id == my_node) e
              ∙ ok.not_ours k (inside k bound) (sym (ap (λ (n : DNode). n.visited) e) ∙ seen)
        ];
        closed = λ k m price bound seen passed over. elim (visited_at nodes i k lt) [
          | inl (same, e) ↦
              inl (ap (λ (n : DNode). n.id) e, ap (λ (n : DNode). n.cost) e ∙ sym chosen.priced)
          | inr (differs, e) ↦ inr (
              subst (λ (n : DNode). Reaches (visit nodes i) m (add_cost n.cost price)) (sym e)
                (Reaches-visit nodes i m _ lt (
                  ok.closed k m price (inside k bound)
                    (sym (ap (λ (n : DNode). n.visited) e) ∙ seen)
                    (subst (λ (n : DNode). (n.id == destination) || passes routable n.id ≡ true) e
                      passed)
                    (subst (λ (n : DNode). Hop s my_node now_ms routable allow n.id m price) e
                      over))))
        ];
        source = Reaches-visit nodes i destination 0 lt ok.source;
      }
