-- ===== src/Routing/Graph/Route/Cheapest.antt =====
-- The answer of `backward_search` (crates/mesh-routing/src/graph/route.rs) is a way of the least cost, in a
-- graph whose ids have room in its table.
use meshrustic.Base.{
  ℕ, ◌≤◌, ◌<◌, ◌≡◌, refl, subst, Bool, true, false, Option, none, some, List, [], ◌∷◌, ◌==◌, length,
  find?, find?-position, is_some, All, find?-All, inl, inr, Bool-cases, arith,
}
use meshrustic.Routing.Graph.Edge.{Edge, NodeEdges, max_graph_nodes, find_edge}
use meshrustic.Routing.Graph.Edge.Store.{EdgeStore, find_node}
use meshrustic.Routing.Graph.Route.{RoutableFilter, route_cost_unknown}
use meshrustic.Routing.Graph.Route.Search.{
  DNode, blank, has_id, search, start, way_back, backward_search,
}
use meshrustic.Routing.Graph.Route.Expand.{In, first, later, Hop, listed, heard, on_trust}
use meshrustic.Routing.Graph.Route.Ends.{search-start}
use meshrustic.Routing.Graph.Route.Rule.{AtEnd}
use meshrustic.Routing.Graph.Route.Ways.{Way, IsSound, search-IsSound_start}
use meshrustic.Routing.Graph.Route.Table.{at, Reaches}
use meshrustic.Routing.Graph.Route.Room.{holds}
use meshrustic.Routing.Graph.Route.Least.{search-IsLeast, low_way}

-- The ids of the nodes and of those that their links lead to stand in the list.
abbrev pub IsCovered : List ℕ → List NodeEdges → Type 0
IsCovered ks nodes =
    All (λ n. (holds ks n.node_id ≡ true) × All (λ e. holds ks e.to ≡ true) n.edges) nodes

In-All :
    (ks : List ℕ) (e : Edge) (es : List Edge)
    → In e es
    → All (λ e. holds ks e.to ≡ true) es
    → holds ks e.to ≡ true
In-All ks e [] i all_held = elim i [ ]
In-All ks _ (x ∷ es) first all_held = all_held.0
In-All ks e (x ∷ es) (later i) all_held = In-All ks e es i all_held.1

-- The answer costs no more than `w`.
abbrev pub AnswersWithin : ℕ → Option (ℕ × ℕ × ℕ) → Type 0
AnswersWithin w none = ⊥
AnswersWithin w (some (cost, next, hops)) = cost ≤ w

module _ (s : EdgeStore) (destination : ℕ) (routable : Option RoutableFilter) (allow : Bool)
    (my_node now_ms : ℕ) (ks : List ℕ) where
  -- Both ends of a hop stand in the list.
  Ends : ℕ → ℕ → Type 0
  Ends n m = (holds ks n ≡ true) × (holds ks m ≡ true)

  listed-Ends :
      (n m : ℕ) (e : Edge) (o : Option NodeEdges)
      → find_node s n ≡ o
      → IsCovered ks s.nodes
      → In e (elim o [ none ↦ [] | some x ↦ x.edges ])
      → e.to ≡ m
      → Ends n m
  unfolding Ends
  listed-Ends n m e none found ok i same = elim i [ ]
  listed-Ends n m e (some x) found ok i same =
      let (held, hit) = find?-All _ (λ y. y.node_id == n) s.nodes x found ok in
      let named : x.node_id ≡ n = ground (arith, hit) in
      (
        subst (λ v. holds ks v ≡ true) named held.0,
        subst (λ v. holds ks v ≡ true) same (In-All ks e x.edges i held.1),
      )

  linked-Ends :
      (m n : ℕ) (e : Edge) (o : Option NodeEdges)
      → find_node s m ≡ o
      → IsCovered ks s.nodes
      → (elim o [ none ↦ none | some x ↦ find_edge x n ]) ≡ some e
      → Ends n m
  unfolding Ends
  linked-Ends m n e none found ok link = absurd (cc)
  linked-Ends m n e (some x) found ok link =
      let (held, hit) = find?-All _ (λ y. y.node_id == m) s.nodes x found ok in
      let named : x.node_id ≡ m = ground (arith, hit) in
      let (to_held, to_hit) = find?-All _ (λ e. e.to == n) x.edges e link held.1 in
      let leads : e.to ≡ n = ground (arith, to_hit) in
      (subst (λ v. holds ks v ≡ true) leads to_held, subst (λ v. holds ks v ≡ true) named held.0)

  Hop-Ends :
      (n m price : ℕ)
      → IsCovered ks s.nodes
      → Hop s my_node now_ms routable allow n m price
      → Ends n m
  Hop-Ends n m price ok (listed e i same) = listed-Ends n m e (find_node s n) refl ok i same
  Hop-Ends n m price ok (heard e unlisted link silent) =
      linked-Ends m n e (find_node s m) refl ok link
  Hop-Ends n m price ok (on_trust e unlisted link publishing given) =
      linked-Ends m n e (find_node s m) refl ok link

  way_back-AnswersWithin :
      (nodes : List DNode) (w : ℕ)
      → IsCovered ks s.nodes
      → holds ks 0 ≡ false
      → (my_node == destination) ≡ false
      → w < route_cost_unknown
      → All (IsSound s destination routable allow my_node now_ms) nodes
      → Reaches nodes my_node w
      → AnswersWithin w (way_back s my_node destination now_ms routable allow nodes)
  unfolding way_back Ends
  way_back-AnswersWithin nodes w covered no_zero other low sound reached =
      let me = at nodes reached.index in
      let found : find? (has_id my_node) nodes ≡ some me =
        find?-position (has_id my_node) nodes reached.index blank reached.found in
      let (me_sound, hit) =
        find?-All (IsSound s destination routable allow my_node now_ms) (has_id my_node) nodes me
          found sound in
      let cost_known : (me.cost == route_cost_unknown) ≡ false = ground (arith, reached.cheap) in
      elim me_sound.origin [
        | inl unknown_cost ↦ absurd (omega (arith, unknown_cost, reached.cheap))
        | inr (inl there) ↦ absurd (ground (arith, there, hit))
        | inr (inr first_hop) ↦
            let held = (Hop-Ends me.prev me.id first_hop.price covered first_hop.over).0 in
            let named : (me.prev == 0) ≡ false = elim (Bool-cases (me.prev == 0)) [
              | inr other ↦ other
              | inl zero_prev ↦
                  let is_zero : me.prev ≡ 0 = ground arith in
                  absurd (cc (subst (λ v. holds ks v ≡ true) is_zero held, no_zero))
            ] in
            rw (way_back, found, cost_known, named) reached.cheap
      ]

  -- In a graph whose ids, with those that its links lead to and the destination, are at most 32 and none
  -- of them 0: if there is a way from our node to another one, over hops for which there is evidence and
  -- through nodes that may carry packets on, then the search answers, at no more than the cost of the
  -- way.
  pub backward_search_least :
      (w : ℕ)
      → length ks ≤ max_graph_nodes
      → IsCovered ks s.nodes
      → holds ks destination ≡ true
      → holds ks 0 ≡ false
      → (my_node == destination) ≡ false
      → Way s destination routable allow my_node now_ms my_node w
      → AnswersWithin w (backward_search s my_node destination now_ms routable allow)
  unfolding backward_search Ends
  backward_search_least w fits covered there no_zero other way =
      let hops_held : (n m price : ℕ)
          → Hop s my_node now_ms routable allow n m price
          → holds ks m ≡ true =
        λ n m price over. (Hop-Ends n m price covered over).1 in
      let low =
        low_way s destination routable allow my_node now_ms ks fits hops_held my_node w way in
      go (search s my_node destination now_ms routable allow 33 (start destination))
        (search-start s my_node destination now_ms routable allow)
        (search-IsSound_start s destination routable allow my_node now_ms 33)
        (search-IsLeast s destination routable allow my_node now_ms ks fits hops_held 33 there) low
    where
      go :
          (o : Option (List DNode))
          → is_some o ≡ true
          → AtEnd (All (IsSound s destination routable allow my_node now_ms)) o
          → AtEnd
              (λ nodes.
                (w : ℕ)
                → Way s destination routable allow my_node now_ms my_node w
                → Reaches nodes my_node w)
              o
          → w < route_cost_unknown
          → AnswersWithin w (elim o [
            | none ↦ none
            | some nodes ↦ way_back s my_node destination now_ms routable allow nodes
          ])
      go none ended sound least low = absurd (cc)
      go (some nodes) ended sound least low =
          way_back-AnswersWithin nodes w covered no_zero other low sound (least w way)
