-- ===== src/Routing/Graph/Route/Expanded.antt =====
-- After a round of `backward_search` (crates/mesh-routing/src/graph/route.rs) every hop to a visited node
-- has been relaxed.
use meshrustic.Base.{
  ℕ, ◌≤◌, ◌<◌, ◌≡◌, refl, sym, subst, Bool, true, false, not, ◌&&◌, ◌||◌, Option, none, some, List,
  ◌==◌, length, if-false, inl, inr, Option-cases, arith,
}
use meshrustic.Routing.Graph.Edge.{Edge, max_graph_nodes}
use meshrustic.Routing.Graph.Edge.Store.{EdgeStore, find_node, find_link, edges_of}
use meshrustic.Routing.Graph.Route.{RoutableFilter, route_cost_unknown}
use meshrustic.Routing.Graph.Route.Search.{
  DNode, add_cost, edge_price, relax_priced, relax_back, passes, expand,
}
use meshrustic.Routing.Graph.Route.Expand.{expand-keeps, Hop, listed, heard, on_trust, All-Hop}
use meshrustic.Routing.Graph.Route.Table.{Reaches}
use meshrustic.Routing.Graph.Route.Room.{holds}
use meshrustic.Routing.Graph.Route.Closed.{IsOpen}
use meshrustic.Routing.Graph.Route.Visited.{IsClosed}
use meshrustic.Routing.Graph.Route.Round.{
  has_node, linked_node, OpenAt, all_links, all_backs, relax-Open, relax-OpenAt, links-keep,
  backs-keep, each_link-Reaches, backs-reach, unlisted_other,
}

module _ (s : EdgeStore) (my_node destination now_ms : ℕ) (routable : Option RoutableFilter)
    (allow : Bool) (ks : List ℕ) (fits : length ks ≤ max_graph_nodes)
    (covered : (n m price : ℕ) → Hop s my_node now_ms routable allow n m price → holds ks m ≡ true)
    (u cur : ℕ) (low : u < route_cost_unknown) where
  abbrev IsOpenHere : List DNode → Type 0
  IsOpenHere = IsOpen s my_node destination now_ms routable allow ks u cur

  expand-both :
      (nodes : List DNode)
      → (cur == destination) || passes routable cur ≡ true
      → expand s my_node destination now_ms routable allow cur u nodes
        ≡ all_backs s my_node destination now_ms routable allow ks fits covered u cur low s.nodes (
            all_links s my_node destination now_ms routable allow ks fits covered u cur low
              (edges_of s cur)
              nodes)
  unfolding expand
  expand-both nodes passed =
      let open_way : (not (cur == destination) && not (passes routable cur)) ≡ false =
        ground arith in
      if-false _ _ open_way

  node_of : (m : ℕ) (e : Edge) → find_link s m cur ≡ some e → has_node s.nodes m ≡ true
  node_of m e link = elim (Option-cases (find_node s m)) [
    | inl missing ↦ absurd (cc (no_link missing, link))
    | inr (x, found) ↦ linked_node s.nodes m (some x) found refl
  ]
    where
      no_link : find_node s m ≡ none → find_link s m cur ≡ none
      no_link missing = rw (find_link, missing) refl

  backs-OpenAt :
      (m c : ℕ) (nodes : List DNode)
      → IsOpenHere nodes × Reaches nodes m c
      → Reaches
          (all_backs s my_node destination now_ms routable allow ks fits covered u cur low s.nodes
            nodes)
          m
          c
  backs-OpenAt m c nodes both =
      (backs-keep s my_node destination now_ms routable allow ks fits covered u cur low
        (OpenAt s my_node destination now_ms routable allow ks fits covered u cur low m c) s.nodes
        nodes
        (relax-OpenAt s my_node destination now_ms routable allow ks fits covered u cur low m c)
        both).1

  links-Open :
      (nodes : List DNode)
      → IsOpenHere nodes
      → IsOpenHere (
          all_links s my_node destination now_ms routable allow ks fits covered u cur low
            (edges_of s cur)
            nodes)
  links-Open nodes =
      links-keep s my_node destination now_ms routable allow ks fits covered u cur low IsOpenHere
        (edges_of s cur) nodes
        (relax-Open s my_node destination now_ms routable allow ks fits covered u cur low)
        (All-Hop s my_node now_ms routable allow cur (edges_of s cur) (λ e i. i))

  both-reach :
      (m price : ℕ) (nodes : List DNode)
      → Hop s my_node now_ms routable allow cur m price
      → IsOpenHere nodes
      → Reaches
          (all_backs s my_node destination now_ms routable allow ks fits covered u cur low s.nodes (
            all_links s my_node destination now_ms routable allow ks fits covered u cur low
              (edges_of s cur)
              nodes))
          m
          (add_cost u price)
  unfolding relax_back relax_priced
  both-reach m price nodes (listed e i same) ok =
      let linked : List DNode =
        all_links s my_node destination now_ms routable allow ks fits covered u cur low
          (edges_of s cur) nodes in
      let reached =
        each_link-Reaches s my_node destination now_ms routable allow ks fits covered u cur low
          (edges_of s cur) nodes e i
          (All-Hop s my_node now_ms routable allow cur (edges_of s cur) (λ e i. i)) ok in
      let at_m =
        subst (λ v. Reaches linked v (add_cost u (edge_price s my_node now_ms v cur cur e false)))
          same reached in
      backs-OpenAt m _ _ (links-Open nodes ok, at_m)
  both-reach m price nodes (heard e unlisted link silent) ok =
      let skip =
        unlisted_other s my_node destination now_ms routable allow ks fits covered u cur low m e
          unlisted link in
      backs-reach s my_node destination now_ms routable allow ks fits covered u cur low m _ s.nodes
        _ (heard e unlisted link silent) (λ nodes. rw (relax_back, skip, link, silent) refl)
        (node_of m e link) (links-Open nodes ok)
  both-reach m price nodes (on_trust e unlisted link publishing given) ok =
      let skip =
        unlisted_other s my_node destination now_ms routable allow ks fits covered u cur low m e
          unlisted link in
      backs-reach s my_node destination now_ms routable allow ks fits covered u cur low m _ s.nodes
        _ (on_trust e unlisted link publishing given)
        (λ nodes. rw (relax_back, skip, link, publishing, given) refl) (node_of m e link)
        (links-Open nodes ok)

  -- A whole round.
  pub expand-IsClosed :
      (nodes : List DNode)
      → IsOpenHere nodes
      → IsClosed s my_node destination now_ms routable allow ks u
          (expand s my_node destination now_ms routable allow cur u nodes)
  expand-IsClosed nodes ok =
      let after = expand s my_node destination now_ms routable allow cur u nodes in
      let still : IsOpenHere after =
        expand-keeps s my_node destination now_ms routable allow cur u IsOpenHere
          (λ m price nodes passed over.
            relax-Open s my_node destination now_ms routable allow ks fits covered u cur low m price
              nodes over)
          nodes ok in
      record {
        table = still.table;
        below = still.below;
        above = still.above;
        not_ours = still.not_ours;
        closed = λ k m price bound seen passed over.
            elim (still.closed k m price bound seen passed over) [
              | inr reached ↦ reached
              | inl (current, cost) ↦
                  let passed_here =
                    subst (λ i. (i == destination) || passes routable i ≡ true) current passed in
                  let over_here =
                    subst (λ i. Hop s my_node now_ms routable allow i m price) current over in
                  subst (λ c. Reaches after m (add_cost c price)) (sym cost)
                    (subst (λ t. Reaches t m (add_cost u price))
                      (sym (expand-both nodes passed_here)) (both-reach m price nodes over_here ok))
            ];
        source = still.source;
      }
