-- ===== src/Routing/Graph/Route/Round.antt =====
-- A whole round of `backward_search` (crates/mesh-routing/src/graph/route.rs), from the visit of a node
-- to the relaxation of every hop to it.
use meshrustic.Base.{
  ℕ, ◌≤◌, ◌<◌, ◌≡◌, refl, sym, ap, subst, ◌∙◌, Bool, true, false, ◌||◌, Option, none, some, List,
  [], ◌∷◌, ◌==◌, length, any, find?, is_some, All, if-false, inl, inr, Bool-cases, arith,
}
use meshrustic.Routing.Graph.Edge.{Edge, NodeEdges, max_graph_nodes}
use meshrustic.Routing.Graph.Edge.Store.{EdgeStore, find_link}
use meshrustic.Routing.Graph.Route.{RoutableFilter, route_cost_unknown}
use meshrustic.Routing.Graph.Route.Price.{publishes}
use meshrustic.Routing.Graph.Route.Search.{
  DNode, add_cost, relax, edge_price, relax_priced, relax_links, relax_back, relax_backs,
  capability_of,
}
use meshrustic.Routing.Graph.Route.Expand.{
  In, first, later, Hop, IsKept, relax_links-keeps, relax_back-keeps, relax_backs-keeps,
}
use meshrustic.Routing.Graph.Route.Table.{Reaches}
use meshrustic.Routing.Graph.Route.Grown.{Reaches-grown}
use meshrustic.Routing.Graph.Route.Room.{holds}
use meshrustic.Routing.Graph.Route.Closed.{IsOpen, relax-IsOpen, relax-IsGrown, relax-Reaches}

pub has_node : List NodeEdges → ℕ → Bool
has_node ms m = any (λ x. x.node_id == m) ms

pub linked_node :
    (ms : List NodeEdges) (m : ℕ) (o : Option NodeEdges)
    → find? (λ x. x.node_id == m) ms ≡ o
    → is_some o ≡ true
    → has_node ms m ≡ true
unfolding has_node
linked_node [] m o e there = absurd (cc (ap is_some e, there))
linked_node (x ∷ ms) m o e there = elim (Bool-cases (x.node_id == m)) [
  | inl here ↦ ground arith
  | inr other ↦ ground (arith, linked_node ms m o (sym (if-false (some x) _ other) ∙ e) there)
]

module _ (s : EdgeStore) (my_node destination now_ms : ℕ) (routable : Option RoutableFilter)
    (allow : Bool) (ks : List ℕ) (fits : length ks ≤ max_graph_nodes)
    (covered : (n m price : ℕ) → Hop s my_node now_ms routable allow n m price → holds ks m ≡ true)
    (u cur : ℕ) (low : u < route_cost_unknown) where
  abbrev pub Open : List DNode → Type 0
  Open = IsOpen s my_node destination now_ms routable allow ks u cur

  abbrev pub Over : ℕ → ℕ → Type 0
  Over m price = Hop s my_node now_ms routable allow cur m price

  -- A table in which a node has been reached.
  abbrev pub OpenAt : ℕ → ℕ → List DNode → Type 0
  OpenAt m c nodes = Open nodes × Reaches nodes m c

  pub relax-Open :
      (m price : ℕ) (nodes : List DNode)
      → Over m price
      → Open nodes
      → Open (relax nodes m cur u price)
  relax-Open m price nodes over ok =
      relax-IsOpen s my_node destination now_ms routable allow ks fits covered u cur low m price
        nodes over ok

  pub relax-OpenAt :
      (m c : ℕ) (v price : ℕ) (nodes : List DNode)
      → Over v price
      → OpenAt m c nodes
      → OpenAt m c (relax nodes v cur u price)
  relax-OpenAt m c v price nodes over (ok, reached) = (
    relax-Open v price nodes over ok,
    Reaches-grown m c
        (relax-IsGrown s my_node destination now_ms routable allow ks fits covered u cur low v price
          nodes over ok)
        reached,
  )

  relax-at :
      (m price : ℕ) (nodes : List DNode)
      → Over m price
      → Open nodes
      → OpenAt m (add_cost u price) (relax nodes m cur u price)
  relax-at m price nodes over ok = (
    relax-Open m price nodes over ok,
    relax-Reaches s my_node destination now_ms routable allow ks fits covered u cur low m price
        nodes over ok,
  )

  abbrev pub all_links : List Edge → List DNode → List DNode
  all_links es nodes = relax_links s my_node now_ms cur u es nodes

  abbrev pub all_backs : List NodeEdges → List DNode → List DNode
  all_backs ms nodes =
      relax_backs s my_node now_ms cur u (publishes (capability_of routable) cur) allow ms nodes

  abbrev pub Links : List Edge → Type 0
  Links es = All (λ e. Over e.to (edge_price s my_node now_ms e.to cur cur e false)) es

  pub links-keep :
      (Q : List DNode → Type 0) (es : List Edge) (nodes : List DNode)
      → ((v price : ℕ) (nodes : List DNode)
          → Over v price
          → Q nodes
          → Q (relax nodes v cur u price))
      → Links es
      → Q nodes
      → Q (all_links es nodes)
  unfolding IsKept
  links-keep Q es nodes kept links ok =
      relax_links-keeps s my_node destination now_ms routable allow cur u Q kept es nodes links ok

  pub backs-keep :
      (Q : List DNode → Type 0) (ms : List NodeEdges) (nodes : List DNode)
      → ((v price : ℕ) (nodes : List DNode)
          → Over v price
          → Q nodes
          → Q (relax nodes v cur u price))
      → Q nodes
      → Q (all_backs ms nodes)
  unfolding IsKept
  backs-keep Q ms nodes kept ok =
      relax_backs-keeps s my_node destination now_ms routable allow cur u Q kept ms nodes ok

  pub each_link-Reaches :
      (es : List Edge) (nodes : List DNode) (e : Edge)
      → In e es
      → Links es
      → Open nodes
      → Reaches
          (all_links es nodes)
          e.to
          (add_cost u (edge_price s my_node now_ms e.to cur cur e false))
  unfolding relax_links relax_priced
  each_link-Reaches [] nodes e i links ok = elim i [ ]
  each_link-Reaches (x ∷ es) nodes _ first links ok =
      let price = edge_price s my_node now_ms x.to cur cur x false in
      (links-keep (OpenAt x.to (add_cost u price)) es _ (relax-OpenAt x.to (add_cost u price))
        links.1 (relax-at x.to price nodes links.0 ok)).1
  each_link-Reaches (x ∷ es) nodes e (later i) links ok =
      each_link-Reaches es _ e i links.1 (relax-Open x.to _ nodes links.0 ok)

  -- The relaxation over a link that the other node reports.
  abbrev pub Back : ℕ → ℕ → Type 0
  Back m price =
      (nodes : List DNode)
      → relax_back s my_node now_ms cur u (publishes (capability_of routable) cur) allow m nodes
        ≡ relax nodes m cur u price

  back-Open :
      (m : ℕ) (nodes : List DNode)
      → Open nodes
      → Open
          (relax_back s my_node now_ms cur u (publishes (capability_of routable) cur) allow m nodes)
  unfolding IsKept
  back-Open m nodes ok =
      relax_back-keeps s my_node destination now_ms routable allow cur u Open relax-Open m nodes ok

  pub backs-reach :
      (m price : ℕ) (ms : List NodeEdges) (nodes : List DNode)
      → Over m price
      → Back m price
      → has_node ms m ≡ true
      → Open nodes
      → Reaches (all_backs ms nodes) m (add_cost u price)
  unfolding relax_backs has_node
  backs-reach m price [] nodes over back there ok = absurd (cc)
  backs-reach m price (x ∷ ms) nodes over back there ok = elim (Bool-cases (x.node_id == m)) [
    | inl here ↦
        let same : m ≡ x.node_id = ground arith in
        let done : OpenAt m (add_cost u price) (
            relax_back s my_node now_ms cur u (publishes (capability_of routable) cur) allow
              x.node_id nodes) =
          subst
            (λ i. OpenAt m (add_cost u price) (
              relax_back s my_node now_ms cur u (publishes (capability_of routable) cur) allow i
                nodes))
            same
            (subst (OpenAt m (add_cost u price)) (sym (back nodes))
              (relax-at m price nodes over ok)) in
        (backs-keep (OpenAt m (add_cost u price)) ms _ (relax-OpenAt m (add_cost u price)) done).1
    | inr other ↦ backs-reach m price ms _ over back (ground arith) (back-Open x.node_id nodes ok)
  ]

  pub unlisted_other :
      (m : ℕ) (e : Edge)
      → find_link s cur m ≡ none
      → find_link s m cur ≡ some e
      → (m == cur || is_some (find_link s cur m)) ≡ false
  unlisted_other m e unlisted link = elim (Bool-cases (m == cur)) [
    | inr other ↦ rw (other, unlisted) refl
    | inl same ↦
        let is_cur : m ≡ cur = ground arith in
        absurd (
          cc (
            subst (λ i. find_link s i cur ≡ some e) is_cur link,
            subst (λ i. find_link s cur i ≡ none) is_cur unlisted,
          ))
  ]
