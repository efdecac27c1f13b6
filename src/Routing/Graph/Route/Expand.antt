-- ===== src/Routing/Graph/Route/Expand.antt =====
-- The hops for which the links of the graph give evidence, with their prices, and the rounds of
-- `backward_search` (crates/mesh-routing/src/graph/route.rs) as a sequence of relaxations over them.
use meshrustic.Base.{
  ℕ, ◌≡◌, refl, Bool, true, false, not, ◌&&◌, ◌||◌, Option, none, some, List, [], ◌∷◌, ◌==◌,
  if◌then◌else◌, is_some, inl, inr, Bool-cases, Option-cases, All, arith,
}
use meshrustic.Routing.Graph.Edge.{Edge, NodeEdges}
use meshrustic.Routing.Graph.Edge.Store.{EdgeStore, find_link, edges_of}
use meshrustic.Routing.Graph.Route.{RoutableFilter}
use meshrustic.Routing.Graph.Route.Price.{publishes}
use meshrustic.Routing.Graph.Route.Search.{
  DNode, relax, edge_price, relax_priced, relax_links, relax_back, relax_backs, capability_of,
  passes, expand,
}

-- The edge stands in the list.
pub data In (e : Edge) : List Edge → Type 0 where
  first : {es : List Edge} → In e (e ∷ es)
  later : {x : Edge} {es : List Edge} → In e es → In e (x ∷ es)

module _ (s : EdgeStore) (my_node now_ms : ℕ) (routable : Option RoutableFilter)
    (allow : Bool) where
  -- A hop from `m` to `n`, with its price: `n` reports the link; or it does not and `m` does, and `n`
  -- publishes no topology, or hops without its word are allowed.
  pub data Hop (n m : ℕ) : ℕ → Type 0 where
    listed :
        (e : Edge)
        → In e (edges_of s n)
        → e.to ≡ m
        → Hop n m (edge_price s my_node now_ms m n n e false)
    heard :
        (e : Edge)
        → find_link s n m ≡ none
        → find_link s m n ≡ some e
        → publishes (capability_of routable) n ≡ false
        → Hop n m (edge_price s my_node now_ms m n m e false)
    on_trust :
        (e : Edge)
        → find_link s n m ≡ none
        → find_link s m n ≡ some e
        → publishes (capability_of routable) n ≡ true
        → allow ≡ true
        → Hop n m (edge_price s my_node now_ms m n m e true)

  pub All-Hop :
      (n : ℕ) (es : List Edge)
      → ((e : Edge) → In e es → In e (edges_of s n))
      → All (λ e. Hop n e.to (edge_price s my_node now_ms e.to n n e false)) es
  All-Hop n [] there = tt
  All-Hop n (e ∷ es) there =
      (listed e (there e first) refl, All-Hop n es (λ x i. there x (later i)))

module _ (s : EdgeStore) (my_node destination now_ms : ℕ) (routable : Option RoutableFilter)
    (allow : Bool) (n u_cost : ℕ) (Q : List DNode → Type 0) where
  -- `Q` outlasts the relaxation of a node over a hop.
  unfoldable pub IsKept : Type 0
  IsKept =
      (m price : ℕ) (nodes : List DNode)
      → Hop s my_node now_ms routable allow n m price
      → Q nodes
      → Q (relax nodes m n u_cost price)

  module _ (kept : IsKept) where
    pub relax_links-keeps :
        (es : List Edge) (nodes : List DNode)
        → All
            (λ e.
              Hop s my_node now_ms routable allow n e.to
                (edge_price s my_node now_ms e.to n n e false))
            es
        → Q nodes
        → Q (relax_links s my_node now_ms n u_cost es nodes)
    unfolding relax_links relax_priced IsKept
    relax_links-keeps [] nodes hops ok = ok
    relax_links-keeps (e ∷ rest) nodes hops ok =
        relax_links-keeps rest _ hops.1 (kept e.to _ nodes hops.0 ok)

    by_flags :
        (p u : Bool) (m : ℕ) (e : Edge) (nodes : List DNode)
        → publishes (capability_of routable) n ≡ p
        → allow ≡ u
        → find_link s n m ≡ none
        → find_link s m n ≡ some e
        → Q nodes
        → Q (
            if not p
            then relax nodes m n u_cost (edge_price s my_node now_ms m n m e false)
            else if u
            then relax nodes m n u_cost (edge_price s my_node now_ms m n m e true)
            else nodes)
    unfolding IsKept
    by_flags false u m e nodes silent given unlisted link ok =
        kept m _ nodes (heard e unlisted link silent) ok
    by_flags true true m e nodes publishing given unlisted link ok =
        kept m _ nodes (on_trust e unlisted link publishing given) ok
    by_flags true false m e nodes publishing given unlisted link ok = ok

    pub relax_back-keeps :
        (m : ℕ) (nodes : List DNode)
        → Q nodes
        → Q (
            relax_back s my_node now_ms n u_cost
              (publishes (capability_of routable) n)
              allow
              m
              nodes)
    unfolding relax_back relax_priced
    relax_back-keeps m nodes ok = elim (Bool-cases (m == n || is_some (find_link s n m))) [
      | inl skipped ↦ rw (relax_back, skipped) ok
      | inr other ↦ elim (Option-cases (find_link s m n)) [
        | inl missing ↦ rw (relax_back, other, missing) ok
        | inr (e, found) ↦
            let unlisted : find_link s n m ≡ none = ground arith in
            rw (relax_back, other, found) (by_flags _ allow m e nodes refl refl unlisted found ok)
      ]
    ]

    pub relax_backs-keeps :
        (ms : List NodeEdges) (nodes : List DNode)
        → Q nodes
        → Q (
            relax_backs s my_node now_ms n u_cost
              (publishes (capability_of routable) n)
              allow
              ms
              nodes)
    unfolding relax_backs
    relax_backs-keeps [] nodes ok = ok
    relax_backs-keeps (m ∷ rest) nodes ok =
        relax_backs-keeps rest _ (relax_back-keeps m.node_id nodes ok)

  pub expand-keeps :
      ((m price : ℕ) (nodes : List DNode)
        → (n == destination) || passes routable n ≡ true
        → Hop s my_node now_ms routable allow n m price
        → Q nodes
        → Q (relax nodes m n u_cost price))
      → (nodes : List DNode) → Q nodes
      → Q (expand s my_node destination now_ms routable allow n u_cost nodes)
  unfolding expand IsKept
  expand-keeps kept nodes ok =
      elim (Bool-cases (not (n == destination) && not (passes routable n))) [
        | inl barred ↦ rw (expand, barred) ok
        | inr open_way ↦
            let passed : (n == destination) || passes routable n ≡ true = ground arith in
            let kept_here : IsKept = λ m price nodes. kept m price nodes passed in
            rw (expand, open_way)
              (relax_backs-keeps kept_here s.nodes _ (
                relax_links-keeps kept_here (edges_of s n) nodes
                  (All-Hop s my_node now_ms routable allow n (edges_of s n) (λ e i. i)) ok))
      ]
