-- ===== src/Routing/Graph/Route/Rule.antt =====
-- What the rounds of `backward_search` (crates/mesh-routing/src/graph/route.rs) keep, holds when they end.
use meshrustic.Base.{
  ℕ, zero, suc, ◌≡◌, refl, ap, Bool, false, Option, none, some, List, ◌==◌, if◌then◌else◌, get_or,
  inl, inr, Bool-cases, arith,
}
use meshrustic.Routing.Graph.Edge.Store.{EdgeStore}
use meshrustic.Routing.Graph.Route.{RoutableFilter, route_cost_unknown}
use meshrustic.Routing.Graph.Route.Search.{DNode, blank, nearest, visit, expand, search}
use meshrustic.Routing.Graph.Route.Ends.{Chosen, IsNext, nearest-IsNext}

-- What holds at the end of a search that has ended.
abbrev pub AtEnd : (List DNode → Type 0) → Option (List DNode) → Type 0
AtEnd P none = Unit {0}
AtEnd P (some nodes) = P nodes

module _ (s : EdgeStore) (my_node destination now_ms : ℕ) (routable : Option RoutableFilter)
    (allow : Bool) where
  module _ (Q P : List DNode → Type 0)
      (stop : (nodes : List DNode)
        → (nearest nodes 0 none route_cost_unknown).0 ≡ none
        → Q nodes
        → P nodes)
      (ours : (nodes : List DNode) (i c : ℕ)
        → nearest nodes 0 none route_cost_unknown ≡ (some i, c)
        → IsNext nodes i c
        → (get_or nodes i blank).id ≡ my_node
        → Q nodes
        → P (visit nodes i))
      (round : (nodes : List DNode) (i c : ℕ)
        → nearest nodes 0 none route_cost_unknown ≡ (some i, c)
        → IsNext nodes i c
        → ((get_or nodes i blank).id == my_node) ≡ false
        → Q nodes
        → Q (
            expand s my_node destination now_ms routable allow
              (get_or nodes i blank).id
              c
              (visit nodes i))) where
    pub search-AtEnd :
        (fuel : ℕ) (nodes : List DNode)
        → Q nodes
        → AtEnd P (search s my_node destination now_ms routable allow fuel nodes)
    unfolding search
    search-AtEnd zero nodes ok = tt
    search-AtEnd (suc fuel) nodes ok =
        go (λ next. search-AtEnd fuel next) (nearest nodes 0 none route_cost_unknown) refl
          (nearest-IsNext nodes)
      where
        go :
            ((next : List DNode)
              → Q next
              → AtEnd P (search s my_node destination now_ms routable allow fuel next))
            → (r : Option ℕ × ℕ) → nearest nodes 0 none route_cost_unknown ≡ r
            → Chosen (IsNext nodes) r
            → AtEnd P (elim r.0 [
              | none ↦ some nodes
              | some i ↦
                  if (get_or nodes i blank).id == my_node
                  then some (visit nodes i)
                  else search s my_node destination now_ms routable allow fuel (
                      expand s my_node destination now_ms routable allow
                        (get_or nodes i blank).id
                        r.1
                        (visit nodes i))
            ])
        go rest (none, c) e chosen = stop nodes (ap (λ (r : Option ℕ × ℕ). r.0) e) ok
        go rest (some i, c) e chosen = elim (Bool-cases ((get_or nodes i blank).id == my_node)) [
          | inl here ↦ rw (here) (ours nodes i c e chosen (ground arith) ok)
          | inr other ↦ rw (other) (rest _ (round nodes i c e chosen other ok))
        ]
