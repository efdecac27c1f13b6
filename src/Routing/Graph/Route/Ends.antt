-- ===== src/Routing/Graph/Route/Ends.antt =====
-- The search of `backward_search` (crates/mesh-routing/src/graph/route.rs) ends: each round visits one
-- of at most 32 nodes.
use meshrustic.Base.{
  ℕ, zero, suc, ◌+◌, ◌≤◌, ◌<◌, ◌≡◌, refl, subst, Bool, true, false, Option, none, some, List, [],
  ◌∷◌, ◌++◌, ◌==◌, leb, if◌then◌else◌, length, get_or, set, position, position_sound, is_some,
  count_if, count_if-set, count_if-append, weigh, length-set, length-append, inl, inr, Bool-cases,
  Option-cases, saturating_add16, min, arith,
}
use meshrustic.Routing.Graph.Edge.{max_graph_nodes}
use meshrustic.Routing.Graph.Edge.Store.{EdgeStore}
use meshrustic.Routing.Graph.Route.{RoutableFilter, route_cost_unknown}
use meshrustic.Routing.Graph.Route.Expand.{expand-keeps}
use meshrustic.Routing.Graph.Route.Search.{
  DNode, blank, has_id, find_or_add_node, lowered, lower_at, relax, nearest, visit, expand, search,
  start,
}

abbrev is_visited : DNode → Bool
is_visited n = n.visited

-- At most 32 nodes, of which so many are visited.
pub record HasVisited (visits : ℕ) (nodes : List DNode) : Type 0 where
  pub small : length nodes ≤ max_graph_nodes
  pub visits_are : count_if is_visited nodes ≡ visits

set-HasVisited :
    (v i : ℕ) (n : DNode) (nodes : List DNode)
    → i < length nodes
    → n.visited ≡ (get_or nodes i blank).visited
    → HasVisited v nodes
    → HasVisited v (set nodes i n)
unfolding weigh
set-HasVisited v i n nodes lt same ok = record {
  small = omega (arith, length-set nodes i n, ok.small);
  visits_are = ground (arith, count_if-set is_visited nodes i n blank lt, ok.visits_are);
}

lowered-visited : (n : DNode) (via c : ℕ) → (lowered n via c).visited ≡ n.visited
unfolding lowered
lowered-visited n via c = ground arith

pub relax-HasVisited :
    (v m via cost edge_cost : ℕ) (nodes : List DNode)
    → HasVisited v nodes
    → HasVisited v (relax nodes m via cost edge_cost)
unfolding relax find_or_add_node lower_at
relax-HasVisited v m via cost edge_cost nodes ok =
    let c = min (saturating_add16 cost edge_cost) 0xfffe in
    elim (Option-cases (position (has_id m) nodes)) [
      | inr (i, found) ↦
          let lt = (position_sound (has_id m) nodes blank found).0 in
          rw (relax, find_or_add_node, found, lower_at)
            (set-HasVisited v i _ nodes lt (lowered-visited (get_or nodes i blank) via c) ok)
      | inl missing ↦ elim (Bool-cases (leb max_graph_nodes (length nodes))) [
        | inl full ↦ rw (relax, find_or_add_node, missing, full, lower_at) ok
        | inr room ↦
            let more = nodes ++ (record blank { id = m } ∷ []) in
            let longer = length-append nodes (record blank { id = m } ∷ []) in
            let added : HasVisited v more = record {
              small = ground (arith, longer);
              visits_are = ground (
                arith,
                count_if-append is_visited nodes (record blank { id = m } ∷ []),
                ok.visits_are,
              );
            } in
            rw (relax, find_or_add_node, missing, room, lower_at)
              (set-HasVisited v (length nodes) _ more (omega (arith, longer))
                (lowered-visited (get_or more (length nodes) blank) via c) added)
      ]
    ]

-- What `nearest` answers is as `P` says.
abbrev pub Chosen : (ℕ → ℕ → Type 0) → Option ℕ × ℕ → Type 0
Chosen P (none, c) = Unit {0}
Chosen P (some i, c) = P i c

nearer-Chosen :
    (P : ℕ → ℕ → Type 0) (b : Bool) (i cost : ℕ) (u_idx : Option ℕ) (u_cost : ℕ)
    → (b ≡ true → P i cost)
    → Chosen P (u_idx, u_cost)
    → Chosen P (if b then some i else u_idx, if b then cost else u_cost)
nearer-Chosen P true i cost u_idx u_cost here before = here refl
nearer-Chosen P false i cost u_idx u_cost here before = before

nearest-Chosen :
    (P : ℕ → ℕ → Type 0) (nodes : List DNode) (i : ℕ) (u_idx : Option ℕ) (u_cost : ℕ)
    → u_cost ≤ route_cost_unknown
    → ((k j : ℕ)
        → j ≡ i + k
        → k < length nodes
        → (get_or nodes k blank).visited ≡ false
        → (get_or nodes k blank).cost < route_cost_unknown
        → P j (get_or nodes k blank).cost)
    → Chosen P (u_idx, u_cost)
    → Chosen P (nearest nodes i u_idx u_cost)
unfolding nearest
nearest-Chosen P [] i u_idx u_cost le each before = before
nearest-Chosen P (n ∷ rest) i u_idx u_cost le each before =
    nearest-Chosen P rest (suc i) _ _ (ground arith)
      (λ k j e lt idle cheap. each (suc k) j (omega arith) (omega arith) idle cheap)
      (nearer-Chosen P _ i n.cost u_idx u_cost
        (λ b. each 0 i (omega arith) (omega arith) (ground arith) (ground arith)) before)

-- The node to visit next.
pub record IsNext (nodes : List DNode) (i cost : ℕ) : Type 0 where
  pub inside : i < length nodes
  pub unvisited : (get_or nodes i blank).visited ≡ false
  pub cheap : cost < route_cost_unknown
  pub priced : cost ≡ (get_or nodes i blank).cost

pub nearest-IsNext :
    (nodes : List DNode) → Chosen (IsNext nodes) (nearest nodes 0 none route_cost_unknown)
nearest-IsNext nodes =
    nearest-Chosen (IsNext nodes) nodes 0 none route_cost_unknown (omega arith)
      (λ k j e lt idle cheap.
        let here : k ≡ j = omega arith in
        subst (λ i. IsNext nodes i (get_or nodes k blank).cost) here
          (record { inside = lt; unvisited = idle; cheap = cheap; priced = refl }))
      tt

expand-HasVisited :
    (s : EdgeStore) (my_node destination now_ms : ℕ) (routable : Option RoutableFilter)
    (allow : Bool) (v n u_cost : ℕ) (nodes : List DNode)
    → HasVisited v nodes
    → HasVisited v (expand s my_node destination now_ms routable allow n u_cost nodes)
expand-HasVisited s my_node destination now_ms routable allow v n u_cost nodes =
    expand-keeps s my_node destination now_ms routable allow n u_cost (HasVisited v)
      (λ m edge_cost nodes passed hop. relax-HasVisited v m n u_cost edge_cost nodes) nodes

visit-HasVisited :
    (v i : ℕ) (nodes : List DNode)
    → i < length nodes
    → (get_or nodes i blank).visited ≡ false
    → HasVisited v nodes
    → HasVisited (v + 1) (visit nodes i)
unfolding weigh
visit-HasVisited v i nodes lt idle ok =
    let n : DNode = record (get_or nodes i blank) { visited = true } in
    record {
      small = omega (arith, length-set nodes i n, ok.small);
      visits_are = ground (arith, count_if-set is_visited nodes i n blank lt, ok.visits_are);
    }

count_if_le : (nodes : List DNode) → count_if is_visited nodes ≤ length nodes
count_if_le [] = omega arith
count_if_le (n ∷ nodes) = ground (arith, count_if_le nodes)

module _ (s : EdgeStore) (my_node destination now_ms : ℕ) (routable : Option RoutableFilter)
    (allow : Bool) where
  search-ends :
      (fuel v : ℕ) (nodes : List DNode)
      → HasVisited v nodes
      → max_graph_nodes < fuel + v
      → is_some (search s my_node destination now_ms routable allow fuel nodes) ≡ true
  unfolding search
  search-ends zero v nodes ok enough =
      absurd (omega (arith, count_if_le nodes, ok.small, ok.visits_are))
  search-ends (suc fuel) v nodes ok enough =
      go
        (λ i c lt idle.
          search-ends fuel (v + 1) _
            (expand-HasVisited s my_node destination now_ms routable allow (v + 1) _ c _
              (visit-HasVisited v i nodes lt idle ok))
            (omega arith))
        (nearest nodes 0 none route_cost_unknown) (nearest-IsNext nodes)
    where
      go :
          ((i c : ℕ)
            → i < length nodes
            → (get_or nodes i blank).visited ≡ false
            → is_some (
                search s my_node destination now_ms routable allow fuel (
                  expand s my_node destination now_ms routable allow
                    (get_or nodes i blank).id
                    c
                    (visit nodes i)))
              ≡ true)
          → (r : Option ℕ × ℕ) → Chosen (IsNext nodes) r
          → is_some (elim r.0 [
            | none ↦ some nodes
            | some i ↦
                if (get_or nodes i blank).id == my_node
                then some (visit nodes i)
                else search s my_node destination now_ms routable allow fuel (
                    expand s my_node destination now_ms routable allow
                      (get_or nodes i blank).id
                      r.1
                      (visit nodes i))
          ])
            ≡ true
      go rest (none, c) chosen = refl
      go rest (some i, c) chosen = elim (Bool-cases ((get_or nodes i blank).id == my_node)) [
        | inl ours ↦ rw (ours) refl
        | inr other ↦ rw (other) (rest i c chosen.inside chosen.unvisited)
      ]

  -- The search always ends before its rounds run out, whatever the graph, the capabilities and the
  -- clock.
  pub search-start :
      is_some (search s my_node destination now_ms routable allow 33 (start destination)) ≡ true
  search-start =
      search-ends 33 0 _ (record { small = omega arith; visits_are = refl }) (omega arith)
