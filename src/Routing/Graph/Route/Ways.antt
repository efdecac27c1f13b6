-- ===== src/Routing/Graph/Route/Ways.antt =====
-- The ways that `backward_search` (crates/mesh-routing/src/graph/route.rs) finds.
use meshrustic.Base.{
  ℕ, ◌≡◌, ◌⊎◌, refl, sym, subst, Bool, true, false, ◌||◌, Option, none, some, List, [], ◌∷◌, ◌++◌,
  ◌==◌, leb, ltb, if◌then◌else◌, length, get_or, find?, position, position_sound, All, All-set,
  All-append, All-get, find?-All, inl, inr, Bool-cases, Option-cases, arith,
}
use meshrustic.Routing.Graph.Edge.{max_graph_nodes}
use meshrustic.Routing.Graph.Edge.Store.{EdgeStore}
use meshrustic.Routing.Graph.Route.{RoutableFilter, route_cost_unknown}
use meshrustic.Routing.Graph.Route.Expand.{Hop, expand-keeps}
use meshrustic.Routing.Graph.Route.Search.{
  DNode, blank, has_id, find_or_add_node, lowered, lower_at, add_cost, relax, visit, passes, expand,
  search, start, way_back, backward_search,
}
use meshrustic.Routing.Graph.Route.Ends.{IsNext}
use meshrustic.Routing.Graph.Route.Rule.{AtEnd, search-AtEnd}

get_or-append_last :
    (nodes : List DNode) (n d : DNode) → get_or (nodes ++ (n ∷ [])) (length nodes) d ≡ n
get_or-append_last [] n d = refl
get_or-append_last (x ∷ nodes) n d = get_or-append_last nodes n d

module _ (s : EdgeStore) (destination : ℕ) (routable : Option RoutableFilter) (allow : Bool)
    (my_node now_ms : ℕ) where
  -- A way from a node to the destination, with its cost: over hops for which there is evidence, and only
  -- through nodes that may carry packets on.
  pub data Way : ℕ → ℕ → Type 0 where
    arrived : Way destination 0
    hop :
        (m n cost price : ℕ)
        → Way n cost
        → (n == destination) || passes routable n ≡ true
        → Hop s my_node now_ms routable allow n m price
        → Way m (add_cost cost price)

  -- A way of the node `m` that begins with a hop to `next`, with its cost.
  pub record FirstHop (next m cost : ℕ) : Type 0 where
    pub rest : ℕ
    pub price : ℕ
    pub way : Way next rest
    pub passed : (next == destination) || passes routable next ≡ true
    pub over : Hop s my_node now_ms routable allow next m price
    pub sum : cost ≡ add_cost rest price

  pub record IsSound (n : DNode) : Type 0 where
    pub reached : (n.cost ≡ route_cost_unknown) ⊎ Way n.id n.cost
    pub before : (n.prev ≡ 0) ⊎ FirstHop n.prev n.id n.cost
    pub origin :
        (n.cost ≡ route_cost_unknown) ⊎ ((n.id ≡ destination) ⊎ FirstHop n.prev n.id n.cost)

  visited-IsSound : (n : DNode) → IsSound n → IsSound (record n { visited = true })
  visited-IsSound n ok = record { reached = ok.reached; before = ok.before; origin = ok.origin }

  lowered-IsSound :
      (n : DNode) (via c : ℕ) → FirstHop via n.id c → IsSound n → IsSound (lowered n via c)
  unfolding lowered
  lowered-IsSound n via c first ok = by_tests n.visited (ltb c n.cost)
    where
      by_tests :
          (seen cheaper : Bool)
          → IsSound (if seen then n else if cheaper then record n { cost = c; prev = via } else n)
      by_tests true cheaper = ok
      by_tests false true = record {
        reached = inr (
            subst (Way n.id) (sym first.sum)
              (hop n.id via first.rest first.price first.way first.passed first.over));
        before = inr first;
        origin = inr (inr first);
      }
      by_tests false false = ok

  relax-IsSound :
      (n u_cost m edge_cost : ℕ) (nodes : List DNode)
      → FirstHop n m (add_cost u_cost edge_cost)
      → All IsSound nodes
      → All IsSound (relax nodes m n u_cost edge_cost)
  unfolding relax find_or_add_node lower_at
  relax-IsSound n u_cost m edge_cost nodes first ok =
      let c = add_cost u_cost edge_cost in
      elim (Option-cases (position (has_id m) nodes)) [
        | inr (i, found) ↦
            let old = get_or nodes i blank in
            let named : old.id ≡ m =
              ground (arith, (position_sound (has_id m) nodes blank found).1) in
            let sound : IsSound old =
              All-get IsSound nodes i blank ok
                (record { reached = inl refl; before = inl refl; origin = inl refl }) in
            rw (relax, find_or_add_node, found, lower_at)
              (All-set IsSound nodes i _ ok
                (lowered-IsSound old n c (subst (λ x. FirstHop n x c) (sym named) first) sound))
        | inl missing ↦ elim (Bool-cases (leb max_graph_nodes (length nodes))) [
          | inl full ↦ rw (relax, find_or_add_node, missing, full, lower_at) ok
          | inr room ↦
              let new : DNode = record blank { id = m } in
              let new_sound : IsSound new = record {
                reached = inl refl;
                before = inl refl;
                origin = inl refl;
              } in
              let more = nodes ++ (new ∷ []) in
              let added = All-append IsSound nodes (new ∷ []) ok (new_sound, tt) in
              let last = get_or-append_last nodes new blank in
              rw (relax, find_or_add_node, missing, room, lower_at)
                (All-set IsSound more (length nodes) _ added (
                  subst (λ x. IsSound (lowered x n c)) (sym last)
                    (lowered-IsSound new n c first new_sound)))
        ]
      ]

  blank-IsSound : IsSound blank
  blank-IsSound = record { reached = inl refl; before = inl refl; origin = inl refl }

  expand-IsSound :
      (n u_cost : ℕ) (nodes : List DNode)
      → Way n u_cost
      → All IsSound nodes
      → All IsSound (expand s my_node destination now_ms routable allow n u_cost nodes)
  expand-IsSound n u_cost nodes way =
      expand-keeps s my_node destination now_ms routable allow n u_cost (All IsSound)
        (λ m price nodes passed over. relax-IsSound n u_cost m price nodes (record {
          rest = u_cost;
          price = price;
          way = way;
          passed = passed;
          over = over;
          sum = refl;
        }))
        nodes

  visit-IsSound : (nodes : List DNode) (i : ℕ) → All IsSound nodes → All IsSound (visit nodes i)
  visit-IsSound nodes i ok =
      All-set IsSound nodes i _ ok
        (visited-IsSound (get_or nodes i blank) (All-get IsSound nodes i blank ok blank-IsSound))

  next-Way :
      (nodes : List DNode) (i c : ℕ)
      → All IsSound nodes
      → IsNext nodes i c
      → Way (get_or nodes i blank).id c
  next-Way nodes i c ok chosen =
      let sound : IsSound (get_or nodes i blank) = All-get IsSound nodes i blank ok blank-IsSound in
      elim sound.reached [
        | inl unknown_cost ↦ absurd (omega (arith, chosen.cheap, chosen.priced, unknown_cost))
        | inr way ↦ subst (Way (get_or nodes i blank).id) (sym chosen.priced) way
      ]

  search-IsSound :
      (fuel : ℕ) (nodes : List DNode)
      → All IsSound nodes
      → AtEnd (All IsSound) (search s my_node destination now_ms routable allow fuel nodes)
  search-IsSound =
      search-AtEnd s my_node destination now_ms routable allow (All IsSound) (All IsSound)
        (λ nodes e ok. ok) (λ nodes i c e chosen here ok. visit-IsSound nodes i ok)
        (λ nodes i c e chosen other ok.
          expand-IsSound _ c _ (next-Way nodes i c ok chosen) (visit-IsSound nodes i ok))

  -- What `backward_search` answers.
  abbrev pub IsAnswer : Option (ℕ × ℕ × ℕ) → Type 0
  IsAnswer none = Unit {0}
  IsAnswer (some (cost, next, hops)) = FirstHop next my_node cost

  way_back-IsAnswer :
      (nodes : List DNode)
      → All IsSound nodes
      → IsAnswer (way_back s my_node destination now_ms routable allow nodes)
  unfolding way_back
  way_back-IsAnswer nodes ok = elim (Option-cases (find? (has_id my_node) nodes)) [
    | inl missing ↦ rw (way_back, missing) tt
    | inr (me, found) ↦
        let both = find?-All IsSound (has_id my_node) nodes me found ok in
        let named : me.id ≡ my_node = ground (arith, both.1) in
        elim (Bool-cases (me.cost == route_cost_unknown || me.prev == 0)) [
          | inl lost ↦ rw (way_back, found, lost) tt
          | inr there ↦ elim both.0.before [
            | inl none_before ↦ absurd (ground (arith, none_before))
            | inr first ↦
                rw (way_back, found, there) (subst (λ x. FirstHop me.prev x me.cost) named first)
          ]
        ]
  ]

  after_search-IsAnswer :
      (o : Option (List DNode))
      → AtEnd (All IsSound) o
      → IsAnswer (elim o [
        | none ↦ none
        | some nodes ↦ way_back s my_node destination now_ms routable allow nodes
      ])
  after_search-IsAnswer none ok = tt
  after_search-IsAnswer (some nodes) ok = way_back-IsAnswer nodes ok

  start-IsSound : All IsSound (start destination)
  start-IsSound = (record { reached = inr arrived; before = inl refl; origin = inr (inl refl) }, tt)

  pub search-IsSound_start :
      (fuel : ℕ)
      → AtEnd
          (All IsSound)
          (search s my_node destination now_ms routable allow fuel (start destination))
  search-IsSound_start fuel = search-IsSound fuel (start destination) start-IsSound

  pub backward_search-IsAnswer :
      IsAnswer (backward_search s my_node destination now_ms routable allow)
  unfolding backward_search
  backward_search-IsAnswer = after_search-IsAnswer _ (search-IsSound_start 33)

  -- If the search answers, its next hop is one for which there is evidence, and that is the
  -- destination or a node that may carry packets on, from which a way leads to the destination: over
  -- hops for which there is evidence, through nodes that may carry packets on. The cost of the answer
  -- is that of this way, the sum of the prices of its hops, which stops at 0xFFFE.
  pub backward_search_lem :
      (cost next hops : ℕ)
      → backward_search s my_node destination now_ms routable allow ≡ some (cost, next, hops)
      → FirstHop next my_node cost
  backward_search_lem cost next hops found = subst IsAnswer found backward_search-IsAnswer
