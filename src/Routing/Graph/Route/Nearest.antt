-- ===== src/Routing/Graph/Route/Nearest.antt =====
-- The loop of `backward_search` (crates/mesh-routing/src/graph/route.rs) that looks for the node to visit
-- next finds one of the least cost.
use meshrustic.Base.{
  ℕ, zero, suc, ◌≤◌, ◌<◌, ◌≡◌, refl, false, not, ◌&&◌, Option, none, some, List, [], ◌∷◌, ltb,
  if◌then◌else◌, length, inl, inr, Bool-cases, arith,
}
use meshrustic.Routing.Graph.Route.Search.{DNode, nearest}
use meshrustic.Routing.Graph.Route.Table.{at}

nearest_le :
    (nodes : List DNode) (i : ℕ) (u_idx : Option ℕ) (u_cost : ℕ)
    → (nearest nodes i u_idx u_cost).1 ≤ u_cost
unfolding nearest
nearest_le [] i u_idx u_cost = omega arith
nearest_le (n ∷ rest) i u_idx u_cost =
    let nearer = not n.visited && ltb n.cost u_cost in
    let le =
      nearest_le rest (suc i) (if nearer then some i else u_idx)
        (if nearer then n.cost else u_cost) in
    ground (arith, le)

pub nearest_least :
    (nodes : List DNode) (i : ℕ) (u_idx : Option ℕ) (u_cost k : ℕ)
    → k < length nodes
    → (at nodes k).visited ≡ false
    → (nearest nodes i u_idx u_cost).1 ≤ (at nodes k).cost
unfolding nearest
nearest_least [] i u_idx u_cost k lt idle = absurd (omega arith)
nearest_least (n ∷ rest) i u_idx u_cost zero lt idle =
    let nearer = not n.visited && ltb n.cost u_cost in
    let le =
      nearest_le rest (suc i) (if nearer then some i else u_idx)
        (if nearer then n.cost else u_cost) in
    ground (arith, le)
nearest_least (n ∷ rest) i u_idx u_cost (suc k) lt idle =
    nearest_least rest (suc i) _ _ k (omega arith) idle

pub nearest-none :
    (nodes : List DNode) (i : ℕ) (u_idx : Option ℕ) (u_cost : ℕ)
    → (nearest nodes i u_idx u_cost).0 ≡ none
    → (u_idx ≡ none) × ((nearest nodes i u_idx u_cost).1 ≡ u_cost)
unfolding nearest
nearest-none [] i u_idx u_cost e = (e, refl)
nearest-none (n ∷ rest) i u_idx u_cost e =
    let nearer = not n.visited && ltb n.cost u_cost in
    let (idx, cost) =
      nearest-none rest (suc i) (if nearer then some i else u_idx)
        (if nearer then n.cost else u_cost) e in
    elim (Bool-cases nearer) [
      | inl better ↦ absurd (ground (arith, idx, better))
      | inr worse ↦ (ground (arith, idx, worse), ground (arith, cost, worse))
    ]
