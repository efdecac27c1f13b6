-- ===== src/Routing/Graph/Route/Table.antt =====
-- The table of nodes of `backward_search` (crates/mesh-routing/src/graph/route.rs), and what a relaxation
-- makes of it where there is room.
use meshrustic.Base.{
  ℕ, zero, suc, ◌≤◌, ◌<◌, ◌≡◌, refl, ap, Bool, true, false, none, some, List, [], ◌∷◌, ◌++◌, leb,
  length, get_or, set, position, inl, inr, Option-cases, arith,
}
use meshrustic.Routing.Graph.Edge.{max_graph_nodes}
use meshrustic.Routing.Graph.Route.{route_cost_unknown}
use meshrustic.Routing.Graph.Route.Search.{
  DNode, blank, has_id, find_or_add_node, lowered, lower_at, add_cost, relax,
}

module _ {ℓ} {A : Type ℓ} (p : A → Bool) where
  pub position-set_same :
      (xs : List A) (i : ℕ) (v d : A)
      → p v ≡ p (get_or xs i d)
      → position p (set xs i v) ≡ position p xs
  position-set_same [] i v d same = refl
  position-set_same (x ∷ xs) zero v d same = ground arith
  position-set_same (x ∷ xs) (suc i) v d same =
      let rest = position-set_same xs i v d same in rw (rest) refl

  pub position-append :
      (xs ys : List A) (i : ℕ) → position p xs ≡ some i → position p (xs ++ ys) ≡ some i
  position-append [] ys i found = absurd (cc)
  position-append (x ∷ xs) ys i found = elim (Option-cases (position p xs)) [
    | inl miss ↦ ground arith
    | inr (j, hit) ↦ ground (arith, position-append xs ys j hit)
  ]

  pub position-append_new :
      (xs : List A) (v : A)
      → position p xs ≡ none
      → p v ≡ true
      → position p (xs ++ (v ∷ [])) ≡ some (length xs)
  position-append_new [] v missing hit = ground arith
  position-append_new (x ∷ xs) v missing hit = ground (arith, position-append_new xs v)

module _ {ℓ} {A : Type ℓ} where
  pub get_or-append :
      (xs ys : List A) (k : ℕ) (d : A) → k < length xs → get_or (xs ++ ys) k d ≡ get_or xs k d
  get_or-append [] ys k d lt = absurd (omega arith)
  get_or-append (x ∷ xs) ys zero d lt = refl
  get_or-append (x ∷ xs) ys (suc k) d lt = get_or-append xs ys k d (omega arith)

  pub get_or-append_end :
      (xs : List A) (v : A) (k : ℕ) (d : A) → k ≡ length xs → get_or (xs ++ (v ∷ [])) k d ≡ v
  get_or-append_end [] v zero d e = refl
  get_or-append_end [] v (suc k) d e = absurd (omega arith)
  get_or-append_end (x ∷ xs) v zero d e = absurd (omega arith)
  get_or-append_end (x ∷ xs) v (suc k) d e = get_or-append_end xs v k d (omega arith)

abbrev pub at : List DNode → ℕ → DNode
at nodes k = get_or nodes k blank

-- The node of the id has at most that cost.
pub record Reaches (nodes : List DNode) (m cost : ℕ) : Type 0 where
  pub index : ℕ
  pub found : position (has_id m) nodes ≡ some index
  pub cheap : (at nodes index).cost ≤ cost

-- What a relaxation of `m` at the cost `c` makes of the nodes.
pub data Relaxed (nodes : List DNode) (m via c : ℕ) : List DNode → Type 0 where
  known :
      (i : ℕ)
      → position (has_id m) nodes ≡ some i
      → Relaxed nodes m via c (set nodes i (lowered (at nodes i) via c))
  added :
      position (has_id m) nodes ≡ none
      → Relaxed nodes m via c
          (nodes ++ (record { id = m; cost = c; prev = via; visited = false } ∷ []))

set-append_end :
    (xs : List DNode) (v w : DNode) → set (xs ++ (v ∷ [])) (length xs) w ≡ xs ++ (w ∷ [])
set-append_end [] v w = refl
set-append_end (x ∷ xs) v w = ap (◌∷◌ x) (set-append_end xs v w)

lowered-new :
    (m via c : ℕ)
    → c < route_cost_unknown
    → lowered (record blank { id = m }) via c
      ≡ record { id = m; cost = c; prev = via; visited = false }
unfolding lowered
lowered-new m via c low = ground arith

pub relax-Relaxed :
    (nodes : List DNode) (m via cost price : ℕ)
    → (position (has_id m) nodes ≡ none → length nodes < max_graph_nodes)
    → Relaxed nodes m via (add_cost cost price) (relax nodes m via cost price)
unfolding relax find_or_add_node lower_at
relax-Relaxed nodes m via cost price room = elim (Option-cases (position (has_id m) nodes)) [
  | inr (i, found) ↦ rw (relax, find_or_add_node, found, lower_at) (known i found)
  | inl missing ↦
      let c = add_cost cost price in
      let new : DNode = record blank { id = m } in
      let space : leb max_graph_nodes (length nodes) ≡ false = ground (arith, room missing) in
      let last = get_or-append_end nodes new (length nodes) blank refl in
      let end = set-append_end nodes new (lowered new via c) in
      let fresh = lowered-new m via c (omega arith) in
      rw (relax, find_or_add_node, missing, space, lower_at, last, end, fresh) (added missing)
]
