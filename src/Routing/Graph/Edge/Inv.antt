-- ===== src/Routing/Graph/Edge/Inv.antt =====
-- What a graph of nodes and links is made of (crates/mesh-routing/src/graph/edge.rs).
use meshrustic.Base.{
  count_if-append, ℕ, suc, ◌≤◌, ◌<◌, ◌≡◌, ◌≢◌, refl, sym, ap, ◌∙◌, subst, Bool, true, ◌||◌, some,
  List, [], ◌∷◌, ◌++◌, map, ◌==◌, ltb, length, length-append, length-swap_remove, get_or,
  position_sound, position-le, count_if, count_if-swap_remove, retain, keep_if, retain-keep_if,
  swap_remove, find?, find?-All, All-update_first_found, ==_iff, update_first, length-update_first,
  All, All-append, All-map, All-update_first, All-swap_remove, count_if-map_same,
  count_if-update_first_same, count_if-keep_if, two_hits, inl, inr, Bool-cases, arith,
}
use meshrustic.Routing.Graph.Edge.{Edge, NodeEdges, leads_to_node}
use meshrustic.Routing.Graph.Edge.Store.{EdgeStore, has_id}
use meshrustic.Routing.Graph.Edge.Remove.{blank_node, blank_edge}
use meshrustic.Routing.Graph.Edge.Neighbours.{IsDistinct, idx_of-ids}

-- A link to node 0, or whose price is not between 100 and 65535.
abbrev pub is_bad_link : Edge → Bool
is_bad_link e = e.to == 0 || (ltb e.etx_fixed 100 || ltb 65_535 e.etx_fixed)

-- At most 40 links, one to a node at most, none to the node itself.
pub record IsLinks (node_id : ℕ) (edges : List Edge) : Type 0 where
  pub few : length edges ≤ 40
  pub single : (to : ℕ) → count_if (leads_to_node to) edges ≤ 1
  pub outward : count_if (leads_to_node node_id) edges ≡ 0
  pub sound : count_if is_bad_link edges ≡ 0

unfoldable pub IsNode : NodeEdges → Type 0
IsNode n = IsLinks n.node_id n.edges

pub record IsNodes (nodes : List NodeEdges) : Type 0 where
  pub small : length nodes ≤ 32
  pub distinct : (node_id : ℕ) → count_if (has_id node_id) nodes ≤ 1
  pub named : count_if (has_id 0) nodes ≡ 0
  pub links : All IsNode nodes

unfoldable pub IsStore : EdgeStore → Type 0
IsStore s = IsNodes s.nodes

pub empty-IsLinks : (node_id : ℕ) → IsLinks node_id []
empty-IsLinks node_id = record {
  few = omega arith;
  single = λ to. omega arith;
  outward = refl;
  sound = refl;
}

pub empty-IsNodes : IsNodes []
empty-IsNodes = record {
  small = omega arith;
  distinct = λ node_id. omega arith;
  named = refl;
  links = tt;
}

length-keep_if {ℓ} :
    {A : Type ℓ} (keep : A → Bool) (xs : List A) → length (keep_if keep xs) ≤ length xs
unfolding keep_if
length-keep_if keep [] = omega arith
length-keep_if keep (x ∷ xs) = elim (Bool-cases (keep x)) [
  | inl stays ↦ rw (stays) omega (arith, length-keep_if keep xs)
  | inr goes ↦ rw (goes) omega (arith, length-keep_if keep xs)
]

pub retain-IsLinks :
    (keep : Edge → Bool) (node_id : ℕ) (edges : List Edge)
    → IsLinks node_id edges
    → IsLinks node_id (retain blank_edge keep edges)
retain-IsLinks keep node_id edges ok =
    subst (IsLinks node_id) (sym (retain-keep_if blank_edge keep edges)) (record {
      few = omega (arith, length-keep_if keep edges, ok.few);
      single = λ to. omega (arith, count_if-keep_if (leads_to_node to) keep edges, ok.single to);
      outward = omega (arith, count_if-keep_if (leads_to_node node_id) keep edges, ok.outward);
      sound = omega (arith, count_if-keep_if is_bad_link keep edges, ok.sound);
    })

-- A change of the nodes in place that keeps their ids and their links in order.
pub update_first-IsNodes :
    (node_id : ℕ) (change : NodeEdges → NodeEdges) (nodes : List NodeEdges)
    → ((n : NodeEdges) → (change n).node_id ≡ n.node_id)
    → ((n : NodeEdges) → IsNode n → IsNode (change n))
    → IsNodes nodes
    → IsNodes (update_first (has_id node_id) change nodes)
update_first-IsNodes node_id change nodes same keep ok = record {
  small = omega (arith, length-update_first (has_id node_id) change nodes, ok.small);
  distinct = λ v. omega (
    arith,
    count_if-update_first_same (has_id v) (has_id node_id) change nodes
        (λ n. ap (λ i. i == v) (same n)),
    ok.distinct v,
  );
  named = omega (
    arith,
    count_if-update_first_same (has_id 0) (has_id node_id) change nodes
        (λ n. ap (λ i. i == 0) (same n)),
    ok.named,
  );
  links = All-update_first IsNode (has_id node_id) change nodes keep ok.links;
}

-- A change of the one node that is found, at its links.
pub update_found-IsNodes :
    (node_id : ℕ) (change : NodeEdges → NodeEdges) (nodes : List NodeEdges) (n : NodeEdges)
    → find? (has_id node_id) nodes ≡ some n
    → ((m : NodeEdges) → (change m).node_id ≡ m.node_id)
    → (IsNode n → n.node_id ≡ node_id → IsNode (change n))
    → IsNodes nodes
    → IsNodes (update_first (has_id node_id) change nodes)
update_found-IsNodes node_id change nodes n found same keep ok =
    let (fine, hit) = find?-All IsNode (has_id node_id) nodes n found ok.links in
    let named = (==_iff n.node_id node_id).0 hit in
    record {
      small = omega (arith, length-update_first (has_id node_id) change nodes, ok.small);
      distinct = λ v. omega (
        arith,
        count_if-update_first_same (has_id v) (has_id node_id) change nodes
            (λ m. ap (λ i. i == v) (same m)),
        ok.distinct v,
      );
      named = omega (
        arith,
        count_if-update_first_same (has_id 0) (has_id node_id) change nodes
            (λ m. ap (λ i. i == 0) (same m)),
        ok.named,
      );
      links =
          All-update_first_found IsNode (has_id node_id) change nodes n found (keep fine named)
            ok.links;
    }

length-map :
    (f : NodeEdges → NodeEdges) (nodes : List NodeEdges) → length (map f nodes) ≡ length nodes
length-map f [] = refl
length-map f (n ∷ nodes) = ap suc (length-map f nodes)

pub map-IsNodes :
    (change : NodeEdges → NodeEdges) (nodes : List NodeEdges)
    → ((n : NodeEdges) → (change n).node_id ≡ n.node_id)
    → ((n : NodeEdges) → IsNode n → IsNode (change n))
    → IsNodes nodes
    → IsNodes (map change nodes)
map-IsNodes change nodes same keep ok = record {
  small = omega (arith, length-map change nodes, ok.small);
  distinct = λ v. omega (
    arith,
    count_if-map_same (has_id v) change nodes (λ n. ap (λ i. i == v) (same n)),
    ok.distinct v,
  );
  named =
      omega (
        arith,
        count_if-map_same (has_id 0) change nodes (λ n. ap (λ i. i == 0) (same n)),
        ok.named,
      );
  links = All-map IsNode change nodes keep ok.links;
}

pub swap_remove-IsNodes :
    (i : ℕ) (nodes : List NodeEdges)
    → i < length nodes
    → IsNodes nodes
    → IsNodes (swap_remove blank_node i nodes)
unfolding IsNode
swap_remove-IsNodes i nodes lt ok = record {
  small = omega (arith, length-swap_remove blank_node i nodes, ok.small);
  distinct =
      λ v. omega (arith, count_if-swap_remove (has_id v) blank_node i nodes lt, ok.distinct v);
  named = omega (arith, count_if-swap_remove (has_id 0) blank_node i nodes lt, ok.named);
  links = All-swap_remove IsNode blank_node i nodes ok.links (empty-IsLinks 0);
}

pub append-IsNodes :
    (nodes : List NodeEdges) (n : NodeEdges)
    → IsNodes nodes
    → length nodes < 32
    → n.node_id ≢ 0
    → count_if (has_id n.node_id) nodes ≡ 0
    → IsNode n
    → IsNodes (nodes ++ (n ∷ []))
append-IsNodes nodes n ok room is_named absent fine = record {
  small = omega (arith, length-append nodes (n ∷ []));
  distinct = λ v.
      let both = count_if-append (has_id v) nodes (n ∷ []) in
      elim (Bool-cases (n.node_id == v)) [
        | inl same ↦
            let here : n.node_id ≡ v = ground arith in
            let none_yet = ap (λ w. count_if (has_id w) nodes) here in
            ground (arith, both, none_yet, absent)
        | inr other ↦ ground (arith, both, ok.distinct v)
      ];
  named = ground (arith, count_if-append (has_id 0) nodes (n ∷ []), ok.named);
  links = All-append IsNode nodes (n ∷ []) ok.links (fine, tt);
}

same_index :
    (nodes : List NodeEdges)
    → IsNodes nodes
    → (k i : ℕ) → k < length nodes
    → i ≤ k
    → has_id (get_or nodes k blank_node).node_id (get_or nodes i blank_node) ≡ true
    → i ≡ k
same_index nodes ok k i lt le hit =
    let id = (get_or nodes k blank_node).node_id in
    elim (Bool-cases (ltb i k)) [
      | inl before ↦
          let twice =
            two_hits (has_id id) nodes blank_node i k (ground arith) lt hit (ground arith) in
          absurd (omega (arith, twice, ok.distinct id))
      | inr here ↦ ground arith
    ]

-- With different ids, every node is found at its own index.
pub IsNodes-IsDistinct : (nodes : List NodeEdges) → IsNodes nodes → IsDistinct nodes
unfolding IsDistinct
IsNodes-IsDistinct nodes ok k lt =
    let id = (get_or nodes k blank_node).node_id in
    let p = has_id id in
    let own : p (get_or nodes k blank_node) ≡ true = ground arith in
    let (i, found, le) = position-le p nodes blank_node k lt own in
    idx_of-ids nodes id
    ∙ found
    ∙ ap some (same_index nodes ok k i lt le (position_sound p nodes blank_node found).1)
