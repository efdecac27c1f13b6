-- ===== src/Routing/Graph/Edge/Neighbours.antt =====
-- The nodes that a link joins, in the search of `prune_unreachable_from_root`
-- (crates/mesh-routing/src/graph/edge.rs).
use meshrustic.Base.{
  ℕ, zero, suc, ◌<◌, ◌≡◌, refl, sym, ap, ◌∙◌, Bool, true, false, ◌&&◌, ◌||◌, none, some, List, [],
  ◌∷◌, ◌++◌, ◌==◌, length, get_or, any, keep_if, position, position_sound, find?, find?-position,
  is_some, inl, inr, Bool-cases, Option-cases, arith,
}
use meshrustic.Routing.Graph.Edge.{Edge, NodeEdges, find_edge}
use meshrustic.Routing.Graph.Edge.Remove.{blank_node}
use meshrustic.Routing.Graph.Edge.Prune.{Flood, ids, idx_of, round}
use meshrustic.Routing.Graph.Edge.Marks.{holds, known, offer_all}
use meshrustic.Routing.Graph.Edge.Rounds.{
  targets, sources, points_to, offer_links-offer_all, offer_all-append, offer_back-offer_all,
}

-- The ids are different: each is found at its own index.
unfoldable pub IsDistinct : List NodeEdges → Type 0
IsDistinct nodes =
    (k : ℕ) → k < length nodes → idx_of (ids nodes) (get_or nodes k blank_node).node_id ≡ some k

-- The node of an id has a link to the other id.
unfoldable pub links : List NodeEdges → ℕ → ℕ → Bool
links nodes u v = elim (find? (λ n. n.node_id == u) nodes) [
  | none ↦ false
  | some n ↦ is_some (find_edge n v)
]

-- What a round offers.
unfoldable pub neighbours : List NodeEdges → ℕ → List ℕ
neighbours nodes u = elim (idx_of (ids nodes) u) [
  | none ↦ []
  | some i ↦ targets (get_or nodes i blank_node).edges ++ sources u nodes
]

pub round-offer_all :
    (nodes : List NodeEdges) (cur : ℕ) (f : Flood)
    → IsDistinct nodes
    → round nodes (ids nodes) cur f ≡ offer_all (ids nodes) f (neighbours nodes cur)
unfolding round neighbours IsDistinct offer_all
round-offer_all nodes cur f distinct = elim (Option-cases (idx_of (ids nodes) cur)) [
  | inl missing ↦ rw (missing, round, neighbours) refl
  | inr (i, found) ↦
      let es = (get_or nodes i blank_node).edges in
      let f' = offer_all (ids nodes) f (targets es) in
      rw
        (
          found,
          round,
          neighbours,
          offer_links-offer_all (ids nodes) f es,
          offer_all-append (ids nodes) f (targets es) (sources cur nodes),
        )
        (offer_back-offer_all (ids nodes) cur f' nodes 0
          (λ k lt. distinct k lt ∙ ap some (omega arith)))
]

neighbours-at :
    (nodes : List NodeEdges) (u i : ℕ)
    → idx_of (ids nodes) u ≡ some i
    → neighbours nodes u ≡ targets (get_or nodes i blank_node).edges ++ sources u nodes
unfolding neighbours
neighbours-at nodes u i found = rw (found, neighbours) refl

any-append : (p : ℕ → Bool) (xs ys : List ℕ) → any p (xs ++ ys) ≡ (any p xs || any p ys)
any-append p [] ys = refl
any-append p (x ∷ xs) ys = ground (arith, any-append p xs ys)

holds-targets :
    (es : List Edge) (v : ℕ) → holds (targets es) v ≡ is_some (find? (λ e. e.to == v) es)
holds-targets [] v = refl
holds-targets (e ∷ es) v = ground (arith, holds-targets es v)

pub idx_of-ids :
    (nodes : List NodeEdges) (u : ℕ) → idx_of (ids nodes) u ≡ position (λ n. n.node_id == u) nodes
idx_of-ids [] u = refl
idx_of-ids (n ∷ nodes) u = ground (arith, idx_of-ids nodes u)

-- The node of a known id.
node_of :
    (nodes : List NodeEdges) (u i : ℕ)
    → idx_of (ids nodes) u ≡ some i
    → find? (λ n. n.node_id == u) nodes ≡ some (get_or nodes i blank_node)
node_of nodes u i found =
    find?-position (λ n. n.node_id == u) nodes i blank_node (sym (idx_of-ids nodes u) ∙ found)

links-at :
    (nodes : List NodeEdges) (u v i : ℕ)
    → idx_of (ids nodes) u ≡ some i
    → links nodes u v ≡ points_to v (get_or nodes i blank_node)
unfolding links
links-at nodes u v i found = rw (node_of nodes u i found, links) refl

holds-sources :
    (ns : List NodeEdges) (u v : ℕ)
    → holds (sources u ns) v ≡ any (λ n. n.node_id == v && points_to u n) ns
unfolding keep_if
holds-sources [] u v = refl
holds-sources (n ∷ ns) u v = elim (Bool-cases (points_to u n)) [
  | inl link ↦ rw (link) ground (arith, holds-sources ns u v)
  | inr no_link ↦ rw (no_link) ground (arith, holds-sources ns u v)
]

any-at :
    (p : NodeEdges → Bool) (ns : List NodeEdges) (k : ℕ)
    → k < length ns
    → p (get_or ns k blank_node) ≡ true
    → any p ns ≡ true
any-at p [] k lt h = absurd (omega arith)
any-at p (n ∷ ns) zero lt h = ground arith
any-at p (n ∷ ns) (suc k) lt h = ground (arith, any-at p ns k)

any-index :
    (p : NodeEdges → Bool) (ns : List NodeEdges)
    → any p ns ≡ true
    → (k : ℕ) × (k < length ns) × (p (get_or ns k blank_node) ≡ true)
any-index p [] h = absurd (cc)
any-index p (n ∷ ns) h = elim (Bool-cases (p n)) [
  | inl here ↦ (0, omega arith, here)
  | inr other ↦ let (k, lt, at) = any-index p ns (ground arith) in (suc k, omega arith, at)
]

id_at_index :
    (nodes : List NodeEdges) (v i : ℕ)
    → idx_of (ids nodes) v ≡ some i
    → (get_or nodes i blank_node).node_id ≡ v
id_at_index nodes v i found =
    let (lt, hit) =
      position_sound (λ n. n.node_id == v) nodes blank_node (sym (idx_of-ids nodes v) ∙ found) in
    ground arith

points_of :
    (nodes : List NodeEdges) (v u k : ℕ)
    → ((get_or nodes k blank_node).node_id == v && points_to u (get_or nodes k blank_node)) ≡ true
    → points_to u (get_or nodes k blank_node) ≡ true
points_of nodes v u k at = ground arith

true≢false : true ≡ false → ⊥
true≢false e = ground arith

some_eq : (i j : ℕ) → some i ≡ some j → i ≡ j
some_eq i j e = ground arith

-- With different ids, the node with an id and a link is the node of that id.
sources-links :
    (nodes : List NodeEdges) (u v i : ℕ)
    → IsDistinct nodes
    → idx_of (ids nodes) v ≡ some i
    → i < length nodes
    → any (λ n. n.node_id == v && points_to u n) nodes ≡ points_to u (get_or nodes i blank_node)
unfolding IsDistinct
sources-links nodes u v i distinct found lt =
    let p : NodeEdges → Bool = λ n. n.node_id == v && points_to u n in
    let v_at : (get_or nodes i blank_node).node_id ≡ v = id_at_index nodes v i found in
    elim (Bool-cases (any p nodes)) [
      | inl hit ↦
          let (k, lt_k, at) = any-index p nodes hit in
          let id_k : (get_or nodes k blank_node).node_id ≡ v = ground arith in
          let same : k ≡ i =
            some_eq k i (sym (distinct k lt_k) ∙ ap (idx_of (ids nodes)) id_k ∙ found) in
          hit
          ∙ sym (
              ap (λ n. points_to u (get_or nodes n blank_node)) (sym same)
              ∙ points_of nodes v u k at)
      | inr miss ↦ elim (Bool-cases (points_to u (get_or nodes i blank_node))) [
        | inl link ↦ absurd (true≢false (sym (any-at p nodes i lt (ground arith)) ∙ miss))
        | inr no_link ↦ miss ∙ sym no_link
      ]
    ]

or_same : {a b c d : Bool} → a ≡ c → b ≡ d → (a || b) ≡ (c || d)
or_same e h = cc

-- The neighbours of a node are those that it has a link to, or that have one to it.
pub holds-neighbours :
    (nodes : List NodeEdges) (u v : ℕ)
    → IsDistinct nodes
    → known (ids nodes) u ≡ true
    → known (ids nodes) v ≡ true
    → holds (neighbours nodes u) v ≡ (links nodes u v || links nodes v u)
unfolding neighbours links IsDistinct
holds-neighbours nodes u v distinct there_u there_v = elim (Option-cases (idx_of (ids nodes) u)) [
  | inl gone ↦ absurd (true≢false (sym there_u ∙ rw (gone) refl))
  | inr (i, found_u) ↦ elim (Option-cases (idx_of (ids nodes) v)) [
    | inl gone ↦ absurd (true≢false (sym there_v ∙ rw (gone) refl))
    | inr (j, found_v) ↦
        let n = get_or nodes i blank_node in
        let lt =
          (position_sound (λ m. m.node_id == v) nodes blank_node
            (sym (idx_of-ids nodes v) ∙ found_v)).0 in
        let out = holds-targets n.edges v ∙ sym (links-at nodes u v i found_u) in
        let back =
          holds-sources nodes u v
          ∙ sources-links nodes u v j distinct found_v lt
          ∙ sym (links-at nodes v u j found_v) in
        ap (λ xs. holds xs v) (neighbours-at nodes u i found_u)
        ∙ any-append (λ x. x == v) (targets n.edges) (sources u nodes)
        ∙ or_same out back
  ]
]
