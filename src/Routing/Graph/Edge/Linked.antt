-- ===== src/Routing/Graph/Edge/Linked.antt =====
-- The nodes that `prune_unreachable_from_root` finds reachable (crates/mesh-routing/src/graph/edge.rs)
-- are those that a chain of links joins to our own.
use meshrustic.Base.{
  ℕ, zero, suc, ◌+◌, ◌≤◌, ◌<◌, ◌≡◌, ◌⊎◌, ◌↔◌, refl, sym, ap, ◌∙◌, subst, Bool, true, false, not,
  ◌||◌, some, List, [], ◌∷◌, ◌==◌, length, get_or, set, replicate, length-replicate, length-set,
  count_if, count_if-set, weigh, position_sound, inl, inr, Bool-cases, Option-cases, arith,
}
use meshrustic.Routing.Graph.Edge.{NodeEdges}
use meshrustic.Routing.Graph.Edge.Remove.{blank_node}
use meshrustic.Routing.Graph.Edge.Prune.{Flood, mark, ids, idx_of, flood, reachable_from}
use meshrustic.Routing.Graph.Edge.Marks.{
  holds, unseen, known, marked, IsSized, offer_all, marked-mark,
}
use meshrustic.Routing.Graph.Edge.Rounds.{
  IsSized-offer_all, marked-offer_all, holds-offer_all, offer_all-holds,
}
use meshrustic.Routing.Graph.Edge.Neighbours.{
  IsDistinct, links, neighbours, round-offer_all, holds-neighbours,
}

-- Joined to `root` by links, each of which one of its two nodes reports.
pub data Linked (nodes : List NodeEdges) (root : ℕ) : ℕ → Type 0 where
  here : Linked nodes root root
  step :
      {u v : ℕ}
      → Linked nodes root u
      → known (ids nodes) u ≡ true
      → known (ids nodes) v ≡ true
      → (links nodes u v || links nodes v u) ≡ true
      → Linked nodes root v

true≢false : true ≡ false → ⊥
true≢false e = ground arith

cons≢nil : (c : ℕ) (below : List ℕ) → c ∷ below ≡ [] → ⊥
cons≢nil c below e = ground arith

nil_of_length : (xs : List ℕ) → length xs ≤ 0 → xs ≡ []
nil_of_length [] le = refl
nil_of_length (x ∷ xs) le = absurd (omega arith)

List-cases : (xs : List ℕ) → (xs ≡ []) ⊎ ((x : ℕ) × (ys : List ℕ) × (xs ≡ x ∷ ys))
List-cases [] = inl refl
List-cases (x ∷ xs) = inr (x, xs, refl)

holds-head : (c : ℕ) (below : List ℕ) → holds (c ∷ below) c ≡ true
holds-head c below = ground arith

holds-under : (c v : ℕ) (below : List ℕ) → holds below v ≡ true → holds (c ∷ below) v ≡ true
holds-under c v below h = ground arith

holds-other :
    (c v : ℕ) (below : List ℕ) → holds (c ∷ below) v ≡ true → (c ≡ v) ⊎ (holds below v ≡ true)
holds-other c v below h = elim (Bool-cases (c == v)) [
  | inl same ↦ inl (ground arith)
  | inr other ↦ inr (ground arith)
]

length-ids : (ns : List NodeEdges) → length (ids ns) ≡ length ns
length-ids [] = refl
length-ids (n ∷ ns) = ap suc (length-ids ns)

idx_of-bound : (ns : List NodeEdges) (v i : ℕ) → idx_of (ids ns) v ≡ some i → i < length ns
idx_of-bound ns v i found =
    omega (arith, (position_sound (λ id. id == v) (ids ns) 0 found).0, length-ids ns)

module _ (nodes : List NodeEdges) (root : ℕ) (distinct : IsDistinct nodes) where
  record Inv (f : Flood) : Type 0 where
    sized : IsSized (ids nodes) f
    source : marked (ids nodes) f root ≡ true
    queued : (v : ℕ) → holds f.stack v ≡ true → marked (ids nodes) f v ≡ true
    sound : (v : ℕ) → marked (ids nodes) f v ≡ true → Linked nodes root v
    closed :
        (u v : ℕ)
        → marked (ids nodes) f u ≡ true
        → holds (neighbours nodes u) v ≡ true
        → known (ids nodes) v ≡ true
        → (holds f.stack u ≡ true) ⊎ (marked (ids nodes) f v ≡ true)

  marked-known : (f : Flood) (v : ℕ) → marked (ids nodes) f v ≡ true → known (ids nodes) v ≡ true
  marked-known f v m = elim (Option-cases (idx_of (ids nodes) v)) [
    | inl gone ↦ absurd (true≢false (sym m ∙ rw (gone, marked) refl))
    | inr (i, found) ↦ rw (found) refl
  ]

  Inv-round :
      (cur : ℕ) (below : List ℕ) (f : Flood)
      → f.stack ≡ cur ∷ below
      → Inv f
      → Inv (offer_all (ids nodes) (record f { stack = below }) (neighbours nodes cur))
  Inv-round cur below f top inv =
      let f1 : Flood = record f { stack = below } in
      let vs = neighbours nodes cur in
      let f2 = offer_all (ids nodes) f1 vs in
      let on_top : holds f.stack cur ≡ true =
        subst (λ (xs : List ℕ). holds xs cur ≡ true) (sym top) (holds-head cur below) in
      let open_stack = λ (v : ℕ). subst (λ (xs : List ℕ). holds xs v ≡ true) top in
      let under = λ (v : ℕ) (h : holds below v ≡ true).
        subst (λ (xs : List ℕ). holds xs v ≡ true) (sym top) (holds-under cur v below h) in
      let cur_marked = inv.queued cur on_top in
      let sized1 : IsSized (ids nodes) f1 = record {
        size = inv.sized.size;
        room = omega (arith, inv.sized.room, ap length top);
      } in
      let now = λ (v : ℕ). marked-offer_all (ids nodes) f1 vs v sized1 in
      let on = λ (v : ℕ). offer_all-holds (ids nodes) f1 vs v sized1 in
      let known_cur = marked-known f cur cur_marked in
      record {
        sized = (IsSized-offer_all (ids nodes) f1 vs sized1).0;
        source = (marked-offer_all (ids nodes) f1 vs root sized1).1 (inl inv.source);
        queued = λ v h. elim (holds-offer_all (ids nodes) f1 vs v sized1 h) [
          | inl before ↦ (now v).1 (inl (inv.queued v (under v before)))
          | inr m ↦ m
        ];
        sound = λ v m. elim ((now v).0 m) [
          | inl before ↦ inv.sound v before
          | inr (nb, k) ↦
              step (inv.sound cur cur_marked) known_cur k
                (sym (holds-neighbours nodes cur v distinct known_cur k) ∙ nb)
        ];
        closed = λ u v m nb k. elim (Bool-cases (marked (ids nodes) f u)) [
          | inl before ↦ elim (inv.closed u v before nb k) [
            | inl waiting ↦ elim (holds-other cur u below (open_stack u waiting)) [
              | inl same ↦ inr (
                  (now v).1
                    (inr (subst (λ w. holds (neighbours nodes w) v ≡ true) (sym same) nb, k)))
              | inr later ↦ inl (on u (inl later))
            ]
            | inr reached ↦ inr ((now v).1 (inl reached))
          ]
          | inr fresh ↦ inl (on u (inr (fresh, m)))
        ];
      }

  work-round :
      (cur : ℕ) (below : List ℕ) (f : Flood)
      → f.stack ≡ cur ∷ below
      → IsSized (ids nodes) f
      → let f2 = offer_all (ids nodes) (record f { stack = below }) (neighbours nodes cur) in
        unseen f2 + length f2.stack + 1 ≡ unseen f + length f.stack
  work-round cur below f top sized =
      let f1 : Flood = record f { stack = below } in
      let sized1 : IsSized (ids nodes) f1 = record {
        size = sized.size;
        room = omega (arith, sized.room, ap length top);
      } in
      omega
        (arith, (IsSized-offer_all (ids nodes) f1 (neighbours nodes cur) sized1).1, ap length top)

  flood-step :
      (fuel cur : ℕ) (below : List ℕ) (f : Flood)
      → f.stack ≡ cur ∷ below
      → flood nodes (ids nodes) (suc fuel) f
        ≡ flood nodes
            (ids nodes)
            fuel
            (offer_all (ids nodes) (record f { stack = below }) (neighbours nodes cur))
  unfolding flood
  flood-step fuel cur below f top =
      rw (top, flood)
        (ap (flood nodes (ids nodes) fuel)
          (round-offer_all nodes cur (record f { stack = below }) distinct))

  flood-stop :
      (fuel : ℕ) (flags : List Bool) (stack : List ℕ)
      → stack ≡ []
      → flood nodes (ids nodes) fuel (record { reachable = flags; stack = stack })
        ≡ record { reachable = flags; stack = stack }
  unfolding flood
  flood-stop zero flags stack empty = refl
  flood-stop (suc fuel) flags [] empty = refl
  flood-stop (suc fuel) flags (c ∷ below) empty = absurd (cons≢nil c below empty)

  -- With as many rounds as there are flags not set and nodes on the stack, the stack is empty.
  flood-Inv :
      (fuel : ℕ) (f : Flood)
      → unseen f + length f.stack ≤ fuel
      → Inv f
      → Inv (flood nodes (ids nodes) fuel f) × ((flood nodes (ids nodes) fuel f).stack ≡ [])
  flood-Inv zero f enough inv =
      let empty = nil_of_length f.stack (omega arith) in
      subst (λ (g : Flood). Inv g × (g.stack ≡ []))
        (sym (flood-stop zero f.reachable f.stack empty)) (inv, empty)
  flood-Inv (suc fuel) f enough inv = elim (List-cases f.stack) [
    | inl empty ↦
        subst (λ (g : Flood). Inv g × (g.stack ≡ []))
          (sym (flood-stop (suc fuel) f.reachable f.stack empty)) (inv, empty)
    | inr (cur, below, top) ↦
        let f2 = offer_all (ids nodes) (record f { stack = below }) (neighbours nodes cur) in
        subst (λ (g : Flood). Inv g × (g.stack ≡ [])) (sym (flood-step fuel cur below f top))
          (flood-Inv fuel f2 (omega (arith, work-round cur below f top inv.sized))
            (Inv-round cur below f top inv))
  ]

  -- With an empty stack, the flags are closed under links.
  complete :
      (f : Flood) (v : ℕ)
      → Inv f
      → f.stack ≡ []
      → Linked nodes root v
      → marked (ids nodes) f v ≡ true
  complete f v inv empty here = inv.source
  complete f v inv empty (step {u} l known_u known_w link) =
      let m = complete f u inv empty l in
      elim (inv.closed u v m (holds-neighbours nodes u v distinct known_u known_w ∙ link) known_w) [
        | inl waiting ↦ absurd (true≢false (sym waiting ∙ ap (λ xs. holds xs u) empty))
        | inr reached ↦ reached
      ]

  start : ℕ → Flood
  start i = record { reachable = set (replicate (length nodes) false) i true; stack = root ∷ [] }

  unseen-blank : (n : ℕ) → count_if not (replicate n false) ≡ n
  unseen-blank zero = refl
  unseen-blank (suc n) = omega (arith, unseen-blank n)

  get_or-blank : (n k : ℕ) → get_or (replicate n false) k false ≡ false
  get_or-blank zero k = refl
  get_or-blank (suc n) zero = refl
  get_or-blank (suc n) (suc k) = get_or-blank n k

  work-start : (i : ℕ) → i < length nodes → unseen (start i) + 1 ≡ length nodes
  unfolding start weigh
  work-start i lt =
      let size = length-replicate (length nodes) false in
      let moved =
        count_if-set not (replicate (length nodes) false) i true false (omega (arith, size)) in
      ground (arith, moved, unseen-blank (length nodes), get_or-blank (length nodes) i)

  marked-blank :
      (v : ℕ)
      → marked (ids nodes) (record { reachable = replicate (length nodes) false; stack = [] }) v
        ≡ false
  marked-blank v = elim (Option-cases (idx_of (ids nodes) v)) [
    | inl gone ↦ rw (gone, marked) refl
    | inr (k, found) ↦ rw (found, marked) (get_or-blank (length nodes) k)
  ]

  marked-start :
      (i v : ℕ)
      → idx_of (ids nodes) root ≡ some i
      → i < length nodes
      → (marked (ids nodes) (start i) v ≡ true) ↔ (root ≡ v)
  unfolding start mark
  marked-start i v found lt =
      let blank : Flood = record { reachable = replicate (length nodes) false; stack = [] } in
      let size = length-replicate (length nodes) false in
      let one = marked-mark (ids nodes) blank i root v found (omega (arith, size)) in
      (
        λ m. elim (one.0 m) [
          | inl before ↦ absurd (true≢false (sym before ∙ marked-blank v))
          | inr e ↦ e
        ],
        λ e. one.1 (inr e),
      )

  size_of_start : (i : ℕ) → length (start i).reachable ≡ length (ids nodes)
  unfolding start
  size_of_start i =
      length-set (replicate (length nodes) false) i true
      ∙ length-replicate (length nodes) false
      ∙ sym (length-ids nodes)

  Inv-start : (i : ℕ) → idx_of (ids nodes) root ≡ some i → length nodes ≤ 32 → Inv (start i)
  unfolding start
  Inv-start i found small =
      let lt : i < length nodes = omega (arith, idx_of-bound nodes root i found) in
      let work = work-start i lt in
      let flags = (λ (v : ℕ). marked-start i v found lt) in
      record {
        sized = record { size = size_of_start i; room = omega (arith, work, small) };
        source = (flags root).1 refl;
        queued = λ v on. elim (holds-other root v [] on) [
          | inl e ↦ (flags v).1 e
          | inr nothing ↦ absurd (true≢false (sym nothing))
        ];
        sound = λ v m. subst (Linked nodes root) ((flags v).0 m) here;
        closed = λ u v m nb k.
            inl (subst (λ w. holds (root ∷ []) w ≡ true) ((flags u).0 m) (holds-head root []));
      }

-- In a graph of at most 32 nodes with different ids, the flag that `prune_unreachable_from_root` finds
-- for a node is set exactly if links join the node to our own, each reported by one of its two ends;
-- for this as many rounds of the search as there are nodes are enough.
pub reachable_from_lem :
    (nodes : List NodeEdges) (my_node root k : ℕ)
    → IsDistinct nodes
    → length nodes ≤ 32
    → idx_of (ids nodes) my_node ≡ some root
    → k < length nodes
    → (get_or (reachable_from nodes root my_node) k false ≡ true)
      ↔ Linked nodes my_node (get_or nodes k blank_node).node_id
unfolding reachable_from IsDistinct start
reachable_from_lem nodes my_node root k distinct small found lt =
    let small_start =
      work-start nodes my_node distinct root
        (omega (arith, idx_of-bound nodes my_node root found)) in
    let (inv, empty) =
      flood-Inv nodes my_node distinct (length nodes) (start nodes my_node distinct root)
        (omega (arith, small_start)) (Inv-start nodes my_node distinct root found small) in
    let f = flood nodes (ids nodes) (length nodes) (start nodes my_node distinct root) in
    let node_id = (get_or nodes k blank_node).node_id in
    let flag : marked (ids nodes) f node_id ≡ get_or f.reachable k false =
      rw (distinct k lt, marked) refl in
    (
      λ m. inv.sound node_id (flag ∙ m),
      λ l. sym flag ∙ complete nodes my_node distinct f node_id inv empty l,
    )
