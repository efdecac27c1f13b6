-- ===== src/Routing/Graph/Route/Room.antt =====
-- The table of `backward_search` (crates/mesh-routing/src/graph/route.rs) has room for every node: its ids
-- are different, and stand in a list that is no longer than the table.
use meshrustic.Base.{
  ℕ, zero, suc, ◌+◌, ◌≤◌, ◌<◌, ◌≡◌, refl, sym, ap, subst, ◌∙◌, Bool, true, false, none, some, List,
  [], ◌∷◌, ◌==◌, map, if◌then◌else◌, length, ltb, set, any, position, position_sound, position-none,
  count_if, count_if-append, count_if-set, weigh, All, All-append, All-set, one_hit, two_hits, inl,
  inr, Bool-cases, Option-cases, arith,
}
use meshrustic.Routing.Graph.Downstream.Entries.{count_if-any}
use meshrustic.Routing.Graph.Route.Search.{DNode, blank, has_id, lowered}
use meshrustic.Routing.Graph.Route.Table.{at, Relaxed, known, added}

abbrev pub holds : List ℕ → ℕ → Bool
holds ks v = any (λ k. k == v) ks

abbrev times : List ℕ → ℕ → ℕ
times ks v = count_if (λ k. k == v) ks

without : List ℕ → ℕ → List ℕ
without [] v = []
without (k ∷ ks) v = if k == v then ks else k ∷ without ks v

without-length : (ks : List ℕ) (v : ℕ) → 1 ≤ times ks v → length ks ≡ 1 + length (without ks v)
unfolding without
without-length [] v there = absurd (omega arith)
without-length (k ∷ ks) v there = elim (Bool-cases (k == v)) [
  | inl here ↦ ground arith
  | inr other ↦ ground (arith, without-length ks v (ground arith))
]

times-without :
    (ks : List ℕ) (v w : ℕ)
    → 1 ≤ times ks v
    → times ks w ≡ (if v == w then 1 else 0) + times (without ks v) w
unfolding without
times-without [] v w there = absurd (omega arith)
times-without (k ∷ ks) v w there = elim (Bool-cases (k == v)) [
  | inl here ↦ let same : k ≡ v = ground arith in ground (arith, same)
  | inr other ↦ ground (arith, times-without ks v w (ground arith))
]

-- A list of ids, each at most as often as in the other list, is no longer.
length_le_times : (xs ks : List ℕ) → ((v : ℕ) → times xs v ≤ times ks v) → length xs ≤ length ks
length_le_times [] ks le = omega arith
length_le_times (x ∷ xs) ks le =
    let there : 1 ≤ times ks x = ground (arith, le x) in
    let rest =
      length_le_times xs (without ks x) (λ v. ground (arith, times-without ks x v there, le v)) in
    omega (arith, rest, without-length ks x there)

times-holds : (ks : List ℕ) (v : ℕ) → holds ks v ≡ true → 1 ≤ times ks v
times-holds [] v there = absurd (cc)
times-holds (k ∷ ks) v there = ground (arith, times-holds ks v)

abbrev ids : List DNode → List ℕ
ids nodes = map (λ n. n.id) nodes

times-ids : (nodes : List DNode) (v : ℕ) → times (ids nodes) v ≡ count_if (has_id v) nodes
times-ids [] v = refl
times-ids (n ∷ nodes) v = ground (arith, times-ids nodes v)

length-ids : (nodes : List DNode) → length (ids nodes) ≡ length nodes
length-ids [] = refl
length-ids (n ∷ nodes) = ap suc (length-ids nodes)

-- Different ids, each of which stands in the list.
pub record IsTable (ks : List ℕ) (nodes : List DNode) : Type 0 where
  pub distinct : (v : ℕ) → count_if (has_id v) nodes ≤ 1
  pub known_ids : All (λ n. holds ks n.id ≡ true) nodes

holds-count :
    (ks : List ℕ) (nodes : List DNode) (v : ℕ)
    → All (λ n. holds ks n.id ≡ true) nodes
    → 1 ≤ count_if (has_id v) nodes
    → holds ks v ≡ true
holds-count ks [] v all_known there = absurd (omega arith)
holds-count ks (n ∷ nodes) v all_known there = elim (Bool-cases (n.id == v)) [
  | inl here ↦ let same : n.id ≡ v = ground arith in subst (λ i. holds ks i ≡ true) same all_known.0
  | inr other ↦ holds-count ks nodes v all_known.1 (ground arith)
]

pub room :
    (ks : List ℕ) (nodes : List DNode) (m : ℕ)
    → IsTable ks nodes
    → holds ks m ≡ true
    → position (has_id m) nodes ≡ none
    → length nodes < length ks
room ks nodes m ok there missing =
    let none_yet : count_if (has_id m) nodes ≡ 0 =
      count_if-any (has_id m) nodes (position-none (has_id m) nodes missing) in
    let le : (v : ℕ) → times (m ∷ ids nodes) v ≤ times ks v = λ v. elim (Bool-cases (m == v)) [
      | inl here ↦
          let same : m ≡ v = ground arith in
          let zero_times : count_if (has_id v) nodes ≡ 0 =
            subst (λ i. count_if (has_id i) nodes ≡ 0) same none_yet in
          let once = times-holds ks v (subst (λ i. holds ks i ≡ true) same there) in
          ground (arith, times-ids nodes v, zero_times, once)
      | inr other ↦ elim (Bool-cases (count_if (has_id v) nodes == 0)) [
        | inl no_time ↦ ground (arith, times-ids nodes v, no_time)
        | inr some_time ↦
            let once =
              times-holds ks v (holds-count ks nodes v ok.known_ids (ground (arith, some_time))) in
            ground (arith, times-ids nodes v, ok.distinct v, once)
      ]
    ] in
    omega (arith, length_le_times (m ∷ ids nodes) ks le, length-ids nodes)

set-IsTable :
    (ks : List ℕ) (nodes : List DNode) (i : ℕ) (w : DNode)
    → w.id ≡ (at nodes i).id
    → i < length nodes
    → holds ks w.id ≡ true
    → IsTable ks nodes
    → IsTable ks (set nodes i w)
unfolding weigh
set-IsTable ks nodes i w same lt there ok = record {
  distinct = λ v. ground (arith, count_if-set (has_id v) nodes i w blank lt, ok.distinct v, same);
  known_ids = All-set (λ n. holds ks n.id ≡ true) nodes i w ok.known_ids there;
}

lowered-id : (n : DNode) (via c : ℕ) → (lowered n via c).id ≡ n.id
unfolding lowered
lowered-id n via c = ground arith

pub Relaxed-IsTable :
    {nodes : List DNode} {m via c : ℕ} {nodes' : List DNode} (ks : List ℕ)
    → holds ks m ≡ true
    → Relaxed nodes m via c nodes'
    → IsTable ks nodes
    → IsTable ks nodes'
Relaxed-IsTable {nodes} {m} {via} {c} ks there (known i found) ok =
    let (lt, hit) = position_sound (has_id m) nodes blank found in
    let same = lowered-id (at nodes i) via c in
    let is_m : (lowered (at nodes i) via c).id ≡ m = same ∙ ground (arith, hit) in
    set-IsTable ks nodes i _ same lt (subst (λ v. holds ks v ≡ true) (sym is_m) there) ok
Relaxed-IsTable {nodes} {m} {via} {c} ks there (added missing) ok =
    let new : DNode = record { id = m; cost = c; prev = via; visited = false } in
    let none_yet = count_if-any (has_id m) nodes (position-none (has_id m) nodes missing) in
    record {
      distinct = λ v. elim (Bool-cases (m == v)) [
        | inl here ↦
            let same : m ≡ v = ground arith in
            let zero_times : count_if (has_id v) nodes ≡ 0 =
              subst (λ i. count_if (has_id i) nodes ≡ 0) same none_yet in
            ground (arith, count_if-append (has_id v) nodes (new ∷ []), zero_times)
        | inr other ↦ ground (arith, count_if-append (has_id v) nodes (new ∷ []), ok.distinct v)
      ];
      known_ids = All-append (λ n. holds ks n.id ≡ true) nodes (new ∷ []) ok.known_ids (there, tt);
    }

pub known_at :
    (ks : List ℕ) (nodes : List DNode) (i : ℕ)
    → i < length nodes
    → All (λ n. holds ks n.id ≡ true) nodes
    → holds ks (at nodes i).id ≡ true
known_at ks [] i lt all_known = absurd (omega arith)
known_at ks (n ∷ nodes) zero lt all_known = all_known.0
known_at ks (n ∷ nodes) (suc i) lt all_known = known_at ks nodes i (omega arith) all_known.1

pub visit-IsTable :
    (ks : List ℕ) (nodes : List DNode) (i : ℕ)
    → i < length nodes
    → IsTable ks nodes
    → IsTable ks (set nodes i (record (at nodes i) { visited = true }))
visit-IsTable ks nodes i lt ok =
    set-IsTable ks nodes i (record (at nodes i) { visited = true }) refl lt
      (known_at ks nodes i lt ok.known_ids) ok

-- Each node is found at its place.
pub found_at :
    (ks : List ℕ) (nodes : List DNode) (k : ℕ)
    → IsTable ks nodes
    → k < length nodes
    → position (has_id (at nodes k).id) nodes ≡ some k
found_at ks nodes k ok lt =
    let v = (at nodes k).id in
    let here : has_id v (at nodes k) ≡ true = ground arith in
    elim (Option-cases (position (has_id v) nodes)) [
      | inl missing ↦
          let none_yet = count_if-any (has_id v) nodes (position-none (has_id v) nodes missing) in
          absurd (omega (arith, none_yet, one_hit (has_id v) nodes blank k lt here))
      | inr (j, found) ↦
          let (bound, hit) = position_sound (has_id v) nodes blank found in
          elim (Bool-cases (j == k)) [
            | inl same ↦ let is_k : j ≡ k = ground arith in found ∙ ap some is_k
            | inr other ↦ elim (Bool-cases (ltb j k)) [
              | inl before ↦ absurd (
                  ground (
                    arith,
                    two_hits (has_id v) nodes blank j k (ground arith) lt hit here,
                    ok.distinct v,
                  ))
              | inr after ↦ absurd (
                  ground (
                    arith,
                    two_hits (has_id v) nodes blank k j (ground arith) bound here hit,
                    ok.distinct v,
                  ))
            ]
          ]
    ]
