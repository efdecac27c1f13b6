-- ===== src/Routing/Graph/Edge/Rounds.antt =====
-- A round of the search in `prune_unreachable_from_root` (crates/mesh-routing/src/graph/edge.rs) offers
-- the nodes that a link joins to the one at hand.
use meshrustic.Base.{
  ℕ, suc, ◌+◌, ◌<◌, ◌≡◌, ◌⊎◌, ◌↔◌, refl, sym, ap, ◌∙◌, Bool, true, false, not, ◌&&◌, some, List, [],
  ◌∷◌, ◌++◌, map, if◌then◌else◌, if-true, if-false, length, get_or, keep_if, is_some, inl, inr,
  Bool-cases, arith,
}
use meshrustic.Routing.Graph.Edge.{Edge, NodeEdges, find_edge}
use meshrustic.Routing.Graph.Edge.Remove.{blank_node}
use meshrustic.Routing.Graph.Edge.Prune.{Flood, idx_of, mark, offer, offer_links, offer_back}
use meshrustic.Routing.Graph.Edge.Marks.{
  holds, unseen, known, marked, IsSized, offer_all, IsSized-offer, marked-offer, holds-offer,
  offer-holds,
}

abbrev pub targets : List Edge → List ℕ
targets es = map (λ e. e.to) es

abbrev pub points_to : ℕ → NodeEdges → Bool
points_to cur n = is_some (find_edge n cur)

abbrev pub sources : ℕ → List NodeEdges → List ℕ
sources cur ns = map (λ n. n.node_id) (keep_if (points_to cur) ns)

sources-cons :
    (cur : ℕ) (n : NodeEdges) (rest : List NodeEdges)
    → points_to cur n ≡ true
    → sources cur (n ∷ rest) ≡ n.node_id ∷ sources cur rest
unfolding keep_if
sources-cons cur n rest link = rw (link) refl

sources-skip :
    (cur : ℕ) (n : NodeEdges) (rest : List NodeEdges)
    → points_to cur n ≡ false
    → sources cur (n ∷ rest) ≡ sources cur rest
unfolding keep_if
sources-skip cur n rest no_link = rw (no_link) refl

module _ (id_at : List ℕ) where
  pub IsSized-offer_all :
      (f : Flood) (vs : List ℕ)
      → IsSized id_at f
      → IsSized id_at (offer_all id_at f vs)
        × (unseen (offer_all id_at f vs) + length (offer_all id_at f vs).stack
            ≡ unseen f + length f.stack)
  unfolding offer_all
  IsSized-offer_all f [] sized = (sized, refl)
  IsSized-offer_all f (v ∷ vs) sized =
      let (sized', same) = IsSized-offer id_at f v sized in
      let (end, same') = IsSized-offer_all (offer id_at f v) vs sized' in (end, same' ∙ same)

  pub marked-offer_all :
      (f : Flood) (vs : List ℕ) (w : ℕ)
      → IsSized id_at f
      → (marked id_at (offer_all id_at f vs) w ≡ true)
        ↔ ((marked id_at f w ≡ true) ⊎ ((holds vs w ≡ true) × (known id_at w ≡ true)))
  unfolding offer_all
  marked-offer_all f [] w sized = (inl, λ h. elim h [ inl m ↦ m | inr (none_of, _) ↦ cc ])
  marked-offer_all f (v ∷ vs) w sized =
      let sized' = (IsSized-offer id_at f v sized).0 in
      let first = marked-offer id_at f v w sized in
      let rest = marked-offer_all (offer id_at f v) vs w sized' in ground (arith, first, rest)

  pub holds-offer_all :
      (f : Flood) (vs : List ℕ) (w : ℕ)
      → IsSized id_at f
      → holds (offer_all id_at f vs).stack w ≡ true
      → (holds f.stack w ≡ true) ⊎ (marked id_at (offer_all id_at f vs) w ≡ true)
  unfolding offer_all
  holds-offer_all f [] w sized h = inl h
  holds-offer_all f (v ∷ vs) w sized h =
      let sized' = (IsSized-offer id_at f v sized).0 in
      let rest = marked-offer_all (offer id_at f v) vs w sized' in
      elim (holds-offer_all (offer id_at f v) vs w sized' h) [
        | inl on ↦ elim (holds-offer id_at f v w sized on) [
          | inl before ↦ inl before
          | inr m ↦ inr (rest.1 (inl m))
        ]
        | inr m ↦ inr m
      ]

  -- What was on the stack stays there, and what gets its flag is put there.
  pub offer_all-holds :
      (f : Flood) (vs : List ℕ) (w : ℕ)
      → IsSized id_at f
      → (holds f.stack w ≡ true)
        ⊎ ((marked id_at f w ≡ false) × (marked id_at (offer_all id_at f vs) w ≡ true))
      → holds (offer_all id_at f vs).stack w ≡ true
  unfolding offer_all
  offer_all-holds f [] w sized h = elim h [ inl on ↦ on | inr (before, now) ↦ cc ]
  offer_all-holds f (v ∷ vs) w sized h =
      let sized' = (IsSized-offer id_at f v sized).0 in
      let step = offer-holds id_at f v w sized in
      let on = offer_all-holds (offer id_at f v) vs w sized' in
      elim h [
        | inl before ↦ on (inl (step (inl before)))
        | inr (fresh, m) ↦ elim (Bool-cases (marked id_at (offer id_at f v) w)) [
          | inl now ↦ on (inl (step (inr (fresh, now))))
          | inr not_yet ↦ on (inr (not_yet, m))
        ]
      ]

  pub offer_all-append :
      (f : Flood) (us vs : List ℕ)
      → offer_all id_at f (us ++ vs) ≡ offer_all id_at (offer_all id_at f us) vs
  unfolding offer_all
  offer_all-append f [] vs = refl
  offer_all-append f (u ∷ us) vs = offer_all-append (offer id_at f u) us vs

  pub offer_links-offer_all :
      (f : Flood) (es : List Edge) → offer_links id_at f es ≡ offer_all id_at f (targets es)
  unfolding offer_links offer_all
  offer_links-offer_all f [] = refl
  offer_links-offer_all f (e ∷ es) = offer_links-offer_all (offer id_at f e.to) es

  pub offered :
      (f : Flood) (v i : ℕ)
      → idx_of id_at v ≡ some i
      → offer id_at f v ≡ (if get_or f.reachable i false then f else mark f i v)
  unfolding offer
  offered f v i found = rw (found, offer) refl

  passes-offer :
      (cur : ℕ) (f : Flood) (n : NodeEdges) (i : ℕ)
      → idx_of id_at n.node_id ≡ some i
      → points_to cur n ≡ true
      → (if not (get_or f.reachable i false) && is_some (find_edge n cur)
          then mark f i n.node_id
          else f)
        ≡ offer id_at f n.node_id
  passes-offer cur f n i here link = elim (Bool-cases (get_or f.reachable i false)) [
    | inl flagged ↦ rw (flagged) (sym (offered f n.node_id i here ∙ if-true _ _ flagged))
    | inr fresh ↦ rw (fresh, link) (sym (offered f n.node_id i here ∙ if-false _ _ fresh))
  ]

  passes-nothing :
      (cur : ℕ) (f : Flood) (n : NodeEdges) (i : ℕ)
      → points_to cur n ≡ false
      → (if not (get_or f.reachable i false) && is_some (find_edge n cur)
          then mark f i n.node_id
          else f)
        ≡ f
  passes-nothing cur f n i no_link = elim (Bool-cases (get_or f.reachable i false)) [
    | inl flagged ↦ rw (flagged) refl
    | inr fresh ↦ rw (fresh, no_link) refl
  ]

  same_place : (i k : ℕ) → i + suc k ≡ suc i + k
  same_place i k = omega arith

  pub offer_back-offer_all :
      (cur : ℕ) (f : Flood) (rest : List NodeEdges) (i : ℕ)
      → ((k : ℕ) → k < length rest → idx_of id_at (get_or rest k blank_node).node_id ≡ some (i + k))
      → offer_back cur f rest i ≡ offer_all id_at f (sources cur rest)
  unfolding offer_back offer_all keep_if
  offer_back-offer_all cur f [] i at = refl
  offer_back-offer_all cur f (n ∷ rest) i at =
      let here : idx_of id_at n.node_id ≡ some i = at 0 (omega arith) ∙ ap some (omega arith) in
      let later =
        λ (k : ℕ) (lt : k < length rest). at (suc k) (omega arith) ∙ ap some (same_place i k) in
      elim (Bool-cases (points_to cur n)) [
        | inl link ↦
            let f' = offer id_at f n.node_id in
            ap (λ g. offer_back cur g rest (suc i)) (passes-offer cur f n i here link)
            ∙ offer_back-offer_all cur f' rest (suc i) later
            ∙ sym (ap (offer_all id_at f) (sources-cons cur n rest link))
        | inr no_link ↦
            ap (λ g. offer_back cur g rest (suc i)) (passes-nothing cur f n i no_link)
            ∙ offer_back-offer_all cur f rest (suc i) later
            ∙ sym (ap (offer_all id_at f) (sources-skip cur n rest no_link))
      ]
