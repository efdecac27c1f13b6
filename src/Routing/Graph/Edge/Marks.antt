-- ===== src/Routing/Graph/Edge/Marks.antt =====
-- What one round of the search in `prune_unreachable_from_root` flags and puts on its stack
-- (crates/mesh-routing/src/graph/edge.rs).
use meshrustic.Base.{
  ℕ, ◌+◌, ◌≤◌, ◌<◌, ◌≡◌, ◌≢◌, ◌⊎◌, ◌↔◌, refl, sym, ap, ◌∙◌, Bool, true, false, not, ◌||◌, none,
  some, List, [], ◌∷◌, ◌==◌, ltb, subst, length, get_or, get_or-set_self, get_or-set_ne, length-set,
  any, count_if, count_if-set, weigh, position_sound, is_some, inl, inr, Bool-cases, Option-cases,
  arith,
}
use meshrustic.Routing.Graph.Edge.Prune.{Flood, idx_of, mark, offer}

abbrev pub holds : List ℕ → ℕ → Bool
holds xs w = any (λ x. x == w) xs

-- The flags that are not set.
abbrev pub unseen : Flood → ℕ
unseen f = count_if not f.reachable

module _ (id_at : List ℕ) where
  abbrev pub known : ℕ → Bool
  known w = is_some (idx_of id_at w)

  abbrev pub marked : Flood → ℕ → Bool
  marked f w = elim (idx_of id_at w) [ none ↦ false | some i ↦ get_or f.reachable i false ]

  -- As many flags as nodes, and room on the stack for every node without a flag.
  pub record IsSized (f : Flood) : Type 0 where
    pub size : length f.reachable ≡ length id_at
    pub room : unseen f + length f.stack ≤ 32

  unfoldable pub offer_all : Flood → List ℕ → Flood
  unfolding offer
  offer_all f [] = f
  offer_all f (v ∷ vs) = offer_all (offer id_at f v) vs

  none≢some : (w i : ℕ) → idx_of id_at w ≡ none → idx_of id_at w ≡ some i → ⊥
  none≢some w i e h = ground arith

  some_eq : (i j : ℕ) → some i ≡ some j → i ≡ j
  some_eq i j e = ground arith

  true≢false : true ≡ false → ⊥
  true≢false e = ground arith

  offer-cases :
      (f : Flood) (v : ℕ)
      → ((offer id_at f v ≡ f) × (known v ≡ true → marked f v ≡ true))
        ⊎ ((i : ℕ) × (idx_of id_at v ≡ some i)
            × (get_or f.reachable i false ≡ false)
            × (offer id_at f v ≡ mark f i v))
  unfolding offer
  offer-cases f v = elim (Option-cases (idx_of id_at v)) [
    | inl unknown_id ↦ inl (rw (unknown_id, offer) refl, λ k. ground arith)
    | inr (i, found) ↦ elim (Bool-cases (get_or f.reachable i false)) [
      | inl already ↦ inl (rw (found, already, offer) refl, λ k. rw (found, marked) already)
      | inr fresh ↦ inr (i, found, fresh, rw (found, fresh, offer) refl)
    ]
  ]

  idx_of-lt : (v i : ℕ) → idx_of id_at v ≡ some i → (i < length id_at) × (get_or id_at i 0 ≡ v)
  idx_of-lt v i found =
      let (lt, hit) = position_sound (λ id. id == v) id_at 0 found in (lt, ground arith)

  unseen-mark :
      (f : Flood) (i v : ℕ)
      → i < length f.reachable
      → get_or f.reachable i false ≡ false
      → unseen (mark f i v) + 1 ≡ unseen f
  unfolding mark weigh
  unseen-mark f i v lt fresh = ground (arith, count_if-set not f.reachable i true false lt)

  stack-mark :
      (f : Flood) (i v : ℕ)
      → IsSized f
      → i < length f.reachable
      → get_or f.reachable i false ≡ false
      → (mark f i v).stack ≡ v ∷ f.stack
  unfolding mark
  stack-mark f i v sized lt fresh =
      let some_left = unseen-mark f i v lt fresh in
      let room : ltb (length f.stack) 32 ≡ true = ground (arith, sized.room) in rw (room) refl

  length-mark : (f : Flood) (i v : ℕ) → length (mark f i v).reachable ≡ length f.reachable
  unfolding mark
  length-mark f i v = length-set f.reachable i true

  -- A flag more, on a known node.
  pub marked-mark :
      (f : Flood) (i v w : ℕ)
      → idx_of id_at v ≡ some i
      → i < length f.reachable
      → (marked (mark f i v) w ≡ true) ↔ ((marked f w ≡ true) ⊎ (v ≡ w))
  unfolding mark
  marked-mark f i v w found lt = elim (Option-cases (idx_of id_at w)) [
    | inl unknown_id ↦
        let apart : v ≢ w = λ e. none≢some w i unknown_id (ap (idx_of id_at) (sym e) ∙ found) in
        (
          λ h. absurd (true≢false (sym h ∙ rw (unknown_id, marked) refl)),
          λ h. elim h [
            | inl m ↦ absurd (true≢false (sym m ∙ rw (unknown_id, marked) refl))
            | inr e ↦ absurd (apart e)
          ],
        )
    | inr (j, at) ↦ elim (Bool-cases (i == j)) [
      | inl same ↦
          let i_is_j : i ≡ j = ground arith in
          let v_is_w : v ≡ w =
            sym (idx_of-lt v i found).1
            ∙ ap (λ n. get_or id_at n 0) i_is_j
            ∙ (idx_of-lt w j at).1 in
          let set_now = get_or-set_self f.reachable i true false lt in
          (λ _. inr v_is_w, λ _. rw (at, marked, ← i_is_j) set_now)
      | inr other ↦
          let i_not_j : i ≢ j = ground arith in
          let kept = get_or-set_ne f.reachable i j true false i_not_j in
          let apart : v ≢ w = λ e. i_not_j (some_eq i j (sym found ∙ ap (idx_of id_at) e ∙ at)) in
          let still : marked (mark f i v) w ≡ marked f w = rw (at, marked) kept in
          (λ h. inl (sym still ∙ h), λ h. elim h [ inl m ↦ still ∙ m | inr e ↦ absurd (apart e) ])
    ]
  ]

  pub IsSized-offer :
      (f : Flood) (v : ℕ)
      → IsSized f
      → IsSized (offer id_at f v)
        × (unseen (offer id_at f v) + length (offer id_at f v).stack ≡ unseen f + length f.stack)
  IsSized-offer f v sized = elim (offer-cases f v) [
    | inl (same, _) ↦ rw (same) (sized, refl)
    | inr (i, found, fresh, new) ↦
        let lt : i < length f.reachable = omega (arith, (idx_of-lt v i found).0, sized.size) in
        let less = unseen-mark f i v lt fresh in
        let more = ap length (stack-mark f i v sized lt fresh) in
        rw (new) (
          record {
            size = length-mark f i v ∙ sized.size;
            room = omega (arith, less, more, sized.room);
          },
          omega (arith, less, more),
        )
  ]

  pub marked-offer :
      (f : Flood) (v w : ℕ)
      → IsSized f
      → (marked (offer id_at f v) w ≡ true) ↔ ((marked f w ≡ true) ⊎ ((v ≡ w) × (known w ≡ true)))
  marked-offer f v w sized = elim (offer-cases f v) [
    | inl (same, already) ↦ rw (same) (
      inl,
      λ h. elim h [
        | inl m ↦ m
        | inr (e, k) ↦
            subst (λ n. marked f n ≡ true) e (already (subst (λ n. known n ≡ true) (sym e) k))
      ],
    )
    | inr (i, found, fresh, new) ↦
        let lt : i < length f.reachable = omega (arith, (idx_of-lt v i found).0, sized.size) in
        let now = marked-mark f i v w found lt in
        let known_v : known v ≡ true = rw (found) refl in
        rw (new) (
          λ m. elim (now.0 m) [
            | inl before ↦ inl before
            | inr e ↦ inr (e, subst (λ n. known n ≡ true) e known_v)
          ],
          λ h. now.1 (elim h [ inl before ↦ inl before | inr (e, _) ↦ inr e ]),
        )
  ]

  pub holds-offer :
      (f : Flood) (v w : ℕ)
      → IsSized f
      → holds (offer id_at f v).stack w ≡ true
      → (holds f.stack w ≡ true) ⊎ (marked (offer id_at f v) w ≡ true)
  holds-offer f v w sized h = elim (offer-cases f v) [
    | inl (same, _) ↦ inl (rw (same) at h)
    | inr (i, found, fresh, new) ↦
        let lt : i < length f.reachable = omega (arith, (idx_of-lt v i found).0, sized.size) in
        let now = marked-mark f i v w found lt in
        let top = stack-mark f i v sized lt fresh in
        let h' : (v == w || holds f.stack w) ≡ true = rw (new, top) at h in
        elim (Bool-cases (v == w)) [
          | inl same ↦ inr (rw (new) (now.1 (inr (ground arith))))
          | inr other ↦ inl (ground arith)
        ]
  ]

  -- What gets its flag is put on the stack.
  pub offer-holds :
      (f : Flood) (v w : ℕ)
      → IsSized f
      → (holds f.stack w ≡ true) ⊎ ((marked f w ≡ false) × (marked (offer id_at f v) w ≡ true))
      → holds (offer id_at f v).stack w ≡ true
  offer-holds f v w sized h = elim (offer-cases f v) [
    | inl (same, _) ↦ elim h [
      | inl before ↦ rw (same) before
      | inr (fresh, m) ↦ absurd (true≢false (sym (rw (same) at m) ∙ fresh))
    ]
    | inr (i, found, fresh, new) ↦
        let lt : i < length f.reachable = omega (arith, (idx_of-lt v i found).0, sized.size) in
        let now = marked-mark f i v w found lt in
        let top = stack-mark f i v sized lt fresh in
        rw (new, top)
          (elim h as (λ _. (v == w || holds f.stack w) ≡ true) [
            | inl before ↦ ground arith
            | inr (unmarked, m) ↦ elim (now.0 (rw (new) at m)) [
              | inl marked_before ↦ absurd (true≢false (sym marked_before ∙ unmarked))
              | inr e ↦ ground arith
            ]
          ])
  ]
