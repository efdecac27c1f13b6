-- ===== src/Routing/Graph/Edge/Enter.antt =====
-- A report of a link, entered at its node, keeps what the links of a node are made of
-- (crates/mesh-routing/src/graph/edge.rs, `update_edge`).
use meshrustic.Base.{
  count_if-append, ℕ, ◌+◌, ◌≤◌, ◌<◌, ◌≡◌, ◌≢◌, ◌⊎◌, refl, sym, ◌∙◌, subst, Bool, true, false, not,
  if◌then◌else◌, ◌&&◌, Option, none, some, List, [], ◌∷◌, ◌++◌, ◌==◌, ltb, length, length-append,
  length-set, get_or, set, position, position_sound, position-none, count_if, count_if-set, weigh,
  ==_iff, wrapping_sub, inl, inr, Bool-cases, Option-cases, arith,
}
use meshrustic.Base.Float.{Float32}
use meshrustic.Routing.Graph.Downstream.Entries.{count_if-any, none_at}
use meshrustic.Routing.Graph.Edge.{
  Edge, Change, set_etx, edge_etx, source_rank, is_reported, leads_to_node, etx_to_fixed,
  update_etx_variance,
}
use meshrustic.Routing.Graph.Edge.Remove.{blank_edge}
use meshrustic.Routing.Graph.Edge.Update.{
  Report, fresh_edge, dated, varied, sourced, change_known, worst_from, replace_worst, enter,
}
use meshrustic.Routing.Graph.Edge.Inv.{IsLinks, is_bad_link}

-- A link in the place of another one.
set-IsLinks :
    (node_id i : ℕ) (es : List Edge) (e : Edge)
    → IsLinks node_id es
    → i < length es
    → is_bad_link e ≡ false
    → e.to ≢ node_id
    → ((get_or es i blank_edge).to ≡ e.to) ⊎ (count_if (leads_to_node e.to) es ≡ 0)
    → IsLinks node_id (set es i e)
unfolding weigh
set-IsLinks node_id i es e ok lt good away place = record {
  few = omega (arith, length-set es i e, ok.few);
  single = λ v.
      let moved = count_if-set (leads_to_node v) es i e blank_edge lt in
      elim (Bool-cases (e.to == v)) [
        | inl here ↦ elim place [
          | inl same ↦ ground (arith, moved, ok.single v)
          | inr none_yet ↦
              let here_eq : e.to ≡ v = ground arith in
              let none_v : count_if (leads_to_node v) es ≡ 0 =
                subst (λ w. count_if (leads_to_node w) es ≡ 0) here_eq none_yet in
              ground (arith, moved)
        ]
        | inr there ↦ ground (arith, moved, ok.single v)
      ];
  outward = ground (arith, count_if-set (leads_to_node node_id) es i e blank_edge lt, ok.outward);
  sound = ground (arith, count_if-set is_bad_link es i e blank_edge lt, ok.sound);
}

append-IsLinks :
    (node_id : ℕ) (es : List Edge) (e : Edge)
    → IsLinks node_id es
    → length es < 40
    → is_bad_link e ≡ false
    → e.to ≢ node_id
    → count_if (leads_to_node e.to) es ≡ 0
    → IsLinks node_id (es ++ (e ∷ []))
append-IsLinks node_id es e ok room good away none_yet = record {
  few = omega (arith, length-append es (e ∷ []));
  single = λ v.
      let both = count_if-append (leads_to_node v) es (e ∷ []) in
      elim (Bool-cases (e.to == v)) [
        | inl here ↦
            let here_eq : e.to ≡ v = ground arith in
            let none_v : count_if (leads_to_node v) es ≡ 0 =
              subst (λ w. count_if (leads_to_node w) es ≡ 0) here_eq none_yet in
            ground (arith, both)
        | inr there ↦ ground (arith, both, ok.single v)
      ];
  outward = ground (arith, count_if-append (leads_to_node node_id) es (e ∷ []), ok.outward);
  sound = ground (arith, count_if-append is_bad_link es (e ∷ []), ok.sound);
}

-- Two links to one node at one price.
abbrev SameLink : Edge → Edge → Type 0
SameLink d e = (d.to ≡ e.to) × (d.etx_fixed ≡ e.etx_fixed)

if-SameLink :
    (b : Bool) (x y e : Edge) → SameLink x e → SameLink y e → SameLink (if b then x else y) e
if-SameLink true x y e hx hy = hx
if-SameLink false x y e hx hy = hy

if-good :
    (b : Bool) (x y : Change × Edge) (e : Edge)
    → (x.1.to ≡ e.to) × (is_bad_link x.1 ≡ false)
    → (y.1.to ≡ e.to) × (is_bad_link y.1 ≡ false)
    → ((if b then x else y).1.to ≡ e.to) × (is_bad_link (if b then x else y).1 ≡ false)
if-good true x y e hx hy = hx
if-good false x y e hx hy = hy

no_index : (b : ℕ) → none ≡ some b → ⊥
no_index b e = ground arith

module _ (fl : Float32) where
  open fl use {F32, is_finite, lt, le, add, sub, abs, div, whole, least}

  -- A price is at least 100 and fits 16 bits.
  pub etx_to_fixed_bounds : (x : F32) → (100 ≤ etx_to_fixed fl x) × (etx_to_fixed fl x ≤ 65_535)
  unfolding etx_to_fixed
  etx_to_fixed_bounds x = elim (Bool-cases (is_finite x)) [
    | inl finite ↦ rw (finite) (omega arith, omega arith)
    | inr other ↦ rw (other) (omega arith, omega arith)
  ]

  fresh-good : (r : Report F32) → r.to ≢ 0 → is_bad_link (fresh_edge fl r) ≡ false
  fresh-good r named = ground (arith, etx_to_fixed_bounds r.etx)

  varied-same : (r : Report F32) (change : F32) (e : Edge) → SameLink (varied fl r change e) e
  unfolding update_etx_variance
  varied-same r change e = if-SameLink (is_reported r.source) _ _ e (refl, refl) (refl, refl)

  changed-same :
      (r : Report F32) (change : F32) (e : Edge)
      → SameLink (sourced fl r (varied fl r change (dated fl r e))) e
  changed-same r change e =
      let e1 = dated fl r e in
      let e2 = varied fl r change e1 in
      let first =
        if-SameLink r.update_timestamp (record e { last_update_ms = r.now_ms }) e e (refl, refl)
          (refl, refl) in
      let second = varied-same r change e1 in
      let third =
        if-SameLink (is_reported r.source) (record e2 { source = r.source; heard_on = r.heard_on })
          (record e2 { source = r.source }) e2 (refl, refl) (refl, refl) in
      (third.0 ∙ second.0 ∙ first.0, third.1 ∙ second.1 ∙ first.1)

  good-same : (d e : Edge) → SameLink d e → is_bad_link e ≡ false → is_bad_link d ≡ false
  good-same d e (to, cost) good = rw (to, cost) good

  change_known-good :
      (r : Report F32) (e : Edge)
      → is_bad_link e ≡ false
      → ((change_known fl r e).1.to ≡ e.to) × (is_bad_link (change_known fl r e).1 ≡ false)
  change_known-good r e good =
      let change = abs (sub r.etx (edge_etx fl e)) in
      let priced = set_etx fl e r.etx in
      let priced_good : is_bad_link priced ≡ false = ground (arith, etx_to_fixed_bounds r.etx) in
      let changed = sourced fl r (varied fl r change (dated fl r priced)) in
      let same = changed-same r change priced in
      if-good (ltb (source_rank r.source) (source_rank e.source)) _ _ e (refl, good)
        (same.0, good-same changed priced same priced_good)

  -- The worst link is one of the links.
  worst_from-bound :
      (r : Report F32) (es : List Edge) (i bound : ℕ) (best : Option ℕ) (score : F32) (j : ℕ)
      → i + length es ≤ bound
      → ((b : ℕ) → best ≡ some b → b < bound)
      → (worst_from fl r es i best score).0 ≡ some j
      → j < bound
  unfolding worst_from
  worst_from-bound r [] i bound best score j le_bound in_range h = in_range j h
  worst_from-bound r (e ∷ rest) i bound best score j le_bound in_range h =
      elim (Bool-cases (worse e)) [
        | inl taken ↦
            worst_from-bound r rest (i + 1) bound (some i) (score_of e) j (omega arith)
              (λ b same. at_i b same) (rw (taken, worst_from) at h)
        | inr left ↦
            worst_from-bound r rest (i + 1) bound best score j (omega arith) in_range
              (rw (left, worst_from) at h)
      ]
    where
      score_of : Edge → F32
      score_of d =
          add (div (whole d.etx_fixed) (whole 100))
            (div (div (whole (wrapping_sub r.now_ms d.last_update_ms)) (whole 1000)) (whole 300))

      worse : Edge → Bool
      worse d = not (ltb (source_rank r.source) (source_rank d.source)) && lt score (score_of d)

      at_i : (b : ℕ) → some i ≡ some b → b < bound
      at_i b same = let eq : i ≡ b = ground arith in omega arith

  replace_worst-IsLinks :
      (r : Report F32) (node_id : ℕ) (es : List Edge) (worst : Option ℕ × F32)
      → IsLinks node_id es
      → ((j : ℕ) → worst.0 ≡ some j → j < length es)
      → r.to ≢ 0
      → r.to ≢ node_id
      → count_if (leads_to_node r.to) es ≡ 0
      → IsLinks node_id (replace_worst fl r es worst).1
  replace_worst-IsLinks r node_id es (none, score) ok bound named away none_yet = ok
  replace_worst-IsLinks r node_id es (some i, score) ok bound named away none_yet =
      elim (Bool-cases (le score r.etx)) [
        | inl dear ↦ rw (dear) ok
        | inr cheap ↦ rw (cheap) (
            set-IsLinks node_id i es (fresh_edge fl r) ok (bound i refl) (fresh-good r named) away
              (inr none_yet))
      ]

  pub enter-IsLinks :
      (r : Report F32) (node_id : ℕ) (es : List Edge)
      → IsLinks node_id es
      → r.to ≢ 0
      → r.to ≢ node_id
      → IsLinks node_id (enter fl r es).1
  unfolding enter
  enter-IsLinks r node_id es ok named away =
      elim (Option-cases (position (leads_to_node r.to) es)) [
        | inl absent ↦
            let none_yet =
              count_if-any (leads_to_node r.to) es (position-none (leads_to_node r.to) es absent) in
            elim (Bool-cases (ltb (length es) 40)) [
              | inl room ↦
                  rw (absent, room, enter)
                    (append-IsLinks node_id es (fresh_edge fl r) ok (ground arith)
                      (fresh-good r named) away none_yet)
              | inr full ↦
                  rw (absent, full, enter)
                    (replace_worst-IsLinks r node_id es (worst_from fl r es 0 none least) ok
                      (λ j h.
                        worst_from-bound r es 0 (length es) none least j (omega arith)
                          (λ b e. absurd (no_index b e)) h)
                      named away none_yet)
            ]
        | inr (i, found) ↦
            let (lt_i, hit) = position_sound (leads_to_node r.to) es blank_edge found in
            let old = get_or es i blank_edge in
            let (to, good) =
              change_known-good r old (none_at is_bad_link es i blank_edge ok.sound lt_i) in
            let hit_eq : old.to ≡ r.to = (==_iff old.to r.to).0 hit in
            rw (found, enter)
              (set-IsLinks node_id i es (change_known fl r old).1 ok lt_i good
                (λ same. away (sym hit_eq ∙ sym to ∙ same)) (inl (sym to)))
      ]
