-- ===== src/Routing/Graph/Route/Cheaper.antt =====
-- The run of `find_better_positioned_neighbor` (crates/mesh-routing/src/graph/route.rs) over our links.
use meshrustic.Base.{
  ℕ, ◌≡◌, ◌⊎◌, refl, sym, ap, subst, ◌∙◌, Bool, true, false, ◌&&◌, Option, none, some, List, [],
  ◌∷◌, ◌==◌, if◌then◌else◌, any, inl, inr, Bool-cases, arith,
}
use meshrustic.Base.Float.{Float32, IsGapped}
use meshrustic.Routing.Capability.{Cache}
use meshrustic.Routing.Graph.Edge.{Edge}
use meshrustic.Routing.Graph.Edge.Store.{EdgeStore}
use meshrustic.Routing.Graph.Route.Owner.{may_take_over, direct_etx, cheaper_neighbor, better_from}

both_true : (a b : Bool) → a && b ≡ true → (a ≡ true) × (b ≡ true)
both_true true true h = (refl, refl)
both_true true false h = absurd (cc)
both_true false b h = absurd (cc)

module _ (fl : Float32) (s : EdgeStore) (capability : Cache) (my_node device_role destination : ℕ)
    (source_node heard_from : ℕ) where
  abbrev costs_less : fl.F32 → Option (fl.F32) → Bool
  costs_less cost none = false
  costs_less cost (some etx) = fl.lt (fl.add etx (fl.whole 1)) cost

  -- The link leads to a node that may take over and lists the destination at more than one less than the cost.
  unfoldable pub cheap : fl.F32 → Edge → Bool
  cheap cost e =
      may_take_over fl s capability my_node device_role destination source_node heard_from e.to
      && costs_less cost
          (direct_etx fl s capability my_node device_role destination source_node heard_from e.to)

  abbrev pub allowed : ℕ → Bool
  allowed n = may_take_over fl s capability my_node device_role destination source_node heard_from n

  abbrev pub price : ℕ → Option (fl.F32)
  price n = direct_etx fl s capability my_node device_role destination source_node heard_from n

  -- The neighbour so far and its price after a link: both as they were, or the node that it leads to.
  IsStep : Edge → ℕ × fl.F32 → ℕ × fl.F32 → Type 0
  IsStep e best next =
      ((next ≡ best) × (cheap best.1 e ≡ false))
      ⊎ ((next.0 ≡ e.to)
          × (allowed e.to ≡ true)
          × (price e.to ≡ some next.1)
          × (fl.lt (fl.add next.1 (fl.whole 1)) best.1 ≡ true))

  better-IsStep :
      (e : Edge) (etx : Option (fl.F32)) (passed : Bool) (best : ℕ × fl.F32)
      → allowed e.to ≡ passed
      → price e.to ≡ etx
      → IsStep e best (
          if passed
          then cheaper_neighbor fl s capability my_node device_role destination source_node
              heard_from e.to etx best
          else best)
  unfolding cheaper_neighbor cheap IsStep
  better-IsStep e etx false best p q = inl (refl, rw (p) refl)
  better-IsStep e none true best p q = inl (refl, rw (p, q) refl)
  better-IsStep e (some x) true best p q =
      elim (Bool-cases (fl.lt (fl.add x (fl.whole 1)) best.1)) [
        | inl less ↦ rw (less) (inr (refl, p, q, less))
        | inr more ↦ rw (p, q, more) (inl (refl, refl))
      ]

  -- A link that passes all tests at its price is cheap.
  pub cheap_lem :
      (cost etx : fl.F32) (e : Edge)
      → allowed e.to ≡ true
      → price e.to ≡ some etx
      → fl.lt (fl.add etx (fl.whole 1)) cost ≡ true
      → cheap cost e ≡ true
  unfolding cheap
  cheap_lem cost etx e allows priced less = rw (allows, priced, less) refl

  -- The neighbour that a run over links ends with, where it changed: one of those that the links lead
  -- to, by more than 1 cheaper than before, and none of the links leads to one that is cheaper by more
  -- than 1.
  pub record IsBest (es : List Edge) (cost : fl.F32) (n : ℕ) (etx : fl.F32) : Type 0 where
    pub there : any (λ e. e.to == n) es ≡ true
    pub allows : allowed n ≡ true
    pub priced : price n ≡ some etx
    pub less : fl.lt (fl.add etx (fl.whole 1)) cost ≡ true
    pub first : any (cheap etx) es ≡ false

  unfoldable pub IsFound : List Edge → ℕ × fl.F32 → ℕ × fl.F32 → Type 0
  IsFound es best r = ((r ≡ best) × (any (cheap best.1) es ≡ false)) ⊎ IsBest es best.1 r.0 r.1

  module _ (gapped : IsGapped fl) where
    -- What is not cheap for a cost is not cheap for a lower one.
    dear_below :
        (e : Edge) (o : Option (fl.F32)) (low cost : fl.F32)
        → price e.to ≡ o
        → fl.lt (fl.add low (fl.whole 1)) cost ≡ true
        → cheap cost e ≡ false
        → cheap low e ≡ false
    unfolding cheap
    dear_below e none low cost priced less dear = rw (priced) (ground arith)
    dear_below e (some x) low cost priced less dear = elim (Bool-cases (cheap low e)) [
      | inr not_cheap ↦ not_cheap
      | inl cheaper ↦
          let (free, below) =
            both_true (allowed e.to) (fl.lt (fl.add x (fl.whole 1)) low)
              (rw (cheap, priced) at cheaper) in
          let above = gapped.gap_trans x low cost below less in
          absurd (cc (rw (cheap, priced, free, above) at dear))
    ]

    own_dear : (e : Edge) (etx : fl.F32) → price e.to ≡ some etx → cheap etx e ≡ false
    unfolding cheap
    own_dear e etx priced = rw (priced, gapped.gap_irrefl etx) (ground arith)

    -- A link whose price is taken is not cheap for a lower one either.
    taken_dear :
        (e : Edge) (etx low : fl.F32)
        → price e.to ≡ some etx
        → fl.lt (fl.add low (fl.whole 1)) etx ≡ true
        → cheap low e ≡ false
    taken_dear e etx low priced less =
        dear_below e (some etx) low etx priced less (own_dear e etx priced)

    step-IsFound :
        (e : Edge) (rest : List Edge) (best next r : ℕ × fl.F32)
        → IsStep e best next
        → IsFound rest next r
        → IsFound (e ∷ rest) best r
    unfolding IsFound IsStep
    step-IsFound e rest best next r (inl (kept, dear)) found =
        elim (subst (λ b. IsFound rest b r) kept found) [
          | inl (same, none_cheap) ↦ inl (same, ground (arith, dear, none_cheap))
          | inr later ↦
              let here = dear_below e _ r.1 best.1 refl later.less dear in
              inr (record {
                there = ground (arith, later.there);
                allows = later.allows;
                priced = later.priced;
                less = later.less;
                first = ground (arith, here, later.first);
              })
        ]
    step-IsFound e rest best next r (inr (to_e, allows, priced, less)) (inl (same, none_cheap)) =
        let is_e : r.0 ≡ e.to = ap (λ (p : ℕ × fl.F32). p.0) same ∙ to_e in
        let its_price : next.1 ≡ r.1 = ap (λ (p : ℕ × fl.F32). p.1) (sym same) in
        let here = own_dear e next.1 priced in
        let none_first : any (cheap next.1) (e ∷ rest) ≡ false = ground (arith, here, none_cheap) in
        inr (record {
          there = ground (arith, is_e);
          allows = subst (λ n. allowed n ≡ true) (sym is_e) allows;
          priced = ap price is_e ∙ priced ∙ ap some its_price;
          less = subst (λ x. fl.lt (fl.add x (fl.whole 1)) best.1 ≡ true) its_price less;
          first = subst (λ x. any (cheap x) (e ∷ rest) ≡ false) its_price none_first;
        })
    step-IsFound e rest best next r (inr (to_e, allows, priced, less)) (inr later) =
        let here = taken_dear e next.1 r.1 priced later.less in
        inr (record {
          there = ground (arith, later.there);
          allows = later.allows;
          priced = later.priced;
          less = gapped.gap_trans r.1 next.1 best.1 later.less less;
          first = ground (arith, here, later.first);
        })

    pub better_from-IsFound :
        (es : List Edge) (best : ℕ × fl.F32)
        → IsFound es best (
            better_from fl s capability my_node device_role destination source_node heard_from es
              best)
    unfolding better_from IsFound
    better_from-IsFound [] best = inl (refl, refl)
    better_from-IsFound (e ∷ rest) best =
        step-IsFound e rest best _ _ (better-IsStep e _ _ best refl refl)
          (better_from-IsFound rest _)
