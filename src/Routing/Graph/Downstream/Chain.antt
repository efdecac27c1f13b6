-- ===== src/Routing/Graph/Downstream/Chain.antt =====
-- The chain of relays that `chain_egress` follows (crates/mesh-routing/src/graph/downstream.rs).
use meshrustic.Base.{
  ℕ, zero, suc, ◌+◌, ◌-◌, ◌≤◌, ◌≡◌, ◌↔◌, ◌≢◌, refl, sym, ap, ◌∙◌, subst, Bool, true, false, ◌||◌,
  Option, none, some, List, [], ◌∷◌, ◌++◌, ◌==◌, if◌then◌else◌, length, length-append, any, inl,
  inr, if-true, if-false, Bool-cases, Option-cases, saturating_add16, arith,
}
use meshrustic.Routing.Graph.Downstream.{Table, ChainEgress, relay_and_cost, follow, chain_egress}

module _ (t : Table) (now_ms ttl_ms : ℕ) (is_egress : ℕ → Bool) where
  -- The cheapest relays one after the other, from the one of `from` on, with the last node and the
  -- sum of the costs: each is new, and none before the last is an egress.
  pub data Chain (from : ℕ) : List ℕ → ℕ → ℕ → Type 0 where
    start : Chain from [] from 0
    hop :
        {seen : List ℕ} {cur cost : ℕ} (relay hop_cost : ℕ)
        → Chain from seen cur cost
        → any is_egress seen ≡ false
        → relay_and_cost t cur now_ms ttl_ms ≡ some (relay, hop_cost)
        → (relay == 0 || relay == cur) ≡ false
        → any (λ s. s == relay) seen ≡ false
        → Chain from (seen ++ (relay ∷ [])) relay (saturating_add16 cost hop_cost)

  any-append :
      (p : ℕ → Bool) (xs : List ℕ) (x : ℕ)
      → any p xs ≡ false
      → p x ≡ false
      → any p (xs ++ (x ∷ [])) ≡ false
  any-append p [] x h k = ground arith
  any-append p (y ∷ xs) x h k = ground (arith, any-append p xs x)

  any-last : (p : ℕ → Bool) (xs : List ℕ) (x : ℕ) → any p (xs ++ (x ∷ [])) ≡ false → p x ≡ false
  any-last p [] x h = ground arith
  any-last p (y ∷ xs) x h = any-last p xs x (ground arith)

  follow-end :
      (cur cost : ℕ) (seen : List ℕ) → follow t now_ms ttl_ms is_egress 0 cur seen cost ≡ none
  unfolding follow
  follow-end cur cost seen = refl

  -- A chain from `from` that ends at the egress `c`.
  pub record IsChainTo (from : ℕ) (c : ChainEgress) : Type 0 where
    pub relays : List ℕ
    pub chain : Chain from relays c.node c.cost_fixed
    pub hops_made : length relays ≡ c.hops
    pub some_hop : 1 ≤ c.hops
    pub at_most : c.hops ≤ 16
    pub at_egress : is_egress c.node ≡ true

  -- What one round of the loop does with the cheapest relay.
  abbrev round : ℕ → ℕ → ℕ → List ℕ → ℕ → Option ChainEgress
  round left relay hops seen cost =
      let on = follow t now_ms ttl_ms is_egress left relay seen cost in
      if is_egress relay
      then some (record { node = relay; hops = hops + 1; cost_fixed = cost })
      else on

  follow-round :
      (left cur cost : ℕ) (seen : List ℕ) (relay hop_cost : ℕ)
      → relay_and_cost t cur now_ms ttl_ms ≡ some (relay, hop_cost)
      → (relay == 0 || relay == cur) ≡ false
      → any (λ s. s == relay) seen ≡ false
      → follow t now_ms ttl_ms is_egress (suc left) cur seen cost
        ≡ round left relay (length seen) (seen ++ (relay ∷ [])) (saturating_add16 cost hop_cost)
  unfolding follow
  follow-round left cur cost seen relay hop_cost best good new = rw (best, good, new, follow) refl

  follow-stops :
      (left cur cost : ℕ) (seen : List ℕ) (relay hop_cost : ℕ)
      → relay_and_cost t cur now_ms ttl_ms ≡ some (relay, hop_cost)
      → ((relay == 0 || relay == cur) || any (λ s. s == relay) seen) ≡ true
      → follow t now_ms ttl_ms is_egress (suc left) cur seen cost ≡ none
  unfolding follow
  follow-stops left cur cost seen relay hop_cost best bad =
      elim (Bool-cases (relay == 0 || relay == cur)) [
        | inl same ↦ rw (best, same, follow) refl
        | inr other ↦
            let again : any (λ s. s == relay) seen ≡ true = ground arith in
            rw (best, other, again, follow) refl
      ]

  follow-nowhere :
      (left cur cost : ℕ) (seen : List ℕ)
      → relay_and_cost t cur now_ms ttl_ms ≡ none
      → follow t now_ms ttl_ms is_egress (suc left) cur seen cost ≡ none
  unfolding follow
  follow-nowhere left cur cost seen nothing = rw (nothing, follow) refl

  IsChainTo-end :
      (from relay cost hops : ℕ) (seen : List ℕ) (c : ChainEgress)
      → Chain from seen relay cost
      → length seen ≡ hops
      → 1 ≤ hops
      → hops ≤ 16
      → is_egress relay ≡ true
      → some (record { node = relay; hops = hops; cost_fixed = cost }) ≡ some c
      → IsChainTo from c
  IsChainTo-end from relay cost hops seen c ch len low high done e =
      let same : record { node = relay; hops = hops; cost_fixed = cost } ≡ c = cc in
      subst (λ x. IsChainTo from x) same
        (record {
          relays = seen;
          chain = ch;
          hops_made = len;
          some_hop = low;
          at_most = high;
          at_egress = done;
        })

  follow-IsChainTo :
      (from left cur cost : ℕ) (seen : List ℕ) (c : ChainEgress)
      → Chain from seen cur cost
      → any is_egress seen ≡ false
      → length seen + left ≡ 16
      → follow t now_ms ttl_ms is_egress left cur seen cost ≡ some c
      → IsChainTo from c
  follow-IsChainTo from zero cur cost seen c ch before len h =
      absurd (cc (follow-end cur cost seen))
  follow-IsChainTo from (suc left) cur cost seen c ch before len h =
      elim (Option-cases (relay_and_cost t cur now_ms ttl_ms)) [
        | inl nothing ↦ absurd (cc (follow-nowhere left cur cost seen nothing))
        | inr ((relay, hop_cost), best) ↦ elim (Bool-cases (relay == 0 || relay == cur)) [
          | inl bad ↦
              absurd (cc (follow-stops left cur cost seen relay hop_cost best (ground arith)))
          | inr good ↦ elim (Bool-cases (any (λ s. s == relay) seen)) [
            | inl again ↦
                absurd (cc (follow-stops left cur cost seen relay hop_cost best (ground arith)))
            | inr new ↦
                let ch' = hop relay hop_cost ch before best good new in
                let at : round left relay (length seen) (seen ++ (relay ∷ []))
                      (saturating_add16 cost hop_cost)
                    ≡ some c =
                  sym (follow-round left cur cost seen relay hop_cost best good new) ∙ h in
                elim (Bool-cases (is_egress relay)) [
                  | inl done ↦
                      IsChainTo-end from relay _ (length seen + 1) (seen ++ (relay ∷ [])) c ch'
                        (length-append seen (relay ∷ [])) (omega arith) (omega arith) done
                        (sym (if-true _ _ done) ∙ at)
                  | inr going ↦
                      follow-IsChainTo from left relay (saturating_add16 cost hop_cost)
                        (seen ++ (relay ∷ [])) c ch' (any-append is_egress seen relay before going)
                        (omega (arith, length-append seen (relay ∷ [])))
                        (sym (if-false _ _ going) ∙ at)
                ]
          ]
        ]
      ]

  Chain-follow :
      {from cur cost : ℕ} {seen : List ℕ} (left : ℕ)
      → Chain from seen cur cost
      → any is_egress seen ≡ false
      → length seen + left ≡ 16
      → follow t now_ms ttl_ms is_egress 16 from [] 0
        ≡ follow t now_ms ttl_ms is_egress left cur seen cost
  Chain-follow left start before len = let all : left ≡ 16 = omega arith in rw (all) refl
  Chain-follow left
        (hop {seen = seen} {cur = cur} {cost = cost} relay hop_cost ch earlier best good new) before
        len =
      let len' : length seen + suc left ≡ 16 =
        omega (arith, len, length-append seen (relay ∷ [])) in
      Chain-follow (suc left) ch earlier len'
      ∙ follow-round left cur cost seen relay hop_cost best good new
      ∙ if-false _ _ (any-last is_egress seen relay before)

  Chain-follow_end :
      {from node hops cost : ℕ} (relays : List ℕ)
      → Chain from relays node cost
      → length relays ≡ hops
      → 1 ≤ hops
      → hops ≤ 16
      → is_egress node ≡ true
      → follow t now_ms ttl_ms is_egress 16 from [] 0
        ≡ some (record { node = node; hops = hops; cost_fixed = cost })
  Chain-follow_end [] start len low high done = absurd (omega arith)
  Chain-follow_end {hops = hops} _
        (hop {seen = seen} {cur = cur} {cost = cost} relay hop_cost ch earlier best good new) len
        low high done =
      let count : length seen + 1 ≡ hops = omega (arith, len, length-append seen (relay ∷ [])) in
      Chain-follow (suc (16 - hops)) ch earlier (omega arith)
      ∙ follow-round (16 - hops) cur cost seen relay hop_cost best good new
      ∙ if-true _ _ done
      ∙ ap
          (λ n.
            some (record { node = relay; hops = n; cost_fixed = saturating_add16 cost hop_cost }))
          count

  -- `chain_egress` answers with `c` exactly when there is a chain of the cheapest relays from the
  -- destination, which is not 0, to the egress `c.node`: of at least one and at most 16 hops, no relay
  -- twice, none 0 or the node before it, none an egress before the last; `c` has its number of hops
  -- and the sum of its costs, which stops at 65535.
  pub chain_egress_lem :
      (destination : ℕ) (c : ChainEgress)
      → (chain_egress t now_ms ttl_ms is_egress destination ≡ some c)
        ↔ ((destination ≢ 0) × IsChainTo destination c)
  unfolding chain_egress
  chain_egress_lem destination c = (found, back)
    where
      found :
          chain_egress t now_ms ttl_ms is_egress destination ≡ some c
          → (destination ≢ 0) × IsChainTo destination c
      found h = elim (Bool-cases (destination == 0)) [
        | inl nobody ↦
            absurd (cc (if-true none (follow t now_ms ttl_ms is_egress 16 destination [] 0) nobody))
        | inr somebody ↦ (
          ground arith,
          follow-IsChainTo destination 16 destination 0 [] c start refl (omega arith) (
              sym (if-false none (follow t now_ms ttl_ms is_egress 16 destination [] 0) somebody)
              ∙ h),
        )
      ]

      back :
          (destination ≢ 0) × IsChainTo destination c
          → chain_egress t now_ms ttl_ms is_egress destination ≡ some c
      back (named, to) =
          if-false none (follow t now_ms ttl_ms is_egress 16 destination [] 0) (ground arith)
          ∙ Chain-follow_end to.relays to.chain to.hops_made to.some_hop to.at_most to.at_egress
