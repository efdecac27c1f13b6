-- ===== src/Routing/Graph/Downstream/Sweep.antt =====
-- What the removals of crates/mesh-routing/src/graph/downstream.rs keep.
use meshrustic.Base.{
  ℕ, ◌≤◌, ◌≡◌, ◌+◌, refl, ◌↔◌, Bool, true, false, not, ◌&&◌, ◌||◌, List, [], ◌∷◌, ltb, length,
  count_if, inl, inr, Bool-cases, wrapping_sub, sweep, count_if-sweep, arith,
}
use meshrustic.Routing.Graph.Downstream.{Table, DownstreamEntry, blank, age}

module _ {ℓ} {A : Type ℓ} where
  pub count_if_mono :
      (p q : A → Bool) (t : List A)
      → ((x : A) → p x ≡ true → q x ≡ true)
      → count_if p t ≤ count_if q t
  count_if_mono p q [] sub = omega arith
  count_if_mono p q (x ∷ t) sub =
      let others = count_if_mono p q t sub in
      elim (Bool-cases (p x)) [
        | inl hit ↦ ground (arith, others, sub x hit)
        | inr miss ↦ ground (arith, others)
      ]

  pub count_if_cong :
      (p q : A → Bool) (t : List A) → ((x : A) → p x ≡ q x) → count_if p t ≡ count_if q t
  count_if_cong p q [] same = refl
  count_if_cong p q (x ∷ t) same = ground (arith, count_if_cong p q t same, same x)

  pub count_if-true : (t : List A) → count_if (λ _. true) t ≡ length t
  count_if-true [] = refl
  count_if-true (x ∷ t) = omega (arith, count_if-true t)

  pub count_if-not :
      (p : A → Bool) (t : List A) → count_if p t + count_if (λ x. not (p x)) t ≡ length t
  count_if-not p [] = omega arith
  count_if-not p (x ∷ t) = ground (arith, count_if-not p t)

  pub count_if-sweep_all :
      (blank : A) (gone q : A → Bool) (t : List A)
      → count_if q (sweep blank gone (length t) 0 t) ≡ count_if (λ e. q e && not (gone e)) t
  count_if-sweep_all blank gone q t =
      count_if-sweep gone q blank (length t) 0 t (omega arith) (λ j lt. absurd (omega arith))

  pub length-sweep :
      (blank : A) (gone : A → Bool) (t : List A)
      → length (sweep blank gone (length t) 0 t) + count_if gone t ≡ length t
  length-sweep blank gone t = omega (
    arith,
    count_if-true (sweep blank gone (length t) 0 t),
    count_if-sweep_all blank gone (λ _. true) t,
    count_if-not gone t,
  )

  pub count_if-sweep_le :
      (blank : A) (gone q : A → Bool) (t : List A)
      → count_if q (sweep blank gone (length t) 0 t) ≤ count_if q t
  count_if-sweep_le blank gone q t = ground (
    arith,
    count_if-sweep_all blank gone q t,
    count_if_mono (λ e. q e && not (gone e)) q t (λ x h. ground arith),
  )

-- The entry has expired, or its relay has left the graph.
unfoldable pub is_lost : ℕ → ℕ → (ℕ → Bool) → DownstreamEntry → Bool
is_lost now_ms ttl_ms relay_in_graph e =
    ltb ttl_ms (wrapping_sub now_ms e.last_update_ms) || not (relay_in_graph e.relay)

-- Ageing keeps an entry, as often as it was there, exactly when it has been updated within the time to
-- live and its relay is in the graph, and it reports a change exactly when an entry went.
pub age_lem :
    (t : Table) (now_ms ttl_ms : ℕ) (relay_in_graph : ℕ → Bool) (q : DownstreamEntry → Bool)
    → let lost = is_lost now_ms ttl_ms relay_in_graph in
      (count_if q (age t now_ms ttl_ms relay_in_graph).1 ≡ count_if (λ e. q e && not (lost e)) t)
      × (((age t now_ms ttl_ms relay_in_graph).0 ≡ false) ↔ (count_if lost t ≡ 0))
unfolding age is_lost
age_lem t now_ms ttl_ms relay_in_graph q =
    let lost = is_lost now_ms ttl_ms relay_in_graph in
    (count_if-sweep_all blank lost q t, ground (arith, length-sweep blank lost t))
