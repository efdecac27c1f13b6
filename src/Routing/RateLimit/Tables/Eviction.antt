-- ===== src/Routing/RateLimit/Tables/Eviction.antt =====
-- Which entry of a full table gives way: never a limited one, and of the others one of the highest
-- rank.
use meshrustic.Base.{
  ℕ, zero, suc, ◌+◌, ◌<◌, ◌≡◌, refl, ap, ◌∙◌, true, false, not, ◌&&◌, Option, none, some, List, [],
  ◌∷◌, arith, length, get_or, Bool-cases, inl, inr, ◌⊎◌,
}
use meshrustic.Routing.RateLimit.Types.{GraphProximity}
use meshrustic.Routing.RateLimit.Tables.{
  Rank, rank_lt, lowest, Candidate, rank_of, best_from, eviction_candidate,
}

abbrev blank : Candidate
blank = (0, true, 0)

-- `a` does not stand above `b`.
abbrev pub NotAbove : Rank → Rank → Type 0
NotAbove a b = rank_lt b a ≡ false

not_above_trans : (a b c : Rank) → rank_lt b a ≡ false → rank_lt c b ≡ false → rank_lt c a ≡ false
not_above_trans a b c h k = ground arith

not_above_of_lt : (a b : Rank) → rank_lt a b ≡ true → rank_lt b a ≡ false
not_above_of_lt a b h = ground arith

not_above_refl : (a : Rank) → rank_lt a a ≡ false
not_above_refl a = ground arith

all_cons :
    (P : Candidate → Type 0) (c : Candidate) (rest : List Candidate)
    → P c
    → ((k : ℕ) → k < length rest → P (get_or rest k blank))
    → (k : ℕ) → k < length (c ∷ rest)
    → P (get_or (c ∷ rest) k blank)
all_cons P c rest here later zero lt = here
all_cons P c rest here later (suc k) lt = later k (omega arith)

module _ (proximity : ℕ → GraphProximity) where
  -- If the entry is not limited, then it does not stand above the rank.
  abbrev pub Below : Rank → Candidate → Type 0
  Below r c = c.1 ≡ false → NotAbove (rank_of proximity c) r

  abbrev pub AllBelow : List Candidate → Rank → Type 0
  AllBelow entries r = (k : ℕ) → k < length entries → Below r (get_or entries k blank)

  -- An entry that is not limited and that no such entry stands above.
  abbrev pub Best : List Candidate → ℕ → Type 0
  Best entries j =
      (j < length entries)
      × ((get_or entries j blank).1 ≡ false)
      × AllBelow entries (rank_of proximity (get_or entries j blank))

  abbrev pub AllLimited : List Candidate → Type 0
  AllLimited entries = (k : ℕ) → k < length entries → (get_or entries k blank).1 ≡ true

  -- What the loop has found: nothing, and then every entry is limited; or a best one.
  abbrev pub Chosen : List Candidate → Option ℕ → Type 0
  Chosen entries none = AllLimited entries
  Chosen entries (some i) = Best entries i

  -- The loop with an entry in hand keeps it, if it stands at the top, or gives a better one.
  best_from-some :
      (entries : List Candidate) (i b : ℕ) (r : Rank)
      → ((best_from proximity entries i (some b) r ≡ some b) × AllBelow entries r)
        ⊎ ((j : ℕ) × (best_from proximity entries i (some b) r ≡ some (i + j))
            × NotAbove r (rank_of proximity (get_or entries j blank))
            × Best entries j)
  unfolding best_from
  best_from-some [] i b r = inl (refl, λ k lt. absurd (omega arith))
  best_from-some (c ∷ rest) i b r =
      let rc = rank_of proximity c in
      elim (Bool-cases (not c.1 && rank_lt r rc)) [
        | inl better ↦ elim (best_from-some rest (i + 1) i rc) [
          | inl (kept, below) ↦ inr (
            0,
            rw better (kept ∙ ap some (omega arith)),
            not_above_of_lt r rc (ground arith),
            (omega arith, ground arith, all_cons (Below rc) c rest (λ _. not_above_refl rc) below),
          )
          | inr (j, found, above, (lt, free, below)) ↦
              let rj = rank_of proximity (get_or rest j blank) in
              inr (
                suc j,
                rw better (found ∙ ap some (omega arith)),
                not_above_trans r rc rj (not_above_of_lt r rc (ground arith)) above,
                (omega arith, free, all_cons (Below rj) c rest (λ _. above) below),
              )
        ]
        | inr worse ↦ elim (best_from-some rest (i + 1) b r) [
          | inl (kept, below) ↦
              inl (rw worse kept, all_cons (Below r) c rest (λ free. ground arith) below)
          | inr (j, found, above, (lt, free, below)) ↦
              let rj = rank_of proximity (get_or rest j blank) in
              inr (
                suc j,
                rw worse (found ∙ ap some (omega arith)),
                above,
                (
                  omega arith,
                  free,
                  all_cons (Below rj) c rest
                      (λ open_yet. not_above_trans rc r rj (ground arith) above) below,
                ),
              )
        ]
      ]

  best_from-none :
      (entries : List Candidate) (i : ℕ)
      → ((best_from proximity entries i none lowest ≡ none) × AllLimited entries)
        ⊎ ((j : ℕ) × (best_from proximity entries i none lowest ≡ some (i + j)) × Best entries j)
  unfolding best_from
  best_from-none [] i = inl (refl, λ k lt. absurd (omega arith))
  best_from-none (c ∷ rest) i =
      let rc = rank_of proximity c in
      elim (Bool-cases c.1) [
        | inl limited ↦ elim (best_from-none rest (i + 1)) [
          | inl (nothing, all) ↦
              inl (rw limited nothing, all_cons (λ d. d.1 ≡ true) c rest limited all)
          | inr (j, found, (lt, free, below)) ↦
              let rj = rank_of proximity (get_or rest j blank) in
              inr (
                suc j,
                rw limited (found ∙ ap some (omega arith)),
                (omega arith, free, all_cons (Below rj) c rest (λ open_yet. absurd (cc)) below),
              )
        ]
        | inr free ↦ elim (best_from-some rest (i + 1) i rc) [
          | inl (kept, below) ↦ inr (
            0,
            rw free (kept ∙ ap some (omega arith)),
            (omega arith, free, all_cons (Below rc) c rest (λ _. not_above_refl rc) below),
          )
          | inr (j, found, above, (lt, free', below)) ↦
              let rj = rank_of proximity (get_or rest j blank) in
              inr (
                suc j,
                rw free (found ∙ ap some (omega arith)),
                (omega arith, free', all_cons (Below rj) c rest (λ _. above) below),
              )
        ]
      ]

  -- If `eviction_candidate` names no entry then every entry is limited. The entry that it names is in
  -- range and not limited, and no entry that is not limited stands above it in the order of
  -- `(!in_graph, hops, age)`.
  pub eviction_candidate_lem :
      (entries : List Candidate) → Chosen entries (eviction_candidate proximity entries)
  unfolding eviction_candidate
  eviction_candidate_lem entries = elim (best_from-none entries 0) [
    | inl (nothing, all) ↦ rw nothing all
    | inr (j, found, best) ↦ rw (found ∙ ap some {x = 0 + j} {y = j} (omega arith)) best
  ]
