-- ===== src/Routing/HopHealth/Eviction.antt =====
-- Which entry a new pair takes, and that every other pair keeps its own.
use meshrustic.Base.{
  ℕ, zero, suc, ◌+◌, ◌≤◌, ◌<◌, ◌≡◌, refl, ◌≢◌, ◌∙◌, true, false, not, none, some, List, [], ◌∷◌,
  arith, leb, leb→le, position-le, get_or-set_self, sym, ◌⊎◌, length, length-set, get_or, set,
  position, position_sound, find?, find?-set_other, Option-cases, Bool-cases, inl, inr,
  wrapping_sub, saturating_add8,
}
use meshrustic.Routing.HopHealth.{
  HopHealth, HopHealthEntry, empty, max_hop_health, is_occupied, is_entry, expired, oldest, victim,
  record_miss,
}
use meshrustic.Routing.HopHealth.Misses.{IsValid, misses, is_entry-empty}
use meshrustic.Routing.HopHealth.Record.{
  record_miss-unknown, record_miss-old, record_miss-live, first_miss_of, raised_of,
}

abbrev pub age : ℕ → HopHealthEntry → ℕ
age now e = wrapping_sub now e.last_miss_ms

-- The result of the loop, with the largest age that it has met.
record Oldest (now : ℕ) (es : List HopHealthEntry) (i best b : ℕ) (r : ℕ) : Type 0 where
  pub most : ℕ
  pub start : b ≤ most
  pub all_le : (j : ℕ) → j < length es → age now (get_or es j empty) ≤ most
  pub from :
      ((r ≡ best) × (most ≡ b))
      ⊎ ((j : ℕ) × (j < length es) × (r ≡ i + j) × (age now (get_or es j empty) ≡ most))

older :
    (now : ℕ) (e : HopHealthEntry) (es : List HopHealthEntry) (i best b : ℕ) {r : ℕ}
    → b ≤ age now e
    → Oldest now es (i + 1) i (age now e) r
    → Oldest now (e ∷ es) i best b r
older now e es i best b {r} le o = record {
  most = o.most;
  start = omega (arith, o.start);
  all_le = λ j lt. first_or_rest j lt;
  from = inr (found o.from);
}
  where
    first_or_rest : (j : ℕ) → j < suc (length es) → age now (get_or (e ∷ es) j empty) ≤ o.most
    first_or_rest zero lt = o.start
    first_or_rest (suc j) lt = o.all_le j (omega arith)

    found :
        ((r ≡ i) × (o.most ≡ age now e))
          ⊎ ((j : ℕ) × (j < length es) × (r ≡ i + 1 + j) × (age now (get_or es j empty) ≡ o.most))
        → (j : ℕ) × (j < suc (length es))
          × (r ≡ i + j)
          × (age now (get_or (e ∷ es) j empty) ≡ o.most)
    found (inl (here, same)) = (0, omega arith, omega arith, sym same)
    found (inr (j, lt, at, same)) = (suc j, omega arith, omega arith, same)

younger :
    (now : ℕ) (e : HopHealthEntry) (es : List HopHealthEntry) (i best b : ℕ) {r : ℕ}
    → age now e ≤ b
    → Oldest now es (i + 1) best b r
    → Oldest now (e ∷ es) i best b r
younger now e es i best b {r} le o = record {
  most = o.most;
  start = o.start;
  all_le = λ j lt. first_or_rest j lt;
  from = shifted o.from;
}
  where
    first_or_rest : (j : ℕ) → j < suc (length es) → age now (get_or (e ∷ es) j empty) ≤ o.most
    first_or_rest zero lt = omega (arith, o.start)
    first_or_rest (suc j) lt = o.all_le j (omega arith)

    shifted :
        ((r ≡ best) × (o.most ≡ b))
          ⊎ ((j : ℕ) × (j < length es) × (r ≡ i + 1 + j) × (age now (get_or es j empty) ≡ o.most))
        → ((r ≡ best) × (o.most ≡ b))
          ⊎ ((j : ℕ) × (j < suc (length es))
              × (r ≡ i + j)
              × (age now (get_or (e ∷ es) j empty) ≡ o.most))
    shifted (inl kept) = inl kept
    shifted (inr (j, lt, at, same)) = inr (suc j, omega arith, omega arith, same)

oldest-Oldest :
    (now : ℕ) (es : List HopHealthEntry) (i best b : ℕ)
    → Oldest now es i best b (oldest now es i best b)
unfolding oldest
oldest-Oldest now [] i best b = record {
  most = b;
  start = omega arith;
  all_le = λ j lt. absurd (omega arith);
  from = inl (refl, refl);
}
oldest-Oldest now (e ∷ es) i best b = elim (Bool-cases (leb b (age now e))) [
  | inl better ↦ rw better (
      older now e es i best b (leb→le b (age now e) better)
        (oldest-Oldest now es (i + 1) i (age now e)))
  | inr not_better ↦
      rw not_better (younger now e es i best b (ground arith) (oldest-Oldest now es (i + 1) best b))
]

oldest_lem :
    (now : ℕ) (es : List HopHealthEntry) (r j : ℕ)
    → j < length es
    → Oldest now es 0 0 0 r
    → age now (get_or es j empty) ≤ age now (get_or es r empty)
oldest_lem now es r j lt o = from_end o.from
  where
    from_end :
        ((r ≡ 0) × (o.most ≡ 0))
          ⊎ ((k : ℕ) × (k < length es) × (r ≡ 0 + k) × (age now (get_or es k empty) ≡ o.most))
        → age now (get_or es j empty) ≤ age now (get_or es r empty)
    from_end (inl (here, none_older)) = omega (arith, o.all_le j lt)
    from_end (inr (k, in_range, at, same)) =
        let here : r ≡ k = omega arith in rw here (rw same (o.all_le j lt))

-- In a full table a new pair takes the place of an entry whose last miss is the longest ago, counted
-- round the clock's wrap; while a place is free it takes the first free one.
pub victim_lem :
    (h : HopHealth) (now j : ℕ)
    → length h.entries ≡ max_hop_health
    → j < max_hop_health
    → ((position (λ e. not (is_occupied e)) h.entries ≡ some (victim h now))
        × (is_occupied (get_or h.entries (victim h now) empty) ≡ false))
      ⊎ ((position (λ e. not (is_occupied e)) h.entries ≡ none)
          × (age now (get_or h.entries j empty) ≤ age now (get_or h.entries (victim h now) empty)))
unfolding victim
victim_lem h now j size lt = elim (Option-cases (position (λ e. not (is_occupied e)) h.entries)) [
  | inr (i, free) ↦
      inl (
        ground arith,
        ground (arith, position_sound (λ e. not (is_occupied e)) h.entries empty free),
      )
  | inl full ↦
      let r = oldest now h.entries 0 0 0 in
      let at : victim h now ≡ r = ground arith in
      let le = oldest_lem now h.entries r j (omega arith) (oldest-Oldest now h.entries 0 0 0) in
      inr (full, rw at le)
]

not_other : (d n m t d' n' : ℕ) → ((d ≢ d') ⊎ (n ≢ n')) → is_entry d' n' (raised_of d n t m) ≡ false
unfolding is_entry
not_other d n m t d' n' other = ground arith

distinct :
    (d n d' n' : ℕ) (e : HopHealthEntry)
    → ((d ≢ d') ⊎ (n ≢ n'))
    → is_entry d n e ≡ true
    → is_entry d' n' e ≡ false
unfolding is_entry
distinct d n d' n' e other here = ground arith

-- Where an entry has just been cleared, the place taken is a free one.
victim_of_cleared :
    (h : HopHealth) (i now d n : ℕ)
    → length h.entries ≡ max_hop_health
    → i < length h.entries
    → let cleared : HopHealth = record h { entries = set h.entries i empty } in
      is_entry d n (get_or cleared.entries (victim cleared now) empty) ≡ false
unfolding is_entry is_occupied
victim_of_cleared h i now d n size lt =
    let cleared : HopHealth = record h { entries = set h.entries i empty } in
    let (k, free, _) =
      position-le (λ e. not (is_occupied e)) cleared.entries empty i
        (omega (arith, length-set h.entries i empty))
        (rw (get_or-set_self h.entries i empty empty lt) refl) in
    elim (victim_lem cleared now i (length-set h.entries i empty ∙ size) (omega arith)) [
      | inl (_, unoccupied) ↦ ground (arith, unoccupied)
      | inr (full, _) ↦ absurd (ground arith)
    ]

-- In a valid table, a miss of a next hop towards a destination, neither of them 0, leaves the entry of
-- every other pair, unless that entry stands at the place that `victim` names.
pub record_miss-other :
    (h : HopHealth) (d n now d' n' : ℕ)
    → IsValid h
    → d ≢ 0
    → n ≢ 0
    → ((d ≢ d') ⊎ (n ≢ n'))
    → is_entry d' n' (get_or h.entries (victim h now) empty) ≡ false
    → find? (is_entry d' n') (record_miss h d n now).1.entries ≡ find? (is_entry d' n') h.entries
record_miss-other h d n now d' n' v hd hn other safe =
    elim (Option-cases (position (is_entry d n) h.entries)) [
      | inl unknown ↦ rw ((record_miss-unknown h d n now hd hn unknown).0) (
          find?-set_other (is_entry d' n') h.entries (victim h now) (first_miss_of d n now) empty
            (not_other d n 1 now d' n' other) safe)
      | inr (i, hit) ↦
          let here = (position_sound (is_entry d n) h.entries empty hit).1 in
          let not_here = distinct d n d' n' (get_or h.entries i empty) other here in
          elim (Bool-cases (expired now (get_or h.entries i empty))) [
            | inl old ↦
                let cleared : HopHealth = record h { entries = set h.entries i empty } in
                rw ((record_miss-old h d n now hd hn i hit old).0) (
                  find?-set_other (is_entry d' n') cleared.entries (victim cleared now)
                    (first_miss_of d n now) empty (not_other d n 1 now d' n' other)
                    (victim_of_cleared h i now d' n' v.size
                      (position_sound (is_entry d n) h.entries empty hit).0)
                  ∙ find?-set_other (is_entry d' n') h.entries i empty empty (is_entry-empty d' n')
                      not_here)
            | inr live ↦
                let m = saturating_add8 (misses h d n now) 1 in
                rw ((record_miss-live h d n now hd hn i hit live).0) (
                  find?-set_other (is_entry d' n') h.entries i (raised_of d n now m) empty
                    (not_other d n m now d' n' other) not_here)
          ]
    ]
