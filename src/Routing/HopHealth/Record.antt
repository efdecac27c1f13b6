-- ===== src/Routing/HopHealth/Record.antt =====
-- What a miss and a success record, in every case.
use meshrustic.Base.{
  ℕ, ◌+◌, ◌<◌, ◌≡◌, refl, ◌≢◌, ◌∙◌, true, false, not, none, some, List, [], ◌∷◌, arith, ◌==◌, leb,
  if◌then◌else◌, length, length-set, get_or, set, position, position_sound, find?, find?-position,
  find?-none, find?-set_hit, find?-set_miss, find?-set_unmatched, Option-cases, Bool-cases, inl,
  inr, wrapping_sub, saturating_add8,
}
use meshrustic.Routing.HopHealth.{
  HopHealth, HopHealthEntry, nothing, became_suspect, empty, suspect_misses, max_hop_health,
  is_occupied, is_entry, find, expired, find_live, oldest, victim, record_miss,
}
use meshrustic.Routing.HopHealth.Misses.{
  IsValid, misses, is_entry_keys, is_entry_self, is_entry-empty, find?-clear, Unique-set,
}

oldest-lt :
    (now : ℕ) (es : List HopHealthEntry) (i best age : ℕ)
    → best < i + length es
    → oldest now es i best age < i + length es
unfolding oldest
oldest-lt now [] i best age h = h
oldest-lt now (e ∷ es) i best age h =
    let age' = wrapping_sub now e.last_miss_ms in
    let better = leb age age' in
    omega (
      arith,
      oldest-lt now es (i + 1) (if better then i else best) (if better then age' else age)
          (ground arith),
    )

pub victim-lt :
    (h : HopHealth) (now : ℕ) → length h.entries ≡ max_hop_health → victim h now < max_hop_health
unfolding victim
victim-lt h now size = elim (Option-cases (position (λ e. not (is_occupied e)) h.entries)) [
  | inl full ↦ ground (arith, oldest-lt now h.entries 0 0 0)
  | inr (i, free) ↦ ground (arith, position_sound (λ e. not (is_occupied e)) h.entries empty free)
]

pub cleared-IsValid :
    (h : HopHealth) (i : ℕ) → IsValid h → IsValid (record h { entries = set h.entries i empty })
unfolding is_occupied
cleared-IsValid h i v = record {
  size = length-set h.entries i empty ∙ v.size;
  unique = Unique-set h.entries i empty v.unique (λ o. absurd (ground arith));
}

-- The entry of a pair with so many misses, the last now.
abbrev pub raised_of : ℕ → ℕ → ℕ → ℕ → HopHealthEntry
raised_of d n now m = record {
  destination = d;
  next_hop = n;
  consecutive_misses = m;
  last_miss_ms = now;
}

abbrev pub first_miss_of : ℕ → ℕ → ℕ → HopHealthEntry
first_miss_of d n now = raised_of d n now 1

-- An entry for a pair that has none.
module _ (h : HopHealth) (d n now : ℕ) (v : IsValid h) (hd : d ≢ 0) (hn : n ≢ 0) where
  abbrev first_miss : HopHealthEntry
  first_miss = first_miss_of d n now

  entered :
      find? (is_entry d n) h.entries ≡ none
      → (find? (is_entry d n) (set h.entries (victim h now) first_miss) ≡ some first_miss)
        × IsValid (record h { entries = set h.entries (victim h now) first_miss })
  entered miss = (
    find?-set_miss (is_entry d n) h.entries (victim h now) first_miss miss
        (is_entry_self d n 1 now hd hn) (omega (arith, victim-lt h now v.size)),
    record {
      size = length-set h.entries (victim h now) first_miss ∙ v.size;
      unique = Unique-set h.entries (victim h now) first_miss v.unique (λ o.
          find?-set_unmatched (is_entry d n) h.entries (victim h now) empty (is_entry-empty d n)
            miss);
    },
  )

  -- One more miss on an entry in place.
  abbrev raised : ℕ → HopHealthEntry
  raised i = raised_of d n now (saturating_add8 (get_or h.entries i empty).consecutive_misses 1)

  raised_lem :
      (i : ℕ)
      → position (is_entry d n) h.entries ≡ some i
      → (find? (is_entry d n) (set h.entries i (raised i)) ≡ some (raised i))
        × IsValid (record h { entries = set h.entries i (raised i) })
  raised_lem i hit = (
    find?-set_hit (is_entry d n) h.entries i (raised i) hit
        (is_entry_self d n (raised i).consecutive_misses now hd hn),
    record {
      size = length-set h.entries i (raised i) ∙ v.size;
      unique =
          Unique-set h.entries i (raised i) v.unique
            (λ o. find?-clear d n h.entries i v.unique hit);
    },
  )

-- The three ways of `record_miss`: no entry, one that is out of date, and a live one.
module _ (h : HopHealth) (d n now : ℕ) (hd : d ≢ 0) (hn : n ≢ 0) where
  pub record_miss-unknown :
      position (is_entry d n) h.entries ≡ none
      → (record_miss h d n now
          ≡ (nothing, record h { entries = set h.entries (victim h now) (first_miss_of d n now) }))
        × (misses h d n now ≡ 0)
  unfolding record_miss find_live find
  record_miss-unknown unknown =
      (ground arith, ground (arith, find?-none (is_entry d n) h.entries unknown))

  pub record_miss-old :
      (i : ℕ)
      → position (is_entry d n) h.entries ≡ some i
      → expired now (get_or h.entries i empty) ≡ true
      → let cleared : HopHealth = record h { entries = set h.entries i empty } in
        (record_miss h d n now ≡ (
          nothing,
          record cleared {
            entries = set cleared.entries (victim cleared now) (first_miss_of d n now);
          },
        ))
        × (misses h d n now ≡ 0)
  unfolding record_miss find_live find
  record_miss-old i hit old =
      (ground arith, ground (arith, find?-position (is_entry d n) h.entries i empty hit))

  pub record_miss-live :
      (i : ℕ)
      → position (is_entry d n) h.entries ≡ some i
      → expired now (get_or h.entries i empty) ≡ false
      → let m = saturating_add8 (misses h d n now) 1 in
        (record_miss h d n now ≡ (
          (if m == suspect_misses then became_suspect n d m else nothing),
          record h { entries = set h.entries i (raised_of d n now m) },
        ))
        × (misses h d n now ≡ (get_or h.entries i empty).consecutive_misses)
  unfolding record_miss find_live find
  record_miss-live i hit live =
      let (dest, hop, occupied) =
        is_entry_keys d n (get_or h.entries i empty)
          (position_sound (is_entry d n) h.entries empty hit).1 in
      let counted : misses h d n now ≡ (get_or h.entries i empty).consecutive_misses =
        ground (arith, find?-position (is_entry d n) h.entries i empty hit) in
      (ground (arith, counted), counted)

-- In a valid table, after a miss of a next hop towards a destination, neither of them 0, the pair has
-- an entry of this moment, with one miss more than counted before, up to 255, the event tells of a hop
-- that has just become suspect, and the table is valid.
pub record_miss_lem :
    (h : HopHealth) (d n now : ℕ)
    → IsValid h
    → d ≢ 0
    → n ≢ 0
    → let m = saturating_add8 (misses h d n now) 1 in
      let (event, h') = record_miss h d n now in
      (find? (is_entry d n) h'.entries
        ≡ some
            (record { destination = d; next_hop = n; consecutive_misses = m; last_miss_ms = now }))
      × (event ≡ (if m == suspect_misses then became_suspect n d m else nothing))
      × IsValid h'
record_miss_lem h d n now v hd hn = elim (Option-cases (position (is_entry d n) h.entries)) [
  | inl unknown ↦
      let (run, none_yet) = record_miss-unknown h d n now hd hn unknown in
      let (found, valid) =
        entered h d n now v hd hn (find?-none (is_entry d n) h.entries unknown) in
      rw (run, none_yet) (found, refl, valid)
  | inr (i, hit) ↦ elim (Bool-cases (expired now (get_or h.entries i empty))) [
    | inl old ↦
        let (run, none_yet) = record_miss-old h d n now hd hn i hit old in
        let (found, valid) =
          entered (record h { entries = set h.entries i empty }) d n now (cleared-IsValid h i v) hd
            hn (find?-clear d n h.entries i v.unique hit) in
        rw (run, none_yet) (found, refl, valid)
    | inr live ↦
        let (run, counted) = record_miss-live h d n now hd hn i hit live in
        let (found, valid) = raised_lem h d n now v hd hn i hit in
        rw (run, counted) (found, refl, valid)
  ]
]
