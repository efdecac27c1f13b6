-- ===== src/Routing/Graph/Downstream/Lookup.antt =====
-- What an update leaves to be found (crates/mesh-routing/src/graph/downstream.rs, `upsert_entry`).
use meshrustic.Base.{
  ℕ, ◌<◌, ◌≡◌, ◌⊎◌, refl, ◌∙◌, Bool, true, false, Option, none, some, [], ◌∷◌, ◌++◌, ltb,
  if◌then◌else◌, is_some, length, get_or, find?, position, position_sound, find?-position,
  find?-none, find?-set_hit, find?-set_other, inl, inr, Bool-cases, Option-cases, arith,
}
use meshrustic.Routing.Graph.Downstream.{Table, DownstreamEntry, blank, is_pair, upsert_entry}
use meshrustic.Routing.Graph.Downstream.Entries.{merged}

-- The entry for a destination and a relay after `new` has been entered.
unfoldable pub found_after : Table → DownstreamEntry → ℕ → ℕ → Option DownstreamEntry
found_after t new destination relay =
    let before = find? (is_pair destination relay) t in
    if is_pair destination relay new
    then some (elim before [ none ↦ new | some old ↦ merged old new ])
    else before

find?-append :
    (p : DownstreamEntry → Bool) (t : Table) (e : DownstreamEntry)
    → find? p (t ++ (e ∷ []))
      ≡ elim (find? p t) [ none ↦ if p e then some e else none | some old ↦ some old ]
find?-append p [] e = elim (Bool-cases (p e)) [
  | inl here ↦ rw (here) refl
  | inr gone ↦ rw (gone) refl
]
find?-append p (x ∷ t) e = elim (Bool-cases (p x)) [
  | inl here ↦ rw (here) refl
  | inr gone ↦ rw (gone) (find?-append p t e)
]

find?-append_other :
    (p : DownstreamEntry → Bool) (t : Table) (e : DownstreamEntry)
    → p e ≡ false
    → find? p (t ++ (e ∷ [])) ≡ find? p t
find?-append_other p [] e other = rw (other) refl
find?-append_other p (x ∷ t) e other = elim (Bool-cases (p x)) [
  | inl here ↦ rw (here) refl
  | inr gone ↦ rw (gone) (find?-append_other p t e other)
]

-- A pair that `new` has is its own pair.
own_pair :
    (new : DownstreamEntry) (destination relay : ℕ) (t : Table)
    → is_pair destination relay new ≡ true
    → position (is_pair destination relay) t ≡ position (is_pair new.destination new.relay) t
own_pair new destination relay t same =
    let to : new.destination ≡ destination = ground arith in
    let via : new.relay ≡ relay = ground arith in rw (to, via) refl

same_pair :
    (new old : DownstreamEntry) (destination relay : ℕ)
    → is_pair destination relay new ≡ true
    → is_pair new.destination new.relay old ≡ true
    → is_pair destination relay old ≡ true
same_pair new old destination relay same hit = ground arith

other_pair :
    (new old : DownstreamEntry) (destination relay : ℕ)
    → is_pair destination relay new ≡ false
    → is_pair new.destination new.relay old ≡ true
    → is_pair destination relay old ≡ false
other_pair new old destination relay other same = ground arith

-- With room for one more entry, or with an entry for the pair of `new`, an update is found under that
-- pair, with `list_learned` kept when it was set, and every other pair is found as before.
pub upsert_entry_lem :
    (t : Table) (new : DownstreamEntry) (destination relay : ℕ)
    → (length t < 900) ⊎ (is_some (position (is_pair new.destination new.relay) t) ≡ true)
    → find? (is_pair destination relay) (upsert_entry t new) ≡ found_after t new destination relay
unfolding upsert_entry found_after
upsert_entry_lem t new destination relay room =
    let p = is_pair destination relay in
    elim (Option-cases (position (is_pair new.destination new.relay) t)) [
      | inl missing ↦
          let fits : ltb (length t) 900 ≡ true = ground arith in
          elim (Bool-cases (p new)) [
            | inl same ↦
                let none_yet = find?-none p t (own_pair new destination relay t same ∙ missing) in
                rw (missing, fits, upsert_entry, find?-append p t new, none_yet, same) refl
            | inr other ↦ rw (missing, fits, upsert_entry, other) (find?-append_other p t new other)
          ]
      | inr (i, found) ↦
          let (lt, hit) = position_sound (is_pair new.destination new.relay) t blank found in
          let old = get_or t i blank in
          elim (Bool-cases (p new)) [
            | inl same ↦
                let own : p (merged old new) ≡ true =
                  same_pair new old destination relay same hit in
                let at = own_pair new destination relay t same ∙ found in
                rw
                  (
                    found,
                    upsert_entry,
                    find?-set_hit p t i (merged old new) at own,
                    find?-position p t i blank at,
                    same,
                  )
                  refl
            | inr other ↦
                let old_other = other_pair new old destination relay other hit in
                rw (found, upsert_entry, other)
                  (find?-set_other p t i (merged old new) blank old_other old_other)
          ]
    ]
