-- ===== src/Routing/HopHealth/Suspect.antt =====
-- When a next hop is suspect: after two misses close together, and never after a success.
use meshrustic.Base.{
  ℕ, ◌≤◌, ◌<◌, ◌≡◌, ◌≢◌, ◌∙◌, true, false, none, some, arith, leb, if◌then◌else◌, position, find?,
  find?-position, find?-none, Option-cases, inl, inr, wrapping_sub, saturating_add8,
}
use meshrustic.Routing.HopHealth.{
  HopHealth, nothing, became_healthy, empty, suspect_misses, suspect_ttl_ms, is_entry, find,
  expired, find_live, is_suspect, record_miss, record_success,
}
use meshrustic.Routing.HopHealth.Misses.{IsValid, misses, find?-clear}
use meshrustic.Routing.HopHealth.Record.{cleared-IsValid, record_miss_lem}

-- `is_suspect` answers whether two misses or more count against the pair, and keeps the table valid.
pub is_suspect_lem :
    (h : HopHealth) (d n now : ℕ)
    → IsValid h
    → d ≢ 0
    → n ≢ 0
    → let (answer, h') = is_suspect h d n now in
      (answer ≡ leb suspect_misses (misses h d n now)) × IsValid h'
unfolding is_suspect find_live find
is_suspect_lem h d n now v hd hn = elim (Option-cases (position (is_entry d n) h.entries)) [
  | inl unknown ↦ ground (arith, find?-none (is_entry d n) h.entries unknown)
  | inr (i, hit) ↦
      ground (arith, find?-position (is_entry d n) h.entries i empty hit, cleared-IsValid h i v)
]

-- In a valid table, a success of a next hop towards a destination, neither of them 0, removes the
-- entry of the pair and leaves the table valid; the event tells of a hop that was suspect (by the
-- misses recorded, whether or not they are out of date).
pub record_success_lem :
    (h : HopHealth) (d n : ℕ)
    → IsValid h
    → d ≢ 0
    → n ≢ 0
    → let (event, h') = record_success h d n in
      (find? (is_entry d n) h'.entries ≡ none)
      × (event ≡ elim (find? (is_entry d n) h.entries) [
        | none ↦ nothing
        | some e ↦ if leb suspect_misses e.consecutive_misses then became_healthy n d else nothing
      ])
      × IsValid h'
unfolding record_success find
record_success_lem h d n v hd hn = elim (Option-cases (position (is_entry d n) h.entries)) [
  | inl unknown ↦ ground (arith, find?-none (is_entry d n) h.entries unknown)
  | inr (i, hit) ↦ ground (
    arith,
    find?-position (is_entry d n) h.entries i empty hit,
    find?-clear d n h.entries i v.unique hit,
    cleared-IsValid h i v,
  )
]

two_or_more : (m : ℕ) → 2 ≤ m → leb suspect_misses m ≡ true
two_or_more m h = ground arith

misses_of_entry :
    (h : HopHealth) (d n now t m : ℕ)
    → find? (is_entry d n) h.entries
      ≡ some (record { destination = d; next_hop = n; consecutive_misses = m; last_miss_ms = t })
    → wrapping_sub now t < suspect_ttl_ms
    → misses h d n now ≡ m
unfolding expired
misses_of_entry h d n now t m e lt = ground (arith, e)

-- In a valid table, two misses of a next hop towards a destination, neither of them 0, the second
-- within the time to live of the first, make the hop suspect until the time to live of the second has
-- passed, whatever was recorded before.
pub is_suspect-record_miss :
    (h : HopHealth) (d n t1 t2 t3 : ℕ)
    → IsValid h
    → d ≢ 0
    → n ≢ 0
    → wrapping_sub t2 t1 < suspect_ttl_ms
    → wrapping_sub t3 t2 < suspect_ttl_ms
    → (is_suspect (record_miss (record_miss h d n t1).1 d n t2).1 d n t3).0 ≡ true
is_suspect-record_miss h d n t1 t2 t3 v hd hn soon later =
    let h1 = (record_miss h d n t1).1 in
    let h2 = (record_miss h1 d n t2).1 in
    let (entry1, _, v1) = record_miss_lem h d n t1 v hd hn in
    let (entry2, _, v2) = record_miss_lem h1 d n t2 v1 hd hn in
    let (answer, _) = is_suspect_lem h2 d n t3 v2 hd hn in
    let m = saturating_add8 (misses h d n t1) 1 in
    let first : misses h1 d n t2 ≡ m = misses_of_entry h1 d n t2 t1 m entry1 soon in
    let m' = saturating_add8 (misses h1 d n t2) 1 in
    let second : misses h2 d n t3 ≡ m' = misses_of_entry h2 d n t3 t2 m' entry2 later in
    answer ∙ two_or_more (misses h2 d n t3) (omega (arith, first, second))

-- In a valid table, a next hop that has just succeeded towards a destination, neither of them 0, is
-- not suspect, at any time asked.
pub is_suspect-record_success :
    (h : HopHealth) (d n t : ℕ)
    → IsValid h
    → d ≢ 0
    → n ≢ 0
    → (is_suspect (record_success h d n).1 d n t).0 ≡ false
is_suspect-record_success h d n t v hd hn =
    let h' = (record_success h d n).1 in
    let (gone, _, v') = record_success_lem h d n v hd hn in
    let (answer, _) = is_suspect_lem h' d n t v' hd hn in answer ∙ ground (arith, gone)
