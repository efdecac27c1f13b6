-- ===== src/Routing/RateLimit/Young.antt =====
-- The nodes that the limiter met a short while ago (`young`) and those it takes for established
-- (`alumni`).
use meshrustic.Base.{
  ℕ, ◌+◌, ◌-◌, Bool, true, false, not, ◌&&◌, ◌||◌, Option, none, some, List, [], ◌∷◌, ◌++◌, ◌==◌,
  leb, ltb, if◌then◌else◌, length, get_or, set, take, any, position, is_some, wrapping_sub,
}
use meshrustic.Routing.RateLimit.Types.{
  YoungSighting, NodeRateLimiter, max_young, max_alumni, young_age_ms, warmup_ms,
}

abbrev pub no_sighting : YoungSighting
no_sighting = record { node_id = 0; first_seen_ms = 0; graduated = false }

unfoldable pub note_boot : NodeRateLimiter → ℕ → NodeRateLimiter
note_boot l now_ms = if l.boot_known then l else record l { boot_ms = now_ms; boot_known = true }

unfoldable pub warmed_up : NodeRateLimiter → ℕ → Bool × NodeRateLimiter
warmed_up l now_ms =
    let warm =
      if l.boot_known && leb warmup_ms (wrapping_sub now_ms l.boot_ms)
      then true
      else l.boot_warmed in
    (warm, record l { boot_warmed = warm })

unfoldable pub find_young : NodeRateLimiter → ℕ → Option ℕ
find_young l node_id = position (λ e. e.node_id == node_id) l.young

unfoldable pub in_alumni : NodeRateLimiter → ℕ → Bool
in_alumni l node_id = any (λ a. a == node_id) l.alumni

unfoldable pub add_alumni : NodeRateLimiter → ℕ → Bool × NodeRateLimiter
add_alumni l node_id =
    if in_alumni l node_id
    then (true, l)
    else if leb max_alumni (length l.alumni)
    then (false, l)
    else (true, record l { alumni = l.alumni ++ (node_id ∷ []) })

-- The last sighting moves to the place that is given up.
unfoldable pub remove_young_at : NodeRateLimiter → ℕ → NodeRateLimiter
remove_young_at l i =
    let last = length l.young - 1 in
    let moved = if ltb i last then set l.young i (get_or l.young last no_sighting) else l.young in
    record l { young = take last moved }

-- Whether the sighting is still young, and the sighting with its `graduated` cell set if it is not.
unfoldable pub young_age_active : YoungSighting → ℕ → Bool × YoungSighting
young_age_active s now_ms =
    let graduated =
      if leb young_age_ms (wrapping_sub now_ms s.first_seen_ms) then true else s.graduated in
    (not graduated, record s { graduated = graduated })

-- The loop of `active_young_count`.
unfoldable pub count_active : List YoungSighting → ℕ → ℕ × List YoungSighting
count_active [] now_ms = (0, [])
count_active (s ∷ rest) now_ms =
    let (active, s') = young_age_active s now_ms in
    let (n, rest') = count_active rest now_ms in ((if active then 1 else 0) + n, s' ∷ rest')

unfoldable pub active_young_count : NodeRateLimiter → ℕ → ℕ × NodeRateLimiter
active_young_count l now_ms =
    let (n, young) = count_active l.young now_ms in (n, record l { young = young })

unfoldable pub young_table_full : NodeRateLimiter → ℕ → Bool × NodeRateLimiter
young_table_full l now_ms = let (n, l') = active_young_count l now_ms in (leb max_young n, l')

-- `position` stops at the first sighting that is not young, the only one whose cell changes.
unfoldable pub find_aged : List YoungSighting → ℕ → Option ℕ × List YoungSighting
find_aged [] now_ms = (none, [])
find_aged (s ∷ rest) now_ms =
    let (active, s') = young_age_active s now_ms in
    let later = find_aged rest now_ms in
    if active
    then (elim later.0 [ none ↦ none | some i ↦ some (i + 1) ], s' ∷ later.1)
    else (some 0, s' ∷ rest)

unfoldable pub find_aged_young : NodeRateLimiter → ℕ → Option ℕ × NodeRateLimiter
find_aged_young l now_ms =
    let (found, young) = find_aged l.young now_ms in (found, record l { young = young })

-- The sighting at an index looked at, with its cell.
abbrev pub look_at : NodeRateLimiter → ℕ → ℕ → Bool × NodeRateLimiter
look_at l i now_ms =
    let (active, s) = young_age_active (get_or l.young i no_sighting) now_ms in
    (active, record l { young = set l.young i s })

unfoldable pub expire_if_old : NodeRateLimiter → ℕ → ℕ → NodeRateLimiter
expire_if_old l node_id now_ms = elim (find_young l node_id) [
  | none ↦ l
  | some i ↦
      let (active, l1) = look_at l i now_ms in
      if active
      then l1
      else let (added, l2) = add_alumni l1 node_id in if added then remove_young_at l2 i else l2
]

unfoldable pub insert_young : NodeRateLimiter → ℕ → ℕ → NodeRateLimiter
insert_young l node_id now_ms = if leb max_young (length l.young) then l else record l {
  young = l.young ++ (record { node_id = node_id; first_seen_ms = now_ms; graduated = false } ∷ []);
}

-- The part of `note_originator` for a node that is not known and arrives after the warm-up.
unfoldable pub admit_young : NodeRateLimiter → ℕ → ℕ → NodeRateLimiter
admit_young l node_id now_ms =
    if ltb (length l.young) max_young
    then insert_young l node_id now_ms
    else let (aged, l1) = find_aged_young l now_ms in
      elim aged [
        | none ↦ l1
        | some i ↦
            let old = (get_or l1.young i no_sighting).node_id in
            let l2 = (add_alumni l1 old).1 in insert_young (remove_young_at l2 i) node_id now_ms
      ]

unfoldable pub note_originator : NodeRateLimiter → ℕ → ℕ → NodeRateLimiter
note_originator l node_id now_ms =
    let l1 = expire_if_old l node_id now_ms in
    if is_some (find_young l1 node_id) || in_alumni l1 node_id
    then l1
    else let (warm, l2) = warmed_up l1 now_ms in
      if warm then admit_young l2 node_id now_ms else (add_alumni l2 node_id).1

unfoldable pub is_young : NodeRateLimiter → ℕ → ℕ → Bool × NodeRateLimiter
is_young l node_id now_ms = elim (find_young l node_id) [
  | some i ↦ look_at l i now_ms
  | none ↦
      if in_alumni l node_id
      then (false, l)
      else let (n, l') = active_young_count l now_ms in (leb max_young n, l')
]
