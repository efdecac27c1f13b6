-- ===== src/Routing/RateLimit/Limiter/Sizes.antt =====
-- The tables of the limiter stay within the arrays of the code.
use meshrustic.Base.{
  ℕ, zero, suc, ◌-◌, ◌≤◌, ◌≡◌, refl, ap, arith, false, ◌||◌, Option, none, some, List, [], ◌∷◌, ltb,
  if◌then◌else◌, is_some, length, get_or, set, take, length-append, length-set, tests, Bool-cases,
  Option-cases, inl, inr,
}
use meshrustic.Routing.RateLimit.Types.{
  RateLimitEvent, YoungSighting, NodeRateLimiter, max_originators, max_relays, max_young,
  max_alumni, max_dests,
}
use meshrustic.Routing.RateLimit.Young.{
  note_boot, warmed_up, add_alumni, remove_young_at, young_age_active, count_active,
  active_young_count, find_young, in_alumni, look_at, find_aged, find_aged_young, expire_if_old,
  insert_young, admit_young, note_originator, is_young, no_sighting,
}
use meshrustic.Routing.RateLimit.Tables.{enter}
use meshrustic.Routing.RateLimit.Dests.{note_event}

abbrev pub Fits : NodeRateLimiter → Type 0
Fits l =
    (length l.originators ≤ max_originators)
    × (length l.relays ≤ max_relays)
    × (length l.young ≤ max_young)
    × (length l.alumni ≤ max_alumni)
    × (length l.dests ≤ max_dests)

pub enter-length {ℓ} :
    {A : Type ℓ} (room : ℕ) (entries : List A) (candidate : Option ℕ) (e : A)
    → length entries ≤ room
    → length (enter room entries candidate e).1 ≤ room
enter-length room entries candidate e fits = elim (Bool-cases (ltb (length entries) room)) [
  | inl has ↦ rw (enter, has) (omega (tests, length-append entries (e ∷ [])))
  | inr full ↦ elim (Option-cases candidate) [
    | inl n ↦ rw (enter, full, n) fits
    | inr (i, s) ↦ rw (enter, full, s) (omega (arith, length-set entries i e))
  ]
]

length-take_le {ℓ} : {A : Type ℓ} (n : ℕ) (xs : List A) → length (take n xs) ≤ n
length-take_le zero xs = omega arith
length-take_le (suc n) [] = omega arith
length-take_le (suc n) (x ∷ xs) = omega (arith, length-take_le n xs)

pub note_event-Fits :
    (l : NodeRateLimiter) (e : Option RateLimitEvent) → Fits l → Fits (note_event l e)
note_event-Fits l none fits = fits
note_event-Fits l (some e) fits = fits

pub note_boot-Fits : (l : NodeRateLimiter) (now : ℕ) → Fits l → Fits (note_boot l now)
unfolding note_boot
note_boot-Fits l now fits = ground arith

pub warmed_up-Fits : (l : NodeRateLimiter) (now : ℕ) → Fits l → Fits (warmed_up l now).1
unfolding warmed_up
warmed_up-Fits l now fits = fits

pub add_alumni-Fits : (l : NodeRateLimiter) (id : ℕ) → Fits l → Fits (add_alumni l id).1
unfolding add_alumni
add_alumni-Fits l id fits = ground (arith, length-append l.alumni (id ∷ []))

pub insert_young-Fits : (l : NodeRateLimiter) (id now : ℕ) → Fits l → Fits (insert_young l id now)
unfolding insert_young
insert_young-Fits l id now fits = ground (
  arith,
  length-append l.young (record { node_id = id; first_seen_ms = now; graduated = false } ∷ []),
)

pub remove_young_at-Fits : (l : NodeRateLimiter) (i : ℕ) → Fits l → Fits (remove_young_at l i)
unfolding remove_young_at
remove_young_at-Fits l i fits =
    let last = length l.young - 1 in
    let moved = if ltb i last then set l.young i (get_or l.young last no_sighting) else l.young in
    let shorter = length-take_le last moved in ground arith

pub look_at-Fits : (l : NodeRateLimiter) (i now : ℕ) → Fits l → Fits (look_at l i now).1
look_at-Fits l i now fits =
    let s = (young_age_active (get_or l.young i no_sighting) now).1 in
    omega (arith, fits, length-set l.young i s)

length-count_active :
    (young : List YoungSighting) (now : ℕ) → length (count_active young now).1 ≡ length young
unfolding count_active
length-count_active [] now = refl
length-count_active (s ∷ rest) now = ap suc (length-count_active rest now)

pub active_young_count-Fits :
    (l : NodeRateLimiter) (now : ℕ) → Fits l → Fits (active_young_count l now).1
unfolding active_young_count
active_young_count-Fits l now fits = omega (arith, fits, length-count_active l.young now)

length-find_aged :
    (young : List YoungSighting) (now : ℕ) → length (find_aged young now).1 ≡ length young
unfolding find_aged
length-find_aged [] now = refl
length-find_aged (s ∷ rest) now = ground (arith, length-find_aged rest now)

pub find_aged_young-Fits : (l : NodeRateLimiter) (now : ℕ) → Fits l → Fits (find_aged_young l now).1
unfolding find_aged_young
find_aged_young-Fits l now fits = omega (arith, fits, length-find_aged l.young now)

pub expire_if_old-Fits : (l : NodeRateLimiter) (id now : ℕ) → Fits l → Fits (expire_if_old l id now)
unfolding expire_if_old
expire_if_old-Fits l id now fits = elim (Option-cases (find_young l id)) [
  | inl miss ↦ rw (miss, expire_if_old) fits
  | inr (i, hit) ↦
      let l1 = (look_at l i now).1 in
      let l2 = (add_alumni l1 id).1 in
      let looked = look_at-Fits l i now fits in
      let added = add_alumni-Fits l1 id looked in
      elim (Bool-cases (look_at l i now).0) [
        | inl active ↦ rw (hit, expire_if_old, active) looked
        | inr aged ↦ elim (Bool-cases (add_alumni l1 id).0) [
          | inl taken ↦ rw (hit, expire_if_old, aged, taken) (remove_young_at-Fits l2 i added)
          | inr full ↦ rw (hit, expire_if_old, aged, full) added
        ]
      ]
]

pub admit_young-Fits : (l : NodeRateLimiter) (id now : ℕ) → Fits l → Fits (admit_young l id now)
unfolding admit_young
admit_young-Fits l id now fits = elim (Bool-cases (ltb (length l.young) max_young)) [
  | inl room ↦ rw (admit_young, room) (insert_young-Fits l id now fits)
  | inr full ↦
      let l1 = (find_aged_young l now).1 in
      let searched = find_aged_young-Fits l now fits in
      elim (Option-cases (find_aged_young l now).0) [
        | inl miss ↦ rw (admit_young, full, miss) searched
        | inr (i, hit) ↦
            let old = (get_or l1.young i no_sighting).node_id in
            let l2 = (add_alumni l1 old).1 in
            rw (admit_young, full, hit)
              (insert_young-Fits (remove_young_at l2 i) id now
                (remove_young_at-Fits l2 i (add_alumni-Fits l1 old searched)))
      ]
]

pub note_originator-Fits :
    (l : NodeRateLimiter) (id now : ℕ) → Fits l → Fits (note_originator l id now)
unfolding note_originator
note_originator-Fits l id now fits =
    let l1 = expire_if_old l id now in
    let l2 = (warmed_up l1 now).1 in
    let old = expire_if_old-Fits l id now fits in
    let warmed = warmed_up-Fits l1 now old in
    elim (Bool-cases (is_some (find_young l1 id) || in_alumni l1 id)) [
      | inl known ↦ rw (note_originator, known) old
      | inr new ↦ elim (Bool-cases (warmed_up l1 now).0) [
        | inl after ↦ rw (note_originator, new, after) (admit_young-Fits l2 id now warmed)
        | inr before ↦ rw (note_originator, new, before) (add_alumni-Fits l2 id warmed)
      ]
    ]

pub is_young-Fits : (l : NodeRateLimiter) (id now : ℕ) → Fits l → Fits (is_young l id now).1
unfolding is_young
is_young-Fits l id now fits = elim (Option-cases (find_young l id)) [
  | inr (i, hit) ↦ rw (hit, is_young) (look_at-Fits l i now fits)
  | inl miss ↦ elim (Bool-cases (in_alumni l id)) [
    | inl known ↦ rw (miss, is_young, known) fits
    | inr new ↦ rw (miss, is_young, new) (active_young_count-Fits l now fits)
  ]
]
