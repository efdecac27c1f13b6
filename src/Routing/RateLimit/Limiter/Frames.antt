-- ===== src/Routing/RateLimit/Limiter/Frames.antt =====
-- What the steps before the charge of the sender leave as it is: the table of the senders and the
-- window.
use meshrustic.Base.{
  ℕ, ◌≡◌, refl, ◌∙◌, arith, not, ◌||◌, inl, inr, Option, some, none, get_or, ltb, is_some,
  Bool-cases, Option-cases, length,
}
use meshrustic.Routing.RateLimit.Types.{
  NodeRateLimiter, RateLimitEvent, DestEntry, GraphProximity, max_young,
}
use meshrustic.Routing.RateLimit.Young.{
  add_alumni, insert_young, remove_young_at, expire_if_old, admit_young, note_originator, warmed_up,
  find_young, find_aged, find_aged_young, look_at, in_alumni, no_sighting, note_boot,
}
use meshrustic.Routing.RateLimit.Tables.{no_dest, find_dest, get_or_create_dest}
use meshrustic.Routing.RateLimit.Dests.{
  RateLimitPacket, charge_dest_volume, charge_dest_at, note_event, is_unicast_dest,
  charges_dest_volume, roll_dest_senders, note_dest_sender,
}

note_event_originators :
    (l : NodeRateLimiter) (e : Option RateLimitEvent)
    → ((note_event l e).originators ≡ l.originators) × ((note_event l e).window ≡ l.window)
note_event_originators l none = (refl, refl)
note_event_originators l (some e) = (refl, refl)

-- Charging a destination leaves the originators.
abbrev pub SameSenders : NodeRateLimiter → NodeRateLimiter → Type 0
SameSenders l l' = (l'.originators ≡ l.originators) × (l'.window ≡ l.window)

pub same_trans : (a b c : NodeRateLimiter) → SameSenders a b → SameSenders b c → SameSenders a c
same_trans a b c (p, q) (r, s) = (r ∙ p, s ∙ q)

pub charge_dest_at-senders :
    (l : NodeRateLimiter) (i : ℕ) (e : DestEntry) (charge now : ℕ)
    → SameSenders l (charge_dest_at l i e charge now).1
unfolding charge_dest_at
charge_dest_at-senders l i e charge now = note_event_originators _ _

pub get_or_create_dest-senders :
    (l : NodeRateLimiter) (id now : ℕ) (proximity : ℕ → GraphProximity)
    → SameSenders l (get_or_create_dest l id now proximity).1
unfolding get_or_create_dest
get_or_create_dest-senders l id now proximity = elim (Option-cases (find_dest l id)) [
  | inl miss ↦ rw (miss, get_or_create_dest) (refl, refl)
  | inr (i, hit) ↦ rw (hit, get_or_create_dest) (refl, refl)
]

pub charge_dest_volume-senders :
    (l : NodeRateLimiter) (pkt : RateLimitPacket) (proximity : ℕ → GraphProximity)
    → SameSenders l (charge_dest_volume l pkt proximity).1
unfolding charge_dest_volume
charge_dest_volume-senders l pkt proximity =
    let l1 = (get_or_create_dest l pkt.to pkt.now_ms proximity).1 in
    let rolled : NodeRateLimiter → ℕ → DestEntry =
      λ m i. roll_dest_senders (get_or m.dests i no_dest) pkt.now_ms m.window in
    elim (Bool-cases (not (is_unicast_dest pkt.to) || not pkt.on_default_channel)) [
      | inl out ↦ rw out (refl, refl)
      | inr ins ↦ elim (Bool-cases (charges_dest_volume pkt)) [
        | inl charged ↦ elim (Option-cases (get_or_create_dest l pkt.to pkt.now_ms proximity).0) [
          | inl none_free ↦
              rw (ins, charged, none_free)
                (get_or_create_dest-senders l pkt.to pkt.now_ms proximity)
          | inr (i, at) ↦
              rw (ins, charged, at)
                (let e = note_dest_sender (rolled l1 i) pkt.from in
                  same_trans l l1 (charge_dest_at l1 i e 1 pkt.now_ms).1
                    (get_or_create_dest-senders l pkt.to pkt.now_ms proximity)
                    (charge_dest_at-senders l1 i e 1 pkt.now_ms))
        ]
        | inr uncharged ↦ elim (Option-cases (find_dest l pkt.to)) [
          | inl miss ↦ rw (ins, uncharged, miss) (refl, refl)
          | inr (i, hit) ↦ rw (ins, uncharged, hit) (charge_dest_at-senders l i _ 0 pkt.now_ms)
        ]
      ]
    ]

add_alumni-senders : (l : NodeRateLimiter) (id : ℕ) → SameSenders l (add_alumni l id).1
unfolding add_alumni
add_alumni-senders l id = ground arith

insert_young-senders : (l : NodeRateLimiter) (id now : ℕ) → SameSenders l (insert_young l id now)
unfolding insert_young
insert_young-senders l id now = ground arith

remove_young_at-senders : (l : NodeRateLimiter) (i : ℕ) → SameSenders l (remove_young_at l i)
unfolding remove_young_at
remove_young_at-senders l i = (refl, refl)

expire_if_old-senders : (l : NodeRateLimiter) (id now : ℕ) → SameSenders l (expire_if_old l id now)
unfolding expire_if_old
expire_if_old-senders l id now = elim (Option-cases (find_young l id)) [
  | inl miss ↦ rw (miss, expire_if_old) (refl, refl)
  | inr (i, hit) ↦
      let l1 = (look_at l i now).1 in
      let l2 = (add_alumni l1 id).1 in
      let added = add_alumni-senders l1 id in
      elim (Bool-cases (look_at l i now).0) [
        | inl active ↦ rw (hit, expire_if_old, active) (refl, refl)
        | inr aged ↦ elim (Bool-cases (add_alumni l1 id).0) [
          | inl taken ↦
              rw (hit, expire_if_old, aged, taken)
                (same_trans l l2 (remove_young_at l2 i) added (remove_young_at-senders l2 i))
          | inr full ↦ rw (hit, expire_if_old, aged, full) added
        ]
      ]
]

admit_young-senders : (l : NodeRateLimiter) (id now : ℕ) → SameSenders l (admit_young l id now)
unfolding admit_young find_aged_young
admit_young-senders l id now = elim (Bool-cases (ltb (length l.young) max_young)) [
  | inl room ↦ rw room (insert_young-senders l id now)
  | inr full ↦ elim (Option-cases (find_aged l.young now).0) [
    | inl miss ↦ rw (full, miss) (refl, refl)
    | inr (i, hit) ↦
        let l1 = (find_aged_young l now).1 in
        let l2 = (add_alumni l1 (get_or l1.young i no_sighting).node_id).1 in
        let l3 = remove_young_at l2 i in
        rw (full, hit)
          (same_trans l l2 (insert_young l3 id now)
            (add_alumni-senders l1 (get_or l1.young i no_sighting).node_id)
            (same_trans l2 l3 (insert_young l3 id now) (remove_young_at-senders l2 i)
              (insert_young-senders l3 id now)))
  ]
]

warmed_up-senders : (l : NodeRateLimiter) (now : ℕ) → SameSenders l (warmed_up l now).1
unfolding warmed_up
warmed_up-senders l now = (refl, refl)

-- Noting a sender leaves the table of originators.
pub note_originator-senders :
    (l : NodeRateLimiter) (id now : ℕ) → SameSenders l (note_originator l id now)
unfolding note_originator
note_originator-senders l id now =
    let l1 = expire_if_old l id now in
    let l2 = (warmed_up l1 now).1 in
    let old = expire_if_old-senders l id now in
    let noted = same_trans l l1 l2 old (warmed_up-senders l1 now) in
    elim (Bool-cases (is_some (find_young l1 id) || in_alumni l1 id)) [
      | inl known ↦ rw (note_originator, known) old
      | inr new ↦ elim (Bool-cases (warmed_up l1 now).0) [
        | inl after ↦
            rw (note_originator, new, after)
              (same_trans l l2 (admit_young l2 id now) noted (admit_young-senders l2 id now))
        | inr before ↦
            rw (note_originator, new, before)
              (same_trans l l2 (add_alumni l2 id).1 noted (add_alumni-senders l2 id))
      ]
    ]

pub note_boot-senders : (l : NodeRateLimiter) (now : ℕ) → SameSenders l (note_boot l now)
unfolding note_boot
note_boot-senders l now = ground arith
