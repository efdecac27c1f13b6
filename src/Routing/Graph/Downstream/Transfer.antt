-- ===== src/Routing/Graph/Downstream/Transfer.antt =====
-- What `transfer_downstream` moves (crates/mesh-routing/src/graph/downstream.rs).
use meshrustic.Base.{
  ℕ, zero, suc, ◌+◌, ◌≤◌, ◌<◌, ◌≡◌, ◌≢◌, refl, ◌∙◌, ap, Bool, true, false, not, ◌&&◌, ◌||◌, List,
  [], ◌∷◌, ◌++◌, ◌==◌, ltb, subst, ==_iff, if-true, if-false, is_some, length, get_or,
  get_or-set_ne, length-set, length-append, count_if, find?, position, position_sound, inl, inr,
  Bool-cases, Option-cases, arith,
}
use meshrustic.Routing.Graph.Downstream.{
  Table, DownstreamEntry, blank, is_pair, upsert_entry, transfer_loop, transfer_downstream,
  clear_for_relay,
}
use meshrustic.Routing.Graph.Downstream.Sweep.{count_if-sweep_all, count_if_cong}
use meshrustic.Routing.Graph.Downstream.Entries.{merged, length-upsert_entry}
use meshrustic.Routing.Graph.Downstream.Lookup.{upsert_entry_lem, found_after}

get_or-append {ℓ} :
    {A : Type ℓ} (xs ys : List A) (k : ℕ) (d : A)
    → k < length xs
    → get_or (xs ++ ys) k d ≡ get_or xs k d
get_or-append [] ys k d lt = absurd (omega arith)
get_or-append (x ∷ xs) ys zero d lt = refl
get_or-append (x ∷ xs) ys (suc k) d lt = get_or-append xs ys k d (omega arith)

length-upsert_entry_room :
    (t : Table) (new : DownstreamEntry)
    → length t < 900
    → length (upsert_entry t new) ≤ length t + 1
unfolding upsert_entry
length-upsert_entry_room t new room =
    elim (Option-cases (position (is_pair new.destination new.relay) t)) [
      | inl missing ↦
          let fits : ltb (length t) 900 ≡ true = ground arith in
          rw (missing, fits, upsert_entry) (omega (arith, length-append t (new ∷ [])))
      | inr (i, found) ↦
          rw (found, upsert_entry) (omega (arith, length-set t i (merged (get_or t i blank) new)))
    ]

different_relay :
    (t : Table) (new : DownstreamEntry) (i k : ℕ)
    → i ≡ k
    → is_pair new.destination new.relay (get_or t i blank) ≡ true
    → ((get_or t k blank).relay == new.relay) ≡ false
    → ⊥
different_relay t new i k e hit other =
    let same = ap (λ n. (get_or t n blank).relay) e in ground arith

-- With room, an update leaves the entries of other relays where they are.
get_or-upsert_entry :
    (t : Table) (new : DownstreamEntry) (k : ℕ)
    → length t < 900
    → k < length t
    → ((get_or t k blank).relay == new.relay) ≡ false
    → get_or (upsert_entry t new) k blank ≡ get_or t k blank
unfolding upsert_entry
get_or-upsert_entry t new k room lt other =
    elim (Option-cases (position (is_pair new.destination new.relay) t)) [
      | inl missing ↦
          let fits : ltb (length t) 900 ≡ true = ground arith in
          rw (missing, fits, upsert_entry) (get_or-append t (new ∷ []) k blank lt)
      | inr (i, found) ↦
          let hit = (position_sound (is_pair new.destination new.relay) t blank found).1 in
          let apart : i ≢ k = λ e. different_relay t new i k e hit other in
          rw (found, upsert_entry) (get_or-set_ne t i k (merged (get_or t i blank) new) blank apart)
    ]

-- With room, an update loses nothing.
is_some-upsert_entry :
    (t : Table) (new : DownstreamEntry) (d r : ℕ)
    → length t < 900
    → is_some (find? (is_pair d r) t) ≡ true
    → is_some (find? (is_pair d r) (upsert_entry t new)) ≡ true
unfolding found_after
is_some-upsert_entry t new d r room there = elim (Bool-cases (is_pair d r new)) [
  | inl same ↦ ap is_some (upsert_entry_lem t new d r (inl room)) ∙ ap is_some (if-true _ _ same)
  | inr other ↦
      ap is_some (upsert_entry_lem t new d r (inl room)) ∙ ap is_some (if-false _ _ other) ∙ there
]

own : (e : DownstreamEntry) → is_pair e.destination e.relay e ≡ true
own e = ground arith

is_some-upsert_entry_new :
    (t : Table) (new : DownstreamEntry)
    → length t < 900
    → is_some (find? (is_pair new.destination new.relay) (upsert_entry t new)) ≡ true
unfolding found_after
is_some-upsert_entry_new t new room =
    ap is_some (upsert_entry_lem t new new.destination new.relay (inl room))
    ∙ ap is_some (if-true _ _ (own new))

module _ (old_relay new_relay now_ms : ℕ) where
  moved_entry : DownstreamEntry → DownstreamEntry
  moved_entry e = record e { relay = new_relay; last_update_ms = now_ms }

  transfer_loop-keeps :
      (left i : ℕ) (t : Table) (d r : ℕ)
      → length t + left ≤ 900
      → is_some (find? (is_pair d r) t) ≡ true
      → is_some (find? (is_pair d r) (transfer_loop old_relay new_relay now_ms left i t).1) ≡ true
  unfolding transfer_loop
  transfer_loop-keeps zero i t d r room there = there
  transfer_loop-keeps (suc left) i t d r room there =
      let e = get_or t i blank in
      let new = record e { relay = new_relay; last_update_ms = now_ms } in
      elim (Bool-cases (e.relay == old_relay)) [
        | inl moves ↦ rw (moves) (
            transfer_loop-keeps left (i + 1) (upsert_entry t new) d r
              (omega (arith, length-upsert_entry_room t new (omega arith)))
              (is_some-upsert_entry t new d r (omega arith) there))
        | inr stays ↦ rw (stays) (transfer_loop-keeps left (i + 1) t d r (omega arith) there)
      ]

  transfer_loop-moves :
      (left i k : ℕ) (t : Table)
      → (old_relay == new_relay) ≡ false
      → length t + left ≤ 900
      → i ≤ k
      → k < i + left
      → k < length t
      → ((get_or t k blank).relay == old_relay) ≡ true
      → is_some (
          find?
            (is_pair (get_or t k blank).destination new_relay)
            (transfer_loop old_relay new_relay now_ms left i t).1)
        ≡ true
  unfolding transfer_loop
  transfer_loop-moves zero i k t apart room low high lt old = absurd (omega arith)
  transfer_loop-moves (suc left) i k t apart room low high lt old =
      let e = get_or t i blank in
      let new = record e { relay = new_relay; last_update_ms = now_ms } in
      let t' = upsert_entry t new in
      let room' = length-upsert_entry_room t new (omega arith) in
      elim (Bool-cases (e.relay == old_relay)) [
        | inl moves ↦ elim (Bool-cases (i == k)) [
          | inl here ↦
              let at : i ≡ k = ground arith in
              rw (← at, moves)
                (transfer_loop-keeps left (i + 1) t' e.destination new_relay (omega arith)
                  (is_some-upsert_entry_new t new (omega arith)))
          | inr later ↦
              let same : get_or t' k blank ≡ get_or t k blank =
                get_or-upsert_entry t new k (omega arith) lt (ground arith) in
              let old' = ap (λ (x : DownstreamEntry). x.relay == old_relay) same ∙ old in
              let longer = length-upsert_entry t new in
              rw (moves) (
                subst
                  (λ x.
                    is_some (
                      find? (is_pair x.destination new_relay)
                        (transfer_loop old_relay new_relay now_ms left (i + 1) t').1)
                    ≡ true)
                  same
                  (transfer_loop-moves left (i + 1) k t' apart (omega arith) (ground arith)
                    (omega arith) (omega arith) old'))
        ]
        | inr stays ↦ elim (Bool-cases (i == k)) [
          | inl here ↦
              absurd (cc (ap (λ n. (get_or t n blank).relay == old_relay) ((==_iff i k).0 here)))
          | inr later ↦ rw (stays) (
              transfer_loop-moves left (i + 1) k t apart (omega arith) (ground arith) (omega arith)
                lt old)
        ]
      ]

  find?-count :
      (p : DownstreamEntry → Bool) (t : Table) → is_some (find? p t) ≡ true → 1 ≤ count_if p t
  find?-count p [] h = absurd (cc)
  find?-count p (x ∷ t) h = ground (arith, find?-count p t)

  count_if-none :
      (p q : DownstreamEntry → Bool) (t : Table)
      → ((x : DownstreamEntry) → q x ≡ false)
      → count_if q t ≡ 0
  count_if-none p q [] h = refl
  count_if-none p q (x ∷ t) h = ground (arith, count_if-none p q t h, h x)

  other_relay :
      (d : ℕ) (e : DownstreamEntry)
      → old_relay ≢ new_relay
      → (is_pair d new_relay e && not (e.relay == old_relay)) ≡ is_pair d new_relay e
  other_relay d e apart = ground arith

  -- Between two different relays, none of them 0, and with room for as many entries as there are, a
  -- transfer leaves no entry behind the old relay, and an entry behind the new one for every
  -- destination that was behind the old one.
  pub transfer_downstream_lem :
      (t : Table)
      → old_relay ≢ 0
      → new_relay ≢ 0
      → old_relay ≢ new_relay
      → length t + length t ≤ 900
      → let after = (transfer_downstream t old_relay new_relay now_ms).1 in
        (count_if (λ e. e.relay == old_relay) after ≡ 0)
        × ((k : ℕ)
            → k < length t
            → ((get_or t k blank).relay == old_relay) ≡ true
            → 1 ≤ count_if (is_pair (get_or t k blank).destination new_relay) after)
  unfolding transfer_downstream clear_for_relay
  transfer_downstream_lem t named_old named_new apart room =
      let goes : (old_relay == 0 || (new_relay == 0 || old_relay == new_relay)) ≡ false =
        ground arith in
      let gone : DownstreamEntry → Bool = λ e. e.relay == old_relay in
      let t' = (transfer_loop old_relay new_relay now_ms (length t) 0 t).1 in
      rw (goes) (
        count_if-sweep_all blank gone gone t'
            ∙ count_if-none gone (λ e. gone e && not (gone e)) t' (λ x. ground arith),
        λ k lt old.
            let pair = is_pair (get_or t k blank).destination new_relay in
            let moved = find?-count pair t' (
              transfer_loop-moves (length t) 0 k t (ground arith) room (omega arith) (omega arith)
                lt old) in
            let stays =
              count_if_cong (λ e. pair e && not (gone e)) pair t'
                (λ e. other_relay (get_or t k blank).destination e apart) in
            omega (arith, moved, stays, count_if-sweep_all blank gone pair t'),
      )
