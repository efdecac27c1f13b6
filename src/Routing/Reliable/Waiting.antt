-- ===== src/Routing/Reliable/Waiting.antt =====
-- Which packets wait for an acknowledgement.
use meshrustic.Base.{
  ℕ, zero, suc, ◌<◌, ◌≡◌, arith, Bool, true, false, not, ◌&&◌, ◌||◌, ◌⊎◌, inl, inr, Option, none,
  some, List, [], ◌∷◌, ◌==◌, length, get_or, set, find?, any, position, is_some, Bool-cases,
  Option-cases, position_sound, position-none, length-set, get_or-set_self, find?-set_other,
}
use meshrustic.Routing.Reliable.{
  PendingReliable, NamedFollowup, inactive, waits_for, schedule_reliable, stop_loop,
  stop_reliable_for, nominated,
}

any_at :
    (p : PendingReliable → Bool) (xs : List PendingReliable) (i : ℕ)
    → i < length xs
    → p (get_or xs i inactive) ≡ true
    → any p xs ≡ true
any_at p [] i lt h = absurd (omega arith)
any_at p (x ∷ xs) zero lt h = ground arith
any_at p (x ∷ xs) (suc i) lt h = ground (arith, any_at p xs i)

-- A packet that is not the given one has the slot that it had.
abbrev Undisturbed : ℕ → ℕ → ℕ → ℕ → List PendingReliable → List PendingReliable → Type 0
Undisturbed from id from' id' slots slots' =
    ((from == from' && id == id') ≡ true)
    ⊎ (find? (waits_for from' id') slots' ≡ find? (waits_for from' id') slots)

-- A packet is accepted exactly if it waits already or a slot is free, and then it waits; a packet with
-- another sender or another id has the slot that it had.
pub schedule_reliable_lem :
    (slots : List PendingReliable) (from id to : ℕ) (relayed : Bool) (len : ℕ) (bytes : List ℕ)
    (delay now tries : ℕ) (named : Option NamedFollowup) (from' id' : ℕ)
    → let (accepted, slots') =
        schedule_reliable slots from id to relayed len bytes delay now tries named in
      (accepted ≡ any (waits_for from id) slots || any (λ s. not s.active) slots)
      × (any (waits_for from id) slots' ≡ accepted)
      × Undisturbed from id from' id' slots slots'
unfolding schedule_reliable
schedule_reliable_lem slots from id to relayed len bytes delay now tries named from' id' =
    let free : PendingReliable → Bool = λ s. not s.active in
    let new : PendingReliable = record {
      active = true;
      from = from;
      packet_id = id;
      to = to;
      relayed = relayed;
      named = named;
      num_retx = tries;
      awaiting_tx = true;
      has_transmitted = false;
      retx_delay_ms = delay;
      next_tx_ms = 0;
      len = len;
      bytes = bytes;
    } in
    elim (Bool-cases (any (waits_for from id) slots)) [
      | inl waits ↦ ground arith
      | inr unknown ↦ elim (Option-cases (position free slots)) [
        | inl full ↦ ground (arith, position-none free slots full)
        | inr (i, found) ↦
            let (lt, here) = position_sound free slots inactive found in
            let some_free = any_at free slots i lt here in
            let written = get_or-set_self slots i new inactive lt in
            let long = length-set slots i new in
            let waits =
              any_at (waits_for from id) (set slots i new) i (omega (arith, lt, long))
                (rw written (ground arith)) in
            elim (Bool-cases (from == from' && id == id')) [
              | inl same ↦ ground arith
              | inr other ↦
                  let kept =
                    find?-set_other (waits_for from' id') slots i new inactive (ground arith)
                      (ground arith) in
                  ground arith
            ]
      ]
    ]

stop_loop_lem :
    (from id : ℕ) (last : Option (ℕ × ℕ)) (slots : List PendingReliable) (from' id' : ℕ)
    → let (stopped, slots') = stop_loop from id last slots in
      (is_some stopped ≡ is_some last || any (waits_for from id) slots)
      × (any (waits_for from id) slots' ≡ false)
      × Undisturbed from id from' id' slots slots'
unfolding stop_loop
stop_loop_lem from id last [] from' id' = ground arith
stop_loop_lem from id last (s ∷ rest) from' id' = elim (Bool-cases (waits_for from id s)) [
  | inl hit ↦
      let rest_stopped = stop_loop_lem from id (some (s.to, nominated s)) rest from' id' in
      ground arith
  | inr miss ↦ let rest_stopped = stop_loop_lem from id last rest from' id' in ground arith
]

-- After a stop no slot waits for the packet, and a packet with another sender or another id has the
-- slot that it had; the answer tells whether one waited.
pub stop_reliable_for_lem :
    (slots : List PendingReliable) (from id from' id' : ℕ)
    → let (stopped, slots') = stop_reliable_for slots from id in
      (is_some stopped ≡ any (waits_for from id) slots)
      × (any (waits_for from id) slots' ≡ false)
      × Undisturbed from id from' id' slots slots'
unfolding stop_reliable_for
stop_reliable_for_lem slots from id from' id' = stop_loop_lem from id none slots from' id'
