-- ===== src/Routing/Reliable/Tries.antt =====
-- How often a packet is sent again, whatever order the reports come in.
use meshrustic.Base.{
  ℕ, ◌+◌, ◌≤◌, ◌≡◌, refl, arith, ◌&&◌, Option, none, some, List, [], ◌∷◌, if◌then◌else◌, is_some,
  map,
}
use meshrustic.Routing.Reliable.{
  PendingReliable, due_retransmit, waits_for, transmitted, note_tx_failure, rejected,
  note_tx_queue_rejected, bump, bump_reliable_delays, stop_loop, stop_reliable_for, nominated,
}

-- The calls that find the slots filled: all but `schedule_reliable`.
pub data Call : Type 0 where
  due : ℕ → Call
  left_air : ℕ → ℕ → ℕ → Call
  refused : ℕ → ℕ → ℕ → Call
  stop : ℕ → ℕ → Call
  air : ℕ → Call

-- The tries that the slots have left.
abbrev pub tries : List PendingReliable → ℕ
tries [] = 0
tries (s ∷ rest) = (if s.active then s.num_retx else 0) + tries rest

-- The slots to which a refusal gives their try back.
abbrev pub given_back : ℕ → ℕ → List PendingReliable → ℕ
given_back from id [] = 0
given_back from id (s ∷ rest) =
    (if waits_for from id s && (s.has_transmitted && s.awaiting_tx) then 1 else 0)
    + given_back from id rest

-- The frames that a sequence of calls hands out, and the tries that it gives back.
abbrev pub frames : (ℕ → ℕ → ℕ → ℕ) → List PendingReliable → List Call → ℕ × ℕ
frames delay_for slots [] = (0, 0)
frames delay_for slots (due now ∷ calls) =
    let (sent, slots') = due_retransmit slots now delay_for in
    let (out, back) = frames delay_for slots' calls in ((if is_some sent then 1 else 0) + out, back)
frames delay_for slots (left_air from id now ∷ calls) =
    frames delay_for (note_tx_failure slots from id now) calls
frames delay_for slots (refused from id now ∷ calls) =
    let (out, back) = frames delay_for (note_tx_queue_rejected slots from id now) calls in
    (out, given_back from id slots + back)
frames delay_for slots (stop from id ∷ calls) =
    frames delay_for (stop_reliable_for slots from id).1 calls
frames delay_for slots (air ms ∷ calls) = frames delay_for (bump_reliable_delays slots ms) calls

tries-due :
    (slots : List PendingReliable) (now : ℕ) (delay_for : ℕ → ℕ → ℕ → ℕ)
    → let (sent, slots') = due_retransmit slots now delay_for in
      (if is_some sent then 1 else 0) + tries slots' ≤ tries slots
unfolding due_retransmit
tries-due [] now delay_for = omega arith
tries-due (s ∷ rest) now delay_for = ground (arith, tries-due rest now delay_for)

tries-left_air :
    (slots : List PendingReliable) (from id now : ℕ)
    → tries (map (transmitted from id now) slots) ≡ tries slots
tries-left_air [] from id now = refl
tries-left_air (s ∷ rest) from id now = ground (arith, tries-left_air rest from id now)

tries-refused :
    (slots : List PendingReliable) (from id now : ℕ)
    → tries (map (rejected from id now) slots) ≤ tries slots + given_back from id slots
tries-refused [] from id now = omega arith
tries-refused (s ∷ rest) from id now = ground (arith, tries-refused rest from id now)

tries-air : (slots : List PendingReliable) (ms : ℕ) → tries (map (bump ms) slots) ≡ tries slots
tries-air [] ms = refl
tries-air (s ∷ rest) ms = ground (arith, tries-air rest ms)

tries-stop :
    (from id : ℕ) (last : Option (ℕ × ℕ)) (slots : List PendingReliable)
    → tries (stop_loop from id last slots).1 ≤ tries slots
unfolding stop_loop
tries-stop from id last [] = omega arith
tries-stop from id last (s ∷ rest) =
    let next = if waits_for from id s then some (s.to, nominated s) else last in
    ground (arith, tries-stop from id next rest)

-- In any sequence of calls other than `schedule_reliable`, the frames handed out to be sent again are
-- no more than the tries that the slots began with and those that the queue's refusals gave back.
pub frames_le :
    (calls : List Call) (delay_for : ℕ → ℕ → ℕ → ℕ) (slots : List PendingReliable)
    → let (out, back) = frames delay_for slots calls in out ≤ tries slots + back
unfolding note_tx_failure note_tx_queue_rejected bump_reliable_delays stop_reliable_for
frames_le [] delay_for slots = omega arith
frames_le (due now ∷ calls) delay_for slots =
    let slots' = (due_retransmit slots now delay_for).1 in
    omega (arith, tries-due slots now delay_for, frames_le calls delay_for slots')
frames_le (left_air from id now ∷ calls) delay_for slots = omega (
  arith,
  tries-left_air slots from id now,
  frames_le calls delay_for (note_tx_failure slots from id now),
)
frames_le (refused from id now ∷ calls) delay_for slots = omega (
  arith,
  tries-refused slots from id now,
  frames_le calls delay_for (note_tx_queue_rejected slots from id now),
)
frames_le (stop from id ∷ calls) delay_for slots = omega (
  arith,
  tries-stop from id none slots,
  frames_le calls delay_for (stop_reliable_for slots from id).1,
)
frames_le (air ms ∷ calls) delay_for slots =
    omega (arith, tries-air slots ms, frames_le calls delay_for (bump_reliable_delays slots ms))
