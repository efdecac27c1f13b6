-- ===== src/Routing/ChannelAccess/Holds.antt =====
-- How long the channel is left to others.
use meshrustic.Base.{
  ℕ, ◌+◌, ◌^◌, ◌≤◌, ◌<◌, max, ◌≡◌, arith, true, false, ◌⊎◌, inl, inr, wrapping_add, wrapping_sub,
  Bool-cases,
}
use meshrustic.Routing.ChannelAccess.{
  ChannelAccess, extend, note_rx, note_tx_done, may_transmit, remaining_ms, tx_gap_ms,
  peer_turnaround_ms,
}

-- The clock and the end of the hold are words, and less than 2^30 apart, one way or the other.
abbrev pub Near : ChannelAccess → ℕ → Type 0
Near c now =
    (now < 2 ^ 32)
    × (c.hold_until_ms < 2 ^ 32)
    × ((wrapping_sub c.hold_until_ms now < 2 ^ 30) ⊎ (wrapping_sub now c.hold_until_ms < 2 ^ 30))

-- The end of the hold is at least so far ahead as was asked for.
extend-ahead :
    (c : ChannelAccess) (now hold : ℕ)
    → Near c now
    → 0 < hold
    → hold < 2 ^ 30
    → let c' = extend c (wrapping_add now hold) now in
      (c'.holding ≡ true)
      × (hold ≤ wrapping_sub c'.hold_until_ms now)
      × (wrapping_sub c'.hold_until_ms now < 2 ^ 30)
      × (c'.hold_until_ms < 2 ^ 32)
unfolding extend
extend-ahead c now hold near pos small = elim (Bool-cases c.holding) [
  | inr free ↦ ground arith
  | inl held ↦ ground arith
]

held-ahead :
    (c : ChannelAccess) (now hold e : ℕ)
    → now < 2 ^ 32
    → c.holding ≡ true
    → hold ≤ wrapping_sub c.hold_until_ms now
    → wrapping_sub c.hold_until_ms now < 2 ^ 30
    → c.hold_until_ms < 2 ^ 32
    → e < hold
    → (may_transmit c (wrapping_add now e)).0 ≡ false
unfolding may_transmit
held-ahead c now hold e word held ahead far until lt = ground arith

-- After a frame is received the node does not transmit for the contention's backoff and for 250 ms at
-- least, and after it has sent one, not for 100 ms; its state stays near the clock. The end of the
-- hold before, and the backoff, are less than 2^30 ms away.
pub may_transmit-note :
    (c : ChannelAccess) (now backoff e f : ℕ)
    → Near c now
    → backoff < 2 ^ 30
    → e < max backoff peer_turnaround_ms
    → f < tx_gap_ms
    → ((may_transmit (note_rx c now backoff) (wrapping_add now e)).0 ≡ false)
      × ((may_transmit (note_tx_done c now) (wrapping_add now f)).0 ≡ false)
      × Near (note_rx c now backoff) now
      × Near (note_tx_done c now) now
unfolding note_rx note_tx_done
may_transmit-note c now backoff e f near small le lf =
    let hold = max backoff peer_turnaround_ms in
    let (held, ahead, far, word) = extend-ahead c now hold near (omega arith) (omega arith) in
    let (held', ahead', far', word') =
      extend-ahead c now tx_gap_ms near (omega arith) (omega arith) in
    (
      held-ahead (note_rx c now backoff) now hold e near.0 held ahead far word le,
      held-ahead (note_tx_done c now) now tx_gap_ms f near.0 held' ahead' far' word' lf,
      (near.0, word, inl far),
      (near.0, word', inl far'),
    )

extend-keeps :
    (c : ChannelAccess) (now hold : ℕ)
    → Near c now
    → 0 < hold
    → hold < 2 ^ 30
    → c.holding ≡ true
    → wrapping_sub c.hold_until_ms now < 2 ^ 30
    → wrapping_sub c.hold_until_ms now
      ≤ wrapping_sub (extend c (wrapping_add now hold) now).hold_until_ms now
unfolding extend
extend-keeps c now hold near pos small held ahead = ground arith

stopped_ahead :
    (c : ChannelAccess) (now e : ℕ)
    → Near c now
    → e < 2 ^ 30
    → (may_transmit c (wrapping_add now e)).0 ≡ false
    → (c.holding ≡ true)
      × (e < wrapping_sub c.hold_until_ms now)
      × (wrapping_sub c.hold_until_ms now < 2 ^ 30)
unfolding may_transmit
stopped_ahead c now e (word, until, inl ahead) le stopped = elim (Bool-cases c.holding) [
  | inl held ↦ ground arith
  | inr free ↦ absurd (ground arith)
]
stopped_ahead c now e (word, until, inr past) le stopped = elim (Bool-cases c.holding) [
  | inl held ↦ absurd (ground arith)
  | inr free ↦ absurd (ground arith)
]

-- A received frame never shortens a hold: a moment, less than 2^30 ms away, at which the node would
-- not have transmitted is one at which it does not. The end of the hold before and the backoff are
-- less than 2^30 ms away.
pub may_transmit-note_rx :
    (c : ChannelAccess) (now backoff e : ℕ)
    → Near c now
    → backoff < 2 ^ 30
    → e < 2 ^ 30
    → (may_transmit c (wrapping_add now e)).0 ≡ false
    → (may_transmit (note_rx c now backoff) (wrapping_add now e)).0 ≡ false
unfolding note_rx
may_transmit-note_rx c now backoff e near small le stopped =
    let hold = max backoff peer_turnaround_ms in
    let (held, more, ahead) = stopped_ahead c now e near le stopped in
    let kept = extend-keeps c now hold near (omega arith) (omega arith) held ahead in
    let (held', _, far, word) = extend-ahead c now hold near (omega arith) (omega arith) in
    held-ahead (note_rx c now backoff) now (e + 1) e near.0 held' (omega (arith, more, kept)) far
      word (omega arith)

-- After waiting for what `remaining_ms` says, the node may transmit.
pub may_transmit-remaining :
    (c : ChannelAccess) (now : ℕ)
    → now < 2 ^ 32
    → c.hold_until_ms < 2 ^ 32
    → let (wait, c') = remaining_ms c now in (may_transmit c' (wrapping_add now wait)).0 ≡ true
unfolding remaining_ms may_transmit
may_transmit-remaining c now word held = ground arith
