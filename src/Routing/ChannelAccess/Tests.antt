-- ===== src/Routing/ChannelAccess/Tests.antt =====
-- Channel access at concrete times.
use meshrustic.Base.{◌+◌, ◌<◌, ◌≡◌, refl, arith, true, false, inl, wrapping_add}
use meshrustic.Routing.ChannelAccess
use meshrustic.Routing.ChannelAccess.{
  ChannelAccess, note_rx, note_tx_done, extend, may_transmit, remaining_ms, relay_floor_ms,
  half_airtime_ms, slot_delay_ms, slot_tie_break_ms, tx_gap_ms, peer_turnaround_ms,
}
use meshrustic.Routing.ChannelAccess.Holds.{Near, may_transmit-note}
use meshrustic.Routing.ChannelAccess.Rungs.{slot_delay-slot_tie_break}

-- The turnaround of a frame received shortly before the clock wraps ends behind the wrap.
over_the_wrap :
    let c = note_rx ChannelAccess.new 4_294_967_290 0 in
    ((may_transmit c 200).0 ≡ false)
    × ((remaining_ms c 200).0 ≡ 44)
    × ((may_transmit c 244).0 ≡ true)
unfolding note_rx extend may_transmit remaining_ms
over_the_wrap = (refl, refl, refl)

abbrev holding : ChannelAccess
holding = record { hold_until_ms = 900; holding = true }

may_transmit-note_example :
    ((may_transmit (note_rx holding 500 300) (wrapping_add 500 299)).0 ≡ false)
    × ((may_transmit (note_tx_done holding 500) (wrapping_add 500 99)).0 ≡ false)
    × Near (note_rx holding 500 300) 500
    × Near (note_tx_done holding 500) 500
may_transmit-note_example =
    may_transmit-note holding 500 300 299 99 (omega arith, omega arith, inl (omega arith))
      (omega arith) (omega arith) (omega arith)

slot_delay-slot_tie_break_example :
    let half = half_airtime_ms 400 in
    let sent = slot_delay_ms 1 half 28 + slot_tie_break_ms half 77 1234 in
    (slot_delay_ms 1 half 28 < sent) × (sent < slot_delay_ms 2 half 28)
unfolding relay_floor_ms half_airtime_ms
slot_delay-slot_tie_break_example =
    slot_delay-slot_tie_break 400 28 1 2 77 1234 (omega arith) (omega arith)
