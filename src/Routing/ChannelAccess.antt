-- ===== src/Routing/ChannelAccess.antt =====
-- crates/mesh-routing/src/channel_access.rs: how long the node leaves the channel to others after a
-- frame, and the rungs on which relays send, with the part of
-- crates/mesh-routing/src/coordinated_relay.rs that spaces these. A `Cell` is a field that a call
-- gives back changed.
pub mod Holds
pub mod Rungs
mod Tests
use Prim.Native.Nat.{bit_xor}
use meshrustic.Base.{
  ℕ, ◌+◌, ◌*◌, ◌/◌, ◌%◌, ◌^◌, max, Bool, true, false, not, ◌&&◌, ◌||◌, ◌==◌, ltb, if◌then◌else◌,
  wrapping_add, wrapping_sub, saturating_add, saturating_mul,
}

abbrev pub peer_turnaround_ms : ℕ
peer_turnaround_ms = 250

abbrev pub tx_gap_ms : ℕ
tx_gap_ms = 100

abbrev pub cw_max : ℕ
cw_max = 8

abbrev pub min_rung_spacing_ms : ℕ
min_rung_spacing_ms = 50

abbrev pub min_tie_break_range_ms : ℕ
min_tie_break_range_ms = 20

-- `2 * CW_MAX as u32 * slot_time_ms`, a word.
unfoldable pub relay_floor_ms : ℕ → ℕ
relay_floor_ms slot_time_ms = 2 * cw_max * slot_time_ms % 2 ^ 32

unfoldable pub half_airtime_ms : ℕ → ℕ
half_airtime_ms packet_airtime_ms = max (packet_airtime_ms / 2) min_rung_spacing_ms

unfoldable pub tie_break_range_ms : ℕ → ℕ
tie_break_range_ms half_airtime = max (half_airtime / 2) min_tie_break_range_ms

unfoldable pub slot_tie_break_ms : ℕ → ℕ → ℕ → ℕ
slot_tie_break_ms half_airtime id node_num =
    bit_xor node_num id % tie_break_range_ms half_airtime + 1

unfoldable pub dest_ack_wait_ms : ℕ → ℕ → ℕ
dest_ack_wait_ms ack_airtime_ms contention_max_ms =
    saturating_add (saturating_add peer_turnaround_ms (saturating_mul contention_max_ms 2))
      ack_airtime_ms

unfoldable pub peer_relay_wait_ms : ℕ → ℕ → ℕ
peer_relay_wait_ms airtime_ms contention_max_ms =
    saturating_add (saturating_add peer_turnaround_ms contention_max_ms) airtime_ms

unfoldable pub slot_delay_ms : ℕ → ℕ → ℕ → ℕ
slot_delay_ms slot half_airtime slot_time_ms =
    saturating_add (relay_floor_ms slot_time_ms) (saturating_mul slot half_airtime)

pub record ChannelAccess : Type 0 where
  pub hold_until_ms : ℕ
  pub holding : Bool

abbrev pub new : ChannelAccess
new = record { hold_until_ms = 0; holding = false }

-- `a` does not come before `b`, round the clock's wrap.
abbrev pub not_before : ℕ → ℕ → Bool
not_before a b = ltb (wrapping_sub a b) (2 ^ 31)

unfoldable pub extend : ChannelAccess → ℕ → ℕ → ChannelAccess
extend c until_ms now_ms =
    let hold =
      if not c.holding || not_before until_ms c.hold_until_ms then until_ms else c.hold_until_ms in
    record { hold_until_ms = hold; holding = not_before hold now_ms && not (hold == now_ms) }

unfoldable pub note_rx : ChannelAccess → ℕ → ℕ → ChannelAccess
note_rx c now_ms contention_backoff_ms =
    extend c (wrapping_add now_ms (max contention_backoff_ms peer_turnaround_ms)) now_ms

unfoldable pub note_tx_done : ChannelAccess → ℕ → ChannelAccess
note_tx_done c now_ms = extend c (wrapping_add now_ms tx_gap_ms) now_ms

unfoldable pub may_transmit : ChannelAccess → ℕ → Bool × ChannelAccess
may_transmit c now_ms =
    let holding = if c.holding && not_before now_ms c.hold_until_ms then false else c.holding in
    (not holding, record c { holding = holding })

unfoldable pub remaining_ms : ChannelAccess → ℕ → ℕ × ChannelAccess
remaining_ms c now_ms =
    let (free, c') = may_transmit c now_ms in
    ((if free then 0 else wrapping_sub c'.hold_until_ms now_ms), c')
