-- ===== src/Routing/ChannelAccess/Rungs.antt =====
-- The rungs on which relays send do not run into each other.
use Prim.Native.Nat.{bit_xor}
use native.Mathlib.Nat.{mod-lt, mul-le-mul_right}
use meshrustic.Base.{ℕ, ◌+◌, ◌*◌, ◌%◌, ◌^◌, ◌≤◌, ◌<◌, arith}
use meshrustic.Routing.ChannelAccess.{
  relay_floor_ms, half_airtime_ms, tie_break_range_ms, slot_tie_break_ms, slot_delay_ms,
}

tie_break_lt :
    (air id node : ℕ)
    → let half = half_airtime_ms air in
      (1 ≤ slot_tie_break_ms half id node) × (slot_tie_break_ms half id node < half)
unfolding half_airtime_ms tie_break_range_ms slot_tie_break_ms
tie_break_lt air id node =
    let half = half_airtime_ms air in
    let range = tie_break_range_ms half in
    let inside : bit_xor node id % range < range = mod-lt (bit_xor node id) (omega arith) in
    omega (arith, inside)

rung_le : (lower higher half : ℕ) → lower < higher → lower * half + half ≤ higher * half
rung_le lower higher half lt =
    let scaled : (lower + 1) * half ≤ higher * half = mul-le-mul_right half (omega arith) in
    omega (arith, scaled)

-- Where the delays do not saturate, a node sends, whatever its tie-break, after its own rung has begun
-- and before any higher rung begins.
pub slot_delay-slot_tie_break :
    (air slot_time lower higher id node : ℕ)
    → lower < higher
    → relay_floor_ms slot_time + higher * half_airtime_ms air < 2 ^ 32
    → let half = half_airtime_ms air in
      let sent = slot_delay_ms lower half slot_time + slot_tie_break_ms half id node in
      (slot_delay_ms lower half slot_time < sent) × (sent < slot_delay_ms higher half slot_time)
unfolding slot_delay_ms
slot_delay-slot_tie_break air slot_time lower higher id node lt fits =
    let half = half_airtime_ms air in
    let (one, below) = tie_break_lt air id node in
    let step = rung_le lower higher half lt in
    let low = lower * half in let high = higher * half in (omega arith, omega arith)
