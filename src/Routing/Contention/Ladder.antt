-- ===== src/Routing/Contention/Ladder.antt =====
-- How long what is heard is kept: `transmission_record_window_ms` of
-- crates/mesh-routing/src/coordinated_relay.rs and the rungs of the relays.
use native.Mathlib.Nat.{mul-le-mul, mod-lt}
use Prim.Native.Nat.{bit_xor}
use meshrustic.Base.{
  ℕ, ◌-◌, ◌*◌, ◌/◌, ◌%◌, ◌^◌, ◌≤◌, ◌<◌, ◌≡◌, refl, max, min, saturating_add, saturating_mul, true,
  false, Bool, if◌then◌else◌, arith,
}
use meshrustic.Base.Float.{Float32}
use meshrustic.Radio.Frame.{max_lora_payload}
use meshrustic.Radio.Timing.{
  RadioConfig, slot_time_ms, packet_time_ms, eu868_config_for_preset, contention_window_ms, bw_hz,
}
use meshrustic.Radio.Timing.Airtime.{packet_time_ms_lem}
use meshrustic.Routing.ChannelAccess.{
  relay_floor_ms, half_airtime_ms, tie_break_range_ms, slot_tie_break_ms, slot_delay_ms,
}
use meshrustic.Routing.Contention.{
  tx_delay_ms_worst, slot_time_for_preset, transmission_record_window_ms,
}
use meshrustic.Routing.Graph.Edge.{max_edges_per_node}

-- A word in thousandths, or 1000.
word_slot : (b : Bool) (x : ℕ) → (if b then 1000 else x % 2 ^ 32 / 1000) ≤ 4_294_967
word_slot true x = omega arith
word_slot false x = omega arith

slot_time_ms_le :
    (fl : Float32) (config : RadioConfig (fl.F32)) → slot_time_ms fl config ≤ 4_294_967
unfolding slot_time_ms
slot_time_ms_le fl config = search word_slot

slot_time_for_preset_le : (fl : Float32) (preset : ℕ) → slot_time_for_preset fl preset ≤ 4_294_967
unfolding slot_time_for_preset
slot_time_for_preset_le fl preset =
    omega (arith, slot_time_ms_le fl (eu868_config_for_preset fl preset))

tie_break_le : (half id node_num : ℕ) → 50 ≤ half → slot_tie_break_ms half id node_num ≤ half
unfolding slot_tie_break_ms tie_break_range_ms
tie_break_le half id node_num long =
    let range = tie_break_range_ms half in
    let positive : 0 < range = omega (arith, long) in
    omega (arith, long, mod-lt (bit_xor node_num id) positive)

half_le : (airtime : ℕ) → 50 ≤ half_airtime_ms airtime
unfolding half_airtime_ms
half_le airtime = omega arith

half_mono : (a b : ℕ) → a ≤ b → half_airtime_ms a ≤ half_airtime_ms b
unfolding half_airtime_ms
half_mono a b le = omega (arith, le)

-- The frame of a rung, of the place `steps` on the ladder, ends in the window.
ends_within :
    (floor worst steps tie half ladder airtime longest : ℕ)
    → floor * 17 ≡ worst
    → worst < 2 ^ 31
    → 50 ≤ half
    → tie ≤ half
    → steps ≤ 40 * half
    → airtime ≤ longest
    → ladder ≡ saturating_mul half 40
    → saturating_add (saturating_add (saturating_add floor (min steps (2 ^ 32 - 1))) tie) airtime
      ≤ saturating_add (saturating_add (max worst ladder) longest) ladder
ends_within floor worst steps tie half ladder airtime longest f w h t s a l =
    omega (arith, f, w, h, t, s, a, l)

worst_le :
    (slot : ℕ)
    → slot ≤ 4_294_967
    → (relay_floor_ms slot * 17 ≡ tx_delay_ms_worst slot) × (tx_delay_ms_worst slot < 2 ^ 31)
unfolding relay_floor_ms tx_delay_ms_worst
worst_le slot small = (omega (arith, small), omega (arith, small))

module _ (fl : Float32) where
  -- Where the band of the preset has a width, what is heard is kept for as long as the contention window
  -- of the preset, until the longest frame has ended that goes out after the worst contention, and until
  -- the frame of any relay has ended: that of any rung up to the number of links of a node, of any
  -- tie-break and of 255 bytes at most.
  pub transmission_record_window_ms_lem :
      (preset rung id node_num len : ℕ)
      → 0 < bw_hz fl (eu868_config_for_preset fl preset)
      → rung ≤ max_edges_per_node
      → len ≤ max_lora_payload
      → let slot = slot_time_for_preset fl preset in
        let config = eu868_config_for_preset fl preset in
        let airtime = packet_time_ms fl config len in
        let half = half_airtime_ms airtime in
        let window = transmission_record_window_ms fl preset in
        (contention_window_ms preset ≤ window)
        × (saturating_add (tx_delay_ms_worst slot) (packet_time_ms fl config max_lora_payload)
            ≤ window)
        × (saturating_add
              (saturating_add (slot_delay_ms rung half slot) (slot_tie_break_ms half id node_num))
              airtime
            ≤ window)
  unfolding transmission_record_window_ms slot_delay_ms
  transmission_record_window_ms_lem preset rung id node_num len wide few fits =
      let config = eu868_config_for_preset fl preset in
      let slot = slot_time_for_preset fl preset in
      let airtime = packet_time_ms fl config len in
      let longest = packet_time_ms fl config 255 in
      let half = half_airtime_ms airtime in
      let long_half = half_airtime_ms longest in
      let shorter = packet_time_ms_lem fl config len 255 wide fits (omega arith) in
      let halves = half_mono airtime longest shorter in
      let (floor, worst) = worst_le slot (slot_time_for_preset_le fl preset) in
      let steps : rung * half ≤ 40 * long_half = mul-le-mul few halves in
      let tie : slot_tie_break_ms half id node_num ≤ long_half =
        omega (arith, tie_break_le half id node_num (half_le airtime), halves) in
      let within =
        ends_within (relay_floor_ms slot) (tx_delay_ms_worst slot) (rung * half)
          (slot_tie_break_ms half id node_num) long_half (saturating_mul long_half 40) airtime
          longest floor worst (half_le longest) tie steps shorter refl in
      (omega arith, omega arith, omega (arith, within))
