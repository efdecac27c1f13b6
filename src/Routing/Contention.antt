-- ===== src/Routing/Contention.antt =====
-- crates/mesh-routing/src/coordinated_relay.rs: the contention windows, by the signal and by the load of
-- the channel, with `contention_window_size` and
-- `retransmission_delay_ms` of crates/mesh-routing/src/routing_ack.rs. The rungs are
-- in ChannelAccess.
pub mod Bands
pub mod Ladder
mod Tests
use Prim.Native.Nat.{bit_xor}
use meshrustic.Base.{
  ℕ, ◌+◌, ◌-◌, ◌*◌, ◌/◌, ◌%◌, ◌^◌, min, max, Bool, not, ◌==◌, if◌then◌else◌, saturating_add,
  saturating_mul, u8_max,
}
use meshrustic.Base.Float.{Float32}
use meshrustic.Base.Int.{ℤ, pos, negsuc, ◌-ℤ◌, ltbℤ, clampℤ, as_u32}
use meshrustic.Routing.ChannelAccess.{cw_max, half_airtime_ms}
use meshrustic.Radio.Frame.{max_lora_payload}
use meshrustic.Radio.Timing.{
  slot_time_ms, packet_time_ms, eu868_config_for_preset, contention_window_ms,
}
use meshrustic.Routing.Graph.Edge.{max_edges_per_node}

abbrev pub cw_min : ℕ
cw_min = 3

-- -20
abbrev pub snr_min : ℤ
snr_min = negsuc 19

abbrev pub snr_max : ℤ
snr_max = pos 10

unfoldable pub map_range : ℤ → ℤ → ℤ → ℕ → ℕ → ℕ
map_range value in_min in_max out_min out_max =
    let clamped = clampℤ value in_min in_max in
    let numer = as_u32 (clamped -ℤ in_min) * ((out_max + 2 ^ 8 - out_min) % 2 ^ 8) % 2 ^ 32 in
    let denom = as_u32 (in_max -ℤ in_min) in
    if not (ltbℤ in_min in_max) then out_min else (out_min + numer / denom) % 2 ^ 8

unfoldable pub cw_size_from_snr : ℤ → ℕ
unfolding map_range
cw_size_from_snr snr = map_range snr snr_min snr_max cw_min cw_max

unfoldable pub jitter_slots : ℕ → ℕ → ℕ → ℕ → ℕ
jitter_slots from id node_num slot_span =
    if slot_span == 0 then 0 else bit_xor (bit_xor from id) node_num % slot_span

abbrev pub retx_cw_min : ℕ
retx_cw_min = 3

abbrev pub retx_cw_max : ℕ
retx_cw_max = 8

-- The share that `as u8` cuts is 5 at most for the percentages from 0 to 100.
unfoldable pub contention_window_size : (fl : Float32) → fl.F32 → ℕ
contention_window_size fl channel_util_pct =
    let pct =
      if fl.is_finite channel_util_pct
      then fl.clamp channel_util_pct (fl.whole 0) (fl.whole 100)
      else fl.whole 0 in
    let share = fl.div (fl.mul pct (fl.whole (retx_cw_max - retx_cw_min))) (fl.whole 100) in
    (retx_cw_min + min (fl.to_u32 share) u8_max) % 2 ^ 8

-- `1u32 << cw`, where the code shifts by the low five bits.
abbrev pub slots_of : ℕ → ℕ
slots_of cw = 2 ^ (cw % 32)

module _ (fl : Float32) where
  unfoldable pub tx_delay_ms_contention : fl.F32 → ℕ → ℕ → ℕ → ℕ → ℕ
  unfolding contention_window_size jitter_slots
  tx_delay_ms_contention channel_util_pct slot_ms seed_a seed_b node_num =
      jitter_slots seed_a seed_b node_num (slots_of (contention_window_size fl channel_util_pct))
      * slot_ms
      % 2 ^ 32

  unfoldable pub tx_delay_ms_contention_max_at : fl.F32 → ℕ → ℕ
  unfolding contention_window_size
  tx_delay_ms_contention_max_at channel_util_pct slot_ms =
      slots_of (contention_window_size fl channel_util_pct) * slot_ms % 2 ^ 32

unfoldable pub tx_delay_ms_contention_max : ℕ → ℕ
tx_delay_ms_contention_max slot_ms = slots_of retx_cw_max * slot_ms % 2 ^ 32

unfoldable pub tx_delay_ms_worst : ℕ → ℕ
tx_delay_ms_worst cw_slot_ms =
    saturating_add (2 * cw_max * cw_slot_ms % 2 ^ 32) (slots_of cw_max * cw_slot_ms % 2 ^ 32)

abbrev pub retx_processing_time_ms : ℕ
retx_processing_time_ms = 4500

unfoldable pub retransmission_delay_ms : (fl : Float32) → ℕ → ℕ → fl.F32 → ℕ
unfolding contention_window_size
retransmission_delay_ms fl packet_airtime_ms slot_ms channel_util_pct =
    let cw = contention_window_size fl channel_util_pct in
    let mid_cw = (retx_cw_max + retx_cw_min) / 2 in
    let slots = (slots_of cw + 2 * retx_cw_max + slots_of mid_cw) % 2 ^ 32 in
    saturating_add
      (saturating_add (saturating_mul packet_airtime_ms 2) (saturating_mul slots slot_ms))
      retx_processing_time_ms

module _ (fl : Float32) where
  unfoldable pub slot_time_for_preset : ℕ → ℕ
  unfolding slot_time_ms eu868_config_for_preset
  slot_time_for_preset modem_preset =
      max (slot_time_ms fl (eu868_config_for_preset fl modem_preset)) 1

  unfoldable pub transmission_record_window_ms : ℕ → ℕ
  unfolding contention_window_ms packet_time_ms eu868_config_for_preset half_airtime_ms
      tx_delay_ms_worst slot_time_for_preset
  transmission_record_window_ms modem_preset =
      let preset_window = contention_window_ms modem_preset in
      let slot = slot_time_for_preset modem_preset in
      let cfg = eu868_config_for_preset fl modem_preset in
      let max_airtime = packet_time_ms fl cfg max_lora_payload in
      let ladder = saturating_mul (half_airtime_ms max_airtime) max_edges_per_node in
      let t1_window =
        saturating_add (saturating_add (max (tx_delay_ms_worst slot) ladder) max_airtime) ladder in
      max preset_window t1_window
