-- ===== src/Radio/Timing.antt =====
-- crates/mesh-radio/src/config.rs, timing.rs and packet_time.rs: the presets of the modem, the slot of the
-- channel and the time of a frame on air. A configuration is modelled without the region, the
-- frequency and the power, which no time depends on.
pub mod Airtime
mod Tests
use meshrustic.Base.{
  ℕ, ◌+◌, ◌-◌, ◌*◌, ◌/◌, ◌%◌, ◌^◌, min, Bool, false, not, ◌&&◌, ◌||◌, ◌==◌, leb, ltb, if◌then◌else◌,
  saturating_mul,
}
use meshrustic.Base.Float.{Float32}

abbrev pub modem_long_fast : ℕ
modem_long_fast = 0

abbrev pub modem_long_slow : ℕ
modem_long_slow = 1

abbrev pub modem_very_long_slow : ℕ
modem_very_long_slow = 2

abbrev pub modem_medium_slow : ℕ
modem_medium_slow = 3

abbrev pub modem_medium_fast : ℕ
modem_medium_fast = 4

abbrev pub modem_short_slow : ℕ
modem_short_slow = 5

abbrev pub modem_short_fast : ℕ
modem_short_fast = 6

abbrev pub modem_long_moderate : ℕ
modem_long_moderate = 7

abbrev pub modem_short_turbo : ℕ
modem_short_turbo = 8

abbrev pub modem_long_turbo : ℕ
modem_long_turbo = 9

abbrev pub modem_default_preset : ℕ
modem_default_preset = modem_long_fast

-- The ten presets are the numbers up to 9.
unfoldable pub is_valid_modem_preset : ℕ → Bool
is_valid_modem_preset preset =
    preset == modem_long_fast
    || (preset == modem_long_slow
        || (preset == modem_very_long_slow
            || (preset == modem_medium_slow
                || (preset == modem_medium_fast
                    || (preset == modem_short_slow
                        || (preset == modem_short_fast
                            || (preset == modem_long_moderate
                                || (preset == modem_short_turbo
                                    || preset == modem_long_turbo))))))))

unfoldable pub normalize_modem_preset : ℕ → ℕ
normalize_modem_preset preset =
    if is_valid_modem_preset preset then preset else modem_default_preset

pub record ModemParams (F32 : Type 0) : Type 0 where
  pub bandwidth_khz : F32
  pub spreading_factor : ℕ
  pub coding_rate : ℕ

pub record RadioConfig (F32 : Type 0) : Type 0 where
  pub modem_preset : ℕ
  pub bandwidth_khz : F32
  pub spreading_factor : ℕ
  pub coding_rate : ℕ
  pub sync_word : ℕ
  pub preamble_length : ℕ
  pub hop_limit : ℕ

abbrev pub sync_word_private : ℕ
sync_word_private = 0x2b

abbrev pub preamble_symbols : ℕ
preamble_symbols = 16

abbrev pub default_hop_limit : ℕ
default_hop_limit = 7

abbrev pub max_slot_time_ms : ℕ
max_slot_time_ms = 1000

-- `u64::div_ceil`
abbrev pub div_ceil : ℕ → ℕ → ℕ
div_ceil a b = if a % b == 0 then a / b else a / b + 1

module _ (fl : Float32) where
  open fl use {F32, lt, mul, whole, ratio, to_u32, is_finite}

  abbrev pub params : F32 → ℕ → ℕ → ModemParams F32
  params bandwidth spreading coding = record {
    bandwidth_khz = bandwidth;
    spreading_factor = spreading;
    coding_rate = coding;
  }

  unfoldable pub modem_preset_params : ℕ → Bool → ModemParams F32
  modem_preset_params preset wide_lora =
      let turbo = if wide_lora then whole 1625 else whole 500 in
      let fast = if wide_lora then ratio 1625 2 else whole 250 in
      let moderate = if wide_lora then ratio 1625 4 else whole 125 in
      let slow = if wide_lora then ratio 1625 4 else ratio 125 2 in
      if preset == modem_short_turbo
      then params turbo 7 5
      else if preset == modem_short_fast
      then params fast 7 5
      else if preset == modem_short_slow
      then params fast 8 5
      else if preset == modem_medium_fast
      then params fast 9 5
      else if preset == modem_medium_slow
      then params fast 10 5
      else if preset == modem_long_turbo
      then params turbo 11 8
      else if preset == modem_long_moderate
      then params moderate 11 8
      else if preset == modem_long_fast
      then params fast 11 5
      else if preset == modem_long_slow
      then params moderate 12 8
      else if preset == modem_very_long_slow
      then params slow 12 8
      else params (whole 0) 0 0

  unfoldable pub eu868_config_for_preset : ℕ → RadioConfig F32
  unfolding modem_preset_params
  eu868_config_for_preset preset =
      let p = modem_preset_params preset false in
      record {
        modem_preset = preset;
        bandwidth_khz = p.bandwidth_khz;
        spreading_factor = p.spreading_factor;
        coding_rate = p.coding_rate;
        sync_word = sync_word_private;
        preamble_length = preamble_symbols;
        hop_limit = default_hop_limit;
      }

  -- The width of the band in whole Hz.
  abbrev pub bw_hz : RadioConfig F32 → ℕ
  bw_hz config = to_u32 (mul config.bandwidth_khz (whole 1000))

  -- A band that the times can be worked out for.
  abbrev pub narrow : RadioConfig F32 → Bool
  narrow config = not (is_finite config.bandwidth_khz) || lt config.bandwidth_khz (whole 1)

  abbrev pub within : ℕ → ℕ → ℕ → Bool
  within low high n = leb low n && leb n high

  unfoldable pub slot_time_ms : RadioConfig F32 → ℕ
  slot_time_ms config =
      let symbol_time_x1000 =
        saturating_mul (2 ^ config.spreading_factor) 1_000_000 / bw_hz config in
      let cad_ms_x1000 = 5 * symbol_time_x1000 % 2 ^ 32 / 2 in
      if not (within 5 12 config.spreading_factor) || narrow config
      then max_slot_time_ms
      else (cad_ms_x1000 + 7600) % 2 ^ 32 / 1000

  -- The symbols of a payload; the difference stops at 0, as that of the code is made to.
  abbrev pub payload_symbols : RadioConfig F32 → ℕ → ℕ
  payload_symbols config payload_len =
      let denom = 4 * config.spreading_factor in
      let numerator = 8 * payload_len + 28 + 16 - 4 * config.spreading_factor in
      if denom == 0 then 0 else (numerator + denom - 1) / denom * (config.coding_rate - 4 + 4)

  unfoldable pub packet_time_ms : RadioConfig F32 → ℕ → ℕ
  packet_time_ms config payload_len =
      let quarter_symbols =
        4 * (config.preamble_length + 12 + payload_symbols config payload_len) + 1 in
      let time_us =
        div_ceil (quarter_symbols * 2 ^ config.spreading_factor * 1_000_000) (4 * bw_hz config) in
      if not (within 5 12 config.spreading_factor)
        || (not (within 5 8 config.coding_rate) || (narrow config || ltb 255 payload_len))
      then 0
      else min (div_ceil time_us 1000) (2 ^ 32 - 1)

unfoldable pub contention_window_ms : ℕ → ℕ
contention_window_ms preset =
    if preset == modem_long_fast || preset == modem_long_moderate
    then 3000
    else if preset == modem_very_long_slow || preset == modem_long_slow
    then 5000
    else if preset == modem_short_turbo || preset == modem_short_fast
    then 1500
    else 2000
