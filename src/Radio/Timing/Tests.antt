-- ===== src/Radio/Timing/Tests.antt =====
-- The times of the presets, those of the source's tests.
use meshrustic.Base.{◌≡◌, ◌≤◌, arith, refl, true, [], ◌∷◌, map, ltb}
use meshrustic.Base.Float.Thousandths.{thousandths}
use meshrustic.Radio.Timing.{
  modem_preset_params, eu868_config_for_preset, slot_time_ms, packet_time_ms, modem_short_slow,
  modem_default_preset,
}
use meshrustic.Base.Int.{pos}
use meshrustic.Radio.Timing.Airtime.{packet_time_ms_lem}

-- The source's test `slot_time_matches_the_public_table_at_every_preset`.
slots :
    map
      (λ preset. slot_time_ms thousandths (eu868_config_for_preset thousandths preset))
      (8 ∷ 6 ∷ 5 ∷ 4 ∷ 3 ∷ 9 ∷ 7 ∷ 0 ∷ 1 ∷ 2 ∷ [])
    ≡ 8 ∷ 8 ∷ 10 ∷ 12 ∷ 17 ∷ 17 ∷ 48 ∷ 28 ∷ 89 ∷ 171 ∷ []
unfolding slot_time_ms eu868_config_for_preset modem_preset_params
slots = refl

-- The source's test `short_slow_max_packet_is_reasonable`.
reasonable :
    ltb 100 (packet_time_ms thousandths (eu868_config_for_preset thousandths modem_short_slow) 255)
    ≡ true
unfolding packet_time_ms eu868_config_for_preset modem_preset_params
reasonable = refl

-- The source's test `preamble_quarter_symbol_is_included`.
quarter :
    packet_time_ms thousandths
      (record (eu868_config_for_preset thousandths modem_default_preset) {
        spreading_factor = 12;
        bandwidth_khz = pos 125_000;
        preamble_length = 8;
      })
      0
    ≡ 664
unfolding packet_time_ms eu868_config_for_preset modem_preset_params
quarter = refl

packet_time_ms_lem_example :
    packet_time_ms thousandths (eu868_config_for_preset thousandths modem_short_slow) 29
    ≤ packet_time_ms thousandths (eu868_config_for_preset thousandths modem_short_slow) 200
unfolding eu868_config_for_preset modem_preset_params
packet_time_ms_lem_example =
    packet_time_ms_lem thousandths (eu868_config_for_preset thousandths modem_short_slow) 29 200
      (omega arith) (omega arith) (omega arith)
