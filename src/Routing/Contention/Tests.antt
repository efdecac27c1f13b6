-- ===== src/Routing/Contention/Tests.antt =====
-- Contention windows at concrete signals and loads.
use meshrustic.Base.{◌-◌, ◌*◌, ◌≤◌, ◌<◌, ◌≡◌, refl, arith, saturating_add}
use meshrustic.Base.Float.Percent.{percent}
use meshrustic.Base.Int.{pos, negsuc}
use meshrustic.Routing.ChannelAccess.{
  cw_max, relay_floor_ms, half_airtime_ms, slot_delay_ms, slot_tie_break_ms,
}
use meshrustic.Routing.Contention.{
  cw_min, map_range, cw_size_from_snr, jitter_slots, contention_window_size, tx_delay_ms_contention,
  tx_delay_ms_contention_max_at, tx_delay_ms_contention_max, tx_delay_ms_worst,
  retransmission_delay_ms, slot_time_for_preset, transmission_record_window_ms,
}
use meshrustic.Base.Float.Thousandths.{thousandths}
use meshrustic.Radio.Timing.{
  slot_time_ms, packet_time_ms, eu868_config_for_preset, modem_preset_params, contention_window_ms,
  modem_short_slow, bw_hz,
}
use meshrustic.Routing.Contention.Bands.{cw_size_from_snr_lem}
use meshrustic.Routing.Contention.Ladder.{transmission_record_window_ms_lem}

-- At 12, -10, -30 and 7 dB.
cw_sizes :
    (cw_size_from_snr (pos 12) ≡ 8)
    × (cw_size_from_snr (negsuc 9) ≡ 4)
    × (cw_size_from_snr (negsuc 29) ≡ 3)
    × (cw_size_from_snr (pos 7) ≡ 7)
unfolding cw_size_from_snr map_range
cw_sizes = (refl, refl, refl, refl)

-- At half a load the window is 5, of 32 slots.
replies :
    (contention_window_size percent 50 ≡ 5)
    × (tx_delay_ms_contention percent 50 10 7 9 4 ≡ 100)
    × (tx_delay_ms_contention_max_at percent 50 10 ≡ 320)
    × (tx_delay_ms_contention_max 10 ≡ 2560)
    × (tx_delay_ms_worst 10 ≡ 2720)
    × (retransmission_delay_ms percent 200 10 50 ≡ 5700)
unfolding contention_window_size jitter_slots tx_delay_ms_contention tx_delay_ms_contention_max_at
    tx_delay_ms_contention_max tx_delay_ms_worst retransmission_delay_ms
replies = (refl, refl, refl, refl, refl, refl)

cw_size_from_snr_lem_example :
    (cw_min ≤ cw_size_from_snr (negsuc 9))
    × (cw_size_from_snr (negsuc 9) ≤ cw_size_from_snr (pos 12))
    × (cw_size_from_snr (pos 12) ≤ cw_max)
    × ((2 * cw_size_from_snr (negsuc 9) - 1) * 28 < relay_floor_ms 28)
cw_size_from_snr_lem_example =
    cw_size_from_snr_lem (negsuc 9) (pos 12) 28 refl (omega arith) (omega arith)

-- The source's test `slot_time_for_preset_matches_short_slow`, and the window of that preset.
long_enough :
    (slot_time_for_preset thousandths modem_short_slow ≡ 10)
    × (transmission_record_window_ms thousandths modem_short_slow ≡ 14_842)
unfolding slot_time_for_preset slot_time_ms eu868_config_for_preset modem_preset_params
    transmission_record_window_ms contention_window_ms packet_time_ms half_airtime_ms
    tx_delay_ms_worst
long_enough = (refl, refl)

has_width : 0 < bw_hz thousandths (eu868_config_for_preset thousandths 5)
unfolding eu868_config_for_preset modem_preset_params
has_width = omega arith

-- The last rung, for a frame of 200 bytes.
transmission_record_window_ms_lem_example :
    let airtime = packet_time_ms thousandths (eu868_config_for_preset thousandths 5) 200 in
    let half = half_airtime_ms airtime in
    let slot = slot_time_for_preset thousandths 5 in
    (contention_window_ms 5 ≤ transmission_record_window_ms thousandths 5)
    × (saturating_add
          (tx_delay_ms_worst slot)
          (packet_time_ms thousandths (eu868_config_for_preset thousandths 5) 255)
        ≤ transmission_record_window_ms thousandths 5)
    × (saturating_add
          (saturating_add (slot_delay_ms 40 half slot) (slot_tie_break_ms half 77 9))
          airtime
        ≤ transmission_record_window_ms thousandths 5)
transmission_record_window_ms_lem_example =
    transmission_record_window_ms_lem thousandths 5 40 77 9 200 has_width (omega arith)
      (omega arith)
