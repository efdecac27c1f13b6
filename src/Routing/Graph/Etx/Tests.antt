-- ===== src/Routing/Graph/Etx/Tests.antt =====
-- Prices of signals, those of the source's tests.
use meshrustic.Base.{◌≡◌, refl, true, none, some}
use meshrustic.Base.Float.Thousandths.{thousandths}
use meshrustic.Base.Int.{pos, negsuc, ltbℤ}
use meshrustic.Radio.Timing.{modem_preset_params, modem_short_slow, modem_long_slow}
use meshrustic.Routing.Graph.Etx.{
  normalize_rx_signal, spreading_factor_snr_threshold_db, preset_snr_threshold_db,
  margin_delivery_probability, rssi_quality_factor, calculate_etx, etx_to_signal,
  saturated_rx_rssi_dbm,
}

-- `normalize_rx_signal_remaps_clipped_rssi`
remapped :
    (normalize_rx_signal (pos 0) (pos 0) ≡ none)
    × (normalize_rx_signal (pos 0) (pos 14) ≡ some (saturated_rx_rssi_dbm, pos 14))
    × (normalize_rx_signal (negsuc 69) (pos 8) ≡ some (negsuc 69, pos 8))
    × (normalize_rx_signal (negsuc 69) (pos 0) ≡ some (negsuc 69, pos 0))
unfolding normalize_rx_signal
remapped = (refl, refl, refl, refl)

-- `strong_signal_low_etx`, `margin_at_threshold_pins_the_zero_margin_probability`,
-- `below_threshold_link_prices_above_the_coverage_ceiling_at_short_slow`,
-- `above_threshold_link_clears_the_coverage_ceiling_at_short_slow` and, at the slow preset,
-- `both_links_are_usable_at_long_slow`.
priced :
    (ltbℤ (calculate_etx thousandths (negsuc 59) (pos 10_000) modem_short_slow) (pos 2000) ≡ true)
    × (calculate_etx thousandths (negsuc 59) (negsuc 9999) modem_short_slow ≡ pos 10_000)
    × (ltbℤ (pos 7000) (calculate_etx thousandths (negsuc 103) (negsuc 11_999) modem_short_slow)
        ≡ true)
    × (ltbℤ (calculate_etx thousandths (negsuc 105) (negsuc 4999) modem_short_slow) (pos 7000)
        ≡ true)
    × (ltbℤ (calculate_etx thousandths (negsuc 103) (negsuc 11_999) modem_long_slow) (pos 7000)
        ≡ true)
unfolding calculate_etx preset_snr_threshold_db spreading_factor_snr_threshold_db
    modem_preset_params margin_delivery_probability rssi_quality_factor
priced = (refl, refl, refl, refl, refl)

-- The signal at the decoder's threshold has the price 10.
recovered : etx_to_signal thousandths (pos 10_000) modem_short_slow ≡ (negsuc 59, negsuc 9)
unfolding etx_to_signal preset_snr_threshold_db spreading_factor_snr_threshold_db
    modem_preset_params
recovered = refl
