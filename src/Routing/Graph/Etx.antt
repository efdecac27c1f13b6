-- ===== src/Routing/Graph/Etx.antt =====
-- crates/mesh-routing/src/graph/etx.rs: the price of a link by the signal that is heard over it, and
-- `update_edge_from_observation` of graph/edge.rs. `etx_to_fixed` and `fixed_to_etx` are in Edge.
mod Tests
use meshrustic.Base.{
  ℕ, ◌+◌, Bool, true, false, not, ◌&&◌, Option, none, some, List, [], ◌∷◌, ◌==◌, if◌then◌else◌,
  get_or, drop, position,
}
use meshrustic.Base.Float.{Float32}
use meshrustic.Base.Int.{ℤ, pos, negsuc, ◌-ℤ◌, ltbℤ}
use meshrustic.Radio.Timing.{modem_preset_params}
use meshrustic.Routing.Graph.Edge.{Change, EdgeSource}
use meshrustic.Routing.Graph.Edge.Store.{EdgeStore}
use meshrustic.Routing.Graph.Edge.Update.{Report, update_edge}

-- -120 and -60 dBm, and -30.
abbrev pub rssi_weak : ℤ
rssi_weak = negsuc 119

abbrev pub rssi_strong : ℤ
rssi_strong = negsuc 59

abbrev pub saturated_rx_rssi_dbm : ℤ
saturated_rx_rssi_dbm = negsuc 29

abbrev pub is_zero : ℤ → Bool
is_zero (pos n) = n == 0
is_zero (negsuc n) = false

unfoldable pub normalize_rx_signal : ℤ → ℤ → Option (ℤ × ℤ)
normalize_rx_signal rssi snr =
    if is_zero rssi && is_zero snr
    then none
    else if is_zero rssi
    then some (saturated_rx_rssi_dbm, snr)
    else some (rssi, snr)

abbrev pub or_zero : Option ℕ → ℕ
or_zero none = 0
or_zero (some i) = i

module _ (fl : Float32) where
  open fl use {F32, lt, le, add, sub, mul, div, max_of, clamp, whole, ratio, is_finite, to_i8}

  -- `-x`, and `as f32` of a whole number.
  abbrev pub neg : F32 → F32
  neg x = sub (whole 0) x

  abbrev pub of_int : ℤ → F32
  of_int (pos n) = whole n
  of_int (negsuc n) = neg (whole (n + 1))

  -- `as f32` of a `u8`, less 7.
  unfoldable pub spreading_factor_snr_threshold_db : ℕ → F32
  spreading_factor_snr_threshold_db spreading_factor =
      add (neg (ratio 15 2)) (mul (neg (ratio 5 2)) (sub (whole spreading_factor) (whole 7)))

  unfoldable pub preset_snr_threshold_db : ℕ → F32
  unfolding modem_preset_params spreading_factor_snr_threshold_db
  preset_snr_threshold_db modem_preset =
      spreading_factor_snr_threshold_db (modem_preset_params fl modem_preset false).spreading_factor

  abbrev pub margin_break_db : List F32
  margin_break_db =
      neg (whole 10) ∷ neg (whole 5) ∷ neg (whole 2) ∷ whole 0 ∷ whole 6 ∷ whole 12 ∷ whole 17 ∷ []

  abbrev pub margin_prob : List F32
  margin_prob =
      ratio 1 40
      ∷ ratio 7 200
      ∷ ratio 13 200
      ∷ ratio 1 10
      ∷ ratio 2 5
      ∷ ratio 31 50
      ∷ ratio 19 20
      ∷ []

  abbrev pub margin_last : ℕ
  margin_last = 6

  abbrev pub break_at : ℕ → F32
  break_at i = get_or margin_break_db i (whole 0)

  abbrev pub prob_at : ℕ → F32
  prob_at i = get_or margin_prob i (whole 0)

  -- The first segment that ends above the value.
  abbrev pub segment : List F32 → F32 → ℕ
  segment ends x = or_zero (position (λ end. lt x end) (drop 1 ends))

  unfoldable pub margin_delivery_probability : F32 → F32
  margin_delivery_probability margin_db =
      let seg = segment margin_break_db margin_db in
      let t = div (sub margin_db (break_at seg)) (sub (break_at (seg + 1)) (break_at seg)) in
      if le margin_db (break_at 0)
      then prob_at 0
      else if le (break_at margin_last) margin_db
      then prob_at margin_last
      else add (prob_at seg) (mul t (sub (prob_at (seg + 1)) (prob_at seg)))

  unfoldable pub rssi_quality_factor : ℤ → F32
  rssi_quality_factor rssi =
      let t = div (of_int (rssi -ℤ rssi_weak)) (of_int (rssi_strong -ℤ rssi_weak)) in
      if not (ltbℤ rssi_weak rssi)
      then ratio 9 10
      else if not (ltbℤ rssi rssi_strong)
      then whole 1
      else add (ratio 9 10) (mul t (sub (whole 1) (ratio 9 10)))

  -- A signal that is no number counts as one of -100 dB.
  unfoldable pub calculate_etx : ℤ → F32 → ℕ → F32
  unfolding preset_snr_threshold_db margin_delivery_probability rssi_quality_factor
  calculate_etx rssi snr modem_preset =
      let finite_snr = if is_finite snr then snr else neg (whole 100) in
      let margin = sub finite_snr (preset_snr_threshold_db modem_preset) in
      let prob = mul (margin_delivery_probability margin) (rssi_quality_factor rssi) in
      if lt (whole 0) prob then div (whole 1) prob else whole 100

  unfoldable pub etx_to_signal : F32 → ℕ → ℤ × ℤ
  unfolding preset_snr_threshold_db
  etx_to_signal etx modem_preset =
      let target_prob =
        clamp (div (whole 1) (max_of etx (whole 1))) (prob_at 0) (prob_at margin_last) in
      let seg = segment margin_prob target_prob in
      let t = div (sub target_prob (prob_at seg)) (sub (prob_at (seg + 1)) (prob_at seg)) in
      let margin =
        if le target_prob (prob_at 0)
        then break_at 0
        else if le (prob_at margin_last) target_prob
        then break_at margin_last
        else add (break_at seg) (mul t (sub (break_at (seg + 1)) (break_at seg))) in
      let snr = add (preset_snr_threshold_db modem_preset) margin in
      (rssi_strong, to_i8 (clamp snr (neg (whole 128)) (whole 127)))

  -- The report of a signal that we hear, at its price.
  abbrev pub observed : ℕ → ℤ → ℤ → ℕ → EdgeSource → ℕ → ℕ → Report F32
  observed to rssi snr now_ms source heard_on modem_preset = record {
    to = to;
    etx = calculate_etx rssi (of_int snr) modem_preset;
    now_ms = now_ms;
    source = source;
    update_timestamp = true;
    heard_on = heard_on;
  }

  unfoldable pub update_edge_from_observation :
      EdgeStore → ℕ → ℕ → ℕ → ℤ → ℤ → ℕ → EdgeSource → ℕ → ℕ → Change × EdgeStore
  unfolding calculate_etx update_edge
  update_edge_from_observation s my_node from to rssi snr now_ms source heard_on modem_preset =
      update_edge fl s my_node from (observed to rssi snr now_ms source heard_on modem_preset)
