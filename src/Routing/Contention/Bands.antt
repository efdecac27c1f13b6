-- ===== src/Routing/Contention/Bands.antt =====
-- The early band of the relays and the back-off of a reply.
use native.Mathlib.Nat.{mul-le-mul_right, add-mul, mod-lt, two-pow-succ}
use Prim.Native.Nat.{bit_xor}
use meshrustic.Base.{
  ℕ, zero, suc, ◌==◌, ◌+◌, ◌-◌, ◌*◌, ◌/◌, ◌%◌, ◌^◌, ◌≤◌, ◌<◌, ◌≡◌, refl, true, false, leb, ltb,
  if◌then◌else◌, arith, Bool-cases, inl, inr,
}
use meshrustic.Base.Float.{Float32}
use meshrustic.Base.Int.{ℤ, pos, negsuc, ◌-ℤ◌, ltbℤ, clampℤ, as_u32}
use meshrustic.Routing.ChannelAccess.{cw_max, relay_floor_ms}
use meshrustic.Routing.Contention.{
  cw_min, snr_min, snr_max, map_range, cw_size_from_snr, jitter_slots, contention_window_size,
  slots_of, tx_delay_ms_contention, tx_delay_ms_contention_max_at,
}

-- The place of the signal in the range of the windows, from 0 to 30.
abbrev level : ℤ → ℕ
level snr = as_u32 (clampℤ snr snr_min snr_max -ℤ snr_min)

level_pos : (n : ℕ) → level (pos n) ≡ (if ltb 10 n then 30 else n + 20)
level_pos n = elim (Bool-cases (ltb 10 n)) [
  | inl above ↦ rw above refl
  | inr within ↦ rw within (omega arith)
]

level_negsuc : (n : ℕ) → level (negsuc n) ≡ (if ltb 19 n then 0 else 19 - n)
level_negsuc n = elim (Bool-cases (ltb 19 n)) [
  | inl below ↦ rw below refl
  | inr within ↦ let small : leb n 19 ≡ true = ground (arith, within) in rw (within, small) refl
]

level_le : (snr : ℤ) → level snr ≤ 30
level_le (pos n) = ground (arith, level_pos n)
level_le (negsuc n) = ground (arith, level_negsuc n)

window_of : (snr : ℤ) → cw_size_from_snr snr ≡ 3 + level snr * 5 / 30
unfolding cw_size_from_snr map_range
window_of snr =
    let low = level_le snr in
    let numer : level snr * 5 % 2 ^ 32 ≡ level snr * 5 = omega (arith, low) in
    rw numer (omega (arith, low))

level_mono : (snr snr' : ℤ) → ltbℤ snr' snr ≡ false → level snr ≤ level snr'
level_mono (pos m) (pos n) e = ground (arith, level_pos m, level_pos n, e)
level_mono (pos m) (negsuc n) e = absurd (cc)
level_mono (negsuc m) (pos n) e = ground (arith, level_negsuc m, level_pos n)
level_mono (negsuc m) (negsuc n) e = ground (arith, level_negsuc m, level_negsuc n, e)

-- A stronger signal has no smaller window, and the last slot of the band of any window ends before the
-- first rung of the other relays, where the delays do not wrap.
pub cw_size_from_snr_lem :
    (snr snr' : ℤ) (slot_ms : ℕ)
    → ltbℤ snr' snr ≡ false
    → 0 < slot_ms
    → 16 * slot_ms < 2 ^ 32
    → (cw_min ≤ cw_size_from_snr snr)
      × (cw_size_from_snr snr ≤ cw_size_from_snr snr')
      × (cw_size_from_snr snr' ≤ cw_max)
      × ((2 * cw_size_from_snr snr - 1) * slot_ms < relay_floor_ms slot_ms)
unfolding relay_floor_ms
cw_size_from_snr_lem snr snr' slot_ms weaker some_time no_wrap =
    let low = level_le snr in
    let low' = level_le snr' in
    let here = window_of snr in
    let there = window_of snr' in
    let up = level_mono snr snr' weaker in
    let band : 2 * cw_size_from_snr snr - 1 ≤ 15 = omega (arith, here, low) in
    (
      omega (arith, here),
      omega (arith, here, there, up),
      omega (arith, there, low'),
      omega (arith, mul-le-mul_right slot_ms band, some_time, no_wrap),
    )

power_positive : (n : ℕ) → 0 < 2 ^ n
power_positive zero = omega arith
power_positive (suc n) = omega (arith, two-pow-succ n, power_positive n)

jitter_lt : (a b node_num span : ℕ) → 0 < span → jitter_slots a b node_num span < span
unfolding jitter_slots
jitter_lt a b node_num span some_slot =
    let below = mod-lt (bit_xor (bit_xor a b) node_num) some_slot in
    let there : (span == 0) ≡ false = ground (arith, some_slot) in rw there below

-- A slot before the end of the span.
waits :
    (j span slot : ℕ)
    → j < span
    → span * slot < 2 ^ 32
    → j * slot % 2 ^ 32 + slot ≤ span * slot % 2 ^ 32
waits j span slot lt no_wrap =
    let next : j + 1 ≤ span = omega (arith, lt) in
    omega (arith, mul-le-mul_right slot next, add-mul j 1 slot, no_wrap)

module _ (fl : Float32) where
  -- A reply goes out by a slot at least before the longest delay at its load of the channel, where the
  -- delays do not wrap.
  pub tx_delay_ms_contention_lem :
      (channel_util_pct : fl.F32) (slot_ms seed_a seed_b node_num : ℕ)
      → slots_of (contention_window_size fl channel_util_pct) * slot_ms < 2 ^ 32
      → tx_delay_ms_contention fl channel_util_pct slot_ms seed_a seed_b node_num + slot_ms
        ≤ tx_delay_ms_contention_max_at fl channel_util_pct slot_ms
  unfolding tx_delay_ms_contention tx_delay_ms_contention_max_at jitter_slots
  tx_delay_ms_contention_lem channel_util_pct slot_ms seed_a seed_b node_num no_wrap =
      let span = slots_of (contention_window_size fl channel_util_pct) in
      waits (jitter_slots seed_a seed_b node_num span) span slot_ms
        (jitter_lt seed_a seed_b node_num span
          (power_positive (contention_window_size fl channel_util_pct % 32)))
        no_wrap
