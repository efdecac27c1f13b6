-- ===== src/Radio/Timing/Airtime.antt =====
-- The time of a longer frame is no shorter.
use native.Mathlib.Nat.{
  mul-le-mul_right, mul-le-mul_left, le-div_iff_mul-le, div-mul-le_self, div-add-mod,
}
use meshrustic.Base.{
  ℕ, ◌+◌, ◌-◌, ◌*◌, ◌/◌, ◌%◌, ◌≤◌, ◌<◌, ◌≡◌, ◌==◌, ltb, not, ◌||◌, min, ◌^◌, refl, if◌then◌else◌,
  Bool-cases, Bool, true, false, inl, inr, arith,
}
use meshrustic.Base.Float.{Float32}
use meshrustic.Radio.Timing.{
  RadioConfig, div_ceil, payload_symbols, packet_time_ms, bw_hz, within, narrow,
}

div_mono : (a b d : ℕ) → 0 < d → a ≤ b → a / d ≤ b / d
div_mono a b d some_d le =
    let below = div-mul-le_self a d in
    let (_, back) = le-div_iff_mul-le {k = d} {x = a / d} {y = b} some_d in
    back (omega (arith, below, le))

div_ceil_mono : (a b d : ℕ) → 0 < d → a ≤ b → div_ceil a d ≤ div_ceil b d
div_ceil_mono a b d some_d le =
    let quotients = div_mono a b d some_d le in
    let whole_a = div-add-mod a d in
    let whole_b = div-add-mod b d in
    elim (Bool-cases (a % d == 0)) [
      | inl even ↦ ground (arith, quotients, even)
      | inr odd ↦ elim (Bool-cases (b % d == 0)) [
        | inl even ↦ elim (Bool-cases (ltb (a / d) (b / d))) [
          | inl less ↦ ground (arith, odd, even, less)
          | inr more ↦
              let below : b / d ≤ a / d = ground (arith, more) in
              let rest : 0 < a % d = ground (arith, odd) in
              let none_left : b % d ≡ 0 = ground (arith, even) in
              absurd (omega (arith, mul-le-mul_left d below, whole_a, whole_b, rest, none_left, le))
        ]
        | inr both ↦ ground (arith, quotients, odd, both)
      ]
    ]

guarded : (b : Bool) (x y : ℕ) → (b ≡ false → x ≤ y) → (if b then 0 else x) ≤ (if b then 0 else y)
guarded true x y h = omega arith
guarded false x y h = h refl

module _ (fl : Float32) (config : RadioConfig (fl.F32)) where
  abbrev time_of : ℕ → ℕ
  time_of symbols =
      div_ceil
        (div_ceil
          ((4 * (config.preamble_length + 12 + symbols) + 1)
            * 2 ^ config.spreading_factor
            * 1_000_000)
          (4 * bw_hz fl config))
        1000

  symbols_mono :
      (n m : ℕ)
      → 0 < config.spreading_factor
      → n ≤ m
      → payload_symbols fl config n ≤ payload_symbols fl config m
  symbols_mono n m some le =
      let denom = 4 * config.spreading_factor in
      let positive : 0 < denom = omega (arith, some) in
      let there : (denom == 0) ≡ false = ground (arith, positive) in
      rw there (
        mul-le-mul_right (config.coding_rate - 4 + 4) (
          div_mono (8 * n + 28 + 16 - denom + denom - 1) (8 * m + 28 + 16 - denom + denom - 1) denom
            positive (omega (arith, le))))

  time_of_mono : (a b : ℕ) → 0 < bw_hz fl config → a ≤ b → time_of a ≤ time_of b
  time_of_mono a b wide le =
      let quarters : 4 * (config.preamble_length + 12 + a) + 1
          ≤ 4 * (config.preamble_length + 12 + b) + 1 =
        omega (arith, le) in
      div_ceil_mono _ _ 1000 (omega arith) (
        div_ceil_mono _ _ (4 * bw_hz fl config) (omega (arith, wide))
          (mul-le-mul_right 1_000_000 (mul-le-mul_right (2 ^ config.spreading_factor) quarters)))

  -- A frame is on air for no less time than a shorter one, where the band has a width and the frames
  -- have 255 bytes at most.
  pub packet_time_ms_lem :
      (n m : ℕ)
      → 0 < bw_hz fl config
      → n ≤ m
      → m ≤ 255
      → packet_time_ms fl config n ≤ packet_time_ms fl config m
  unfolding packet_time_ms
  packet_time_ms_lem n m wide le fits =
      let short : ltb 255 n ≡ false = ground (arith, le, fits) in
      let long : ltb 255 m ≡ false = ground (arith, fits) in
      let malformed =
        not (within fl 5 12 config.spreading_factor)
        || (not (within fl 5 8 config.coding_rate) || (narrow fl config || false)) in
      rw (short, long)
        (guarded malformed (min (time_of (payload_symbols fl config n)) (2 ^ 32 - 1))
          (min (time_of (payload_symbols fl config m)) (2 ^ 32 - 1))
          (λ good.
            let some : 0 < config.spreading_factor = ground (arith, good) in
            let less =
              time_of_mono (payload_symbols fl config n) (payload_symbols fl config m) wide
                (symbols_mono n m some le) in
            omega (arith, less)))
