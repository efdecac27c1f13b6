-- ===== src/Routing/RateLimit/Limiter/Relay.antt =====
-- The budgets of airtime that a relay has.
use meshrustic.Base.{
  ℕ, ◌+◌, ◌*◌, ◌/◌, ◌≤◌, ◌<◌, min, max, arith, ◌==◌, if◌then◌else◌, saturating_mul,
}
use meshrustic.Base.Float.{Float32}
use meshrustic.Routing.RateLimit.Limiter.{relay_budgets, scaled_trip}

clamped : (x : ℕ) → let trip = min (max x 2000) 12_000 in (2000 ≤ trip) × (trip ≤ 12_000)
clamped x = omega arith

quarter :
    (trip : ℕ)
    → 2000 ≤ trip
    → trip ≤ 12_000
    → let clear = min (max (trip * 15 / 60) 500) 4000 in (4 * clear ≤ trip) × (trip < 4 * clear + 4)
quarter trip lo hi = omega arith

-- Whatever the airtime of a packet and the channel's utilisation, a NaN included, the airtime that
-- trips a relay lies between two and twelve seconds, and the airtime that keeps it limited is a
-- quarter of that, rounded down.
pub relay_budgets_lem :
    (fl : Float32) (air_ms : ℕ) (util : fl.F32)
    → let (trip, clear) = relay_budgets fl air_ms util in
      (2000 ≤ trip) × (trip ≤ 12_000) × (4 * clear ≤ trip) × (trip < 4 * clear + 4)
unfolding relay_budgets
relay_budgets_lem fl air_ms util =
    let x = scaled_trip fl (saturating_mul 60 (if air_ms == 0 then 100 else air_ms)) util in
    let (lo, hi) = clamped x in
    let (a, b) = quarter (min (max x 2000) 12_000) lo hi in (lo, hi, a, b)
