-- ===== src/Routing/RelayWindow/Tests.antt =====
-- The placement of relays at concrete airtimes.
use meshrustic.Base.{◌≡◌, refl, arith, List, [], ◌∷◌}
use meshrustic.Routing.ChannelAccess.{relay_floor_ms}
use meshrustic.Routing.RelayWindow.{
  new_allocator, new_layout, window_width_ms, place, place_reserved, place_ranked, first_rung_ms,
  spill, take_reserved, take_rung, take_late_rung,
}
use meshrustic.Routing.RelayWindow.Takes.{Take, reserved, rung, late, moments, Spaced}
use meshrustic.Routing.RelayWindow.Spaced.{take-Spaced}

-- Slots of 20 ms and half frames of 200 ms: the window holds a reservation and two frames.
abbrev mixed : List Take
mixed = reserved ∷ rung ∷ rung ∷ rung ∷ reserved ∷ late ∷ []

runs :
    moments 20 200 mixed (new_allocator 20 200)
    ≡ (0, 20) ∷ (20, 200) ∷ (220, 200) ∷ (420, 200) ∷ (620, 200) ∷ (820, 200) ∷ []
unfolding new_allocator new_layout window_width_ms take_reserved take_rung take_late_rung
    place_reserved place_ranked place spill first_rung_ms relay_floor_ms
runs = refl

take-Spaced_example : Spaced 0 (moments 20 200 mixed (new_allocator 20 200))
take-Spaced_example = take-Spaced 20 200 (omega arith) mixed (omega arith) tt
