-- ===== src/Routing/Qos/Tests.antt =====
-- Runs of the quality of service at concrete inputs, with whole percentages, rounded down, for the floats.
use meshrustic.Base.{◌≡◌, refl, true, false, none}
use meshrustic.Base.Float.Percent.{percent}
use meshrustic.Protocol.Portnum.{qos_tier}
use meshrustic.Routing.Qos.{ChannelQos, can_relay}

abbrev primary : ChannelQos
primary = record { primary_channel = 0 }

-- The source's test `low_tier_blocked_at_25_percent`.
low_tier :
    (can_relay percent primary none 0 24 ≡ true) × (can_relay percent primary none 0 25 ≡ false)
unfolding can_relay qos_tier
low_tier = (refl, refl)
