-- ===== src/Routing/Qos.antt =====
-- crates/mesh-routing/src/qos.rs: which packets a node still relays as the channel fills up.
-- The channel utilisation is an `f32`, a parameter of the model.
pub mod Tiers
mod Tests
use meshrustic.Base.{ℕ, Bool, true, Option}
use meshrustic.Base.Float.{Float32}
use meshrustic.Protocol.Portnum.{QosTier, low, medium, high, critical, qos_tier}

pub record ChannelQos : Type 0 where
  pub primary_channel : ℕ

module _ (fl : Float32) where
  open fl use {F32, lt, whole, largest}

  pub can_relay : ChannelQos → Option ℕ → ℕ → F32 → Bool
  can_relay q decoded_portnum channel chutil_pct =
      elim (qos_tier decoded_portnum channel q.primary_channel) [
        | low ↦ lt chutil_pct (whole 25)
        | medium ↦ lt chutil_pct (whole 30)
        | high ↦ lt chutil_pct (whole 38)
        | critical ↦ true
      ]

  pub suppress_threshold_pct : ChannelQos → Option ℕ → ℕ → F32
  suppress_threshold_pct q decoded_portnum channel =
      elim (qos_tier decoded_portnum channel q.primary_channel) [
        | low ↦ whole 25
        | medium ↦ whole 30
        | high ↦ whole 38
        | critical ↦ largest
      ]
