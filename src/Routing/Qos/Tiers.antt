-- ===== src/Routing/Qos/Tiers.antt =====
-- The tiers are ordered: what the channel still carries of one tier it carries of every higher one.
use meshrustic.Base.{ℕ, ◌≤◌, ◌≡◌, refl, Bool, true, Option, arith}
use meshrustic.Base.Float.{Float32}
use meshrustic.Protocol.Portnum.{QosTier, low, medium, high, critical, qos_tier}
use meshrustic.Routing.Qos.{ChannelQos, can_relay}

abbrev pub rank : QosTier → ℕ
rank low = 0
rank medium = 1
rank high = 2
rank critical = 3

-- The test of `can_relay` for a packet of a tier.
abbrev pub admits : (fl : Float32) → QosTier → fl.F32 → Bool
admits fl low x = fl.lt x (fl.whole 25)
admits fl medium x = fl.lt x (fl.whole 30)
admits fl high x = fl.lt x (fl.whole 38)
admits fl critical x = true

admits_mono :
    (fl : Float32) (s t : QosTier) (x : fl.F32)
    → rank s ≤ rank t
    → admits fl s x ≡ true
    → admits fl t x ≡ true
admits_mono fl low low x le h = h
admits_mono fl low medium x le h = fl.lt-whole x 25 30 (omega arith) h
admits_mono fl low high x le h = fl.lt-whole x 25 38 (omega arith) h
admits_mono fl medium low x le h = absurd (omega arith)
admits_mono fl medium medium x le h = h
admits_mono fl medium high x le h = fl.lt-whole x 30 38 (omega arith) h
admits_mono fl high low x le h = absurd (omega arith)
admits_mono fl high medium x le h = absurd (omega arith)
admits_mono fl high high x le h = h
admits_mono fl critical low x le h = absurd (omega arith)
admits_mono fl critical medium x le h = absurd (omega arith)
admits_mono fl critical high x le h = absurd (omega arith)
admits_mono fl s critical x le h = refl

can_relay-admits :
    (fl : Float32) (q : ChannelQos) (p : Option ℕ) (c : ℕ) (x : fl.F32)
    → can_relay fl q p c x ≡ admits fl (qos_tier p c q.primary_channel) x
unfolding can_relay
can_relay-admits fl q p c x = by_tier (qos_tier p c q.primary_channel)
  where
    by_tier :
        (t : QosTier)
        → elim t as (λ _. Bool) [
          | low ↦ fl.lt x (fl.whole 25)
          | medium ↦ fl.lt x (fl.whole 30)
          | high ↦ fl.lt x (fl.whole 38)
          | critical ↦ true
        ]
          ≡ admits fl t x
    by_tier low = refl
    by_tier medium = refl
    by_tier high = refl
    by_tier critical = refl

-- At one utilisation of the channel, if a packet may be relayed then so may every packet of the same
-- or a higher tier.
pub can_relay_mono :
    (fl : Float32) (q : ChannelQos) (p p' : Option ℕ) (c c' : ℕ) (x : fl.F32)
    → rank (qos_tier p c q.primary_channel) ≤ rank (qos_tier p' c' q.primary_channel)
    → can_relay fl q p c x ≡ true
    → can_relay fl q p' c' x ≡ true
can_relay_mono fl q p p' c c' x le h = rw (can_relay-admits fl q p' c' x) (
    admits_mono fl (qos_tier p c q.primary_channel) (qos_tier p' c' q.primary_channel) x le
      (rw (can_relay-admits fl q p c x) at h))
