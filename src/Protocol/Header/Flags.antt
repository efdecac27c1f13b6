-- ===== src/Protocol/Header/Flags.antt =====
-- The flags byte: what is packed into it is what is read from it.
use Prim.Native.Nat.{bit_and, bit_or}
use mathlib.Core.Path.{ap₂}
use meshrustic.Base.{
  ℕ, ◌*◌, ◌/◌, ◌%◌, ◌<◌, ◌≡◌, refl, ◌∙◌, Bool, true, false, not, ◌&&◌, arith, ◌==◌, ==_iff,
  if◌then◌else◌, every_below, every_below_lem,
}
use meshrustic.Protocol.Header.{
  PacketHeader, encode_flags, hop_limit, hop_start, want_ack, via_mqtt, clear_want_ack,
}

abbrev bool_eq : Bool → Bool → Bool
bool_eq true b = b
bool_eq false b = not b

bool_eq→eq : (a b : Bool) → bool_eq a b ≡ true → a ≡ b
bool_eq→eq a b h = ground arith

low_table : every_below 256 (λ x. bit_and x 7 == x % 8) ≡ true
unfolding every_below
low_table = refl

high_table : every_below 256 (λ x. bit_and (x * 32 % 256) 0xe0 == x % 8 * 32) ≡ true
unfolding every_below
high_table = refl

-- The header with these flags.
abbrev with_flags : ℕ → PacketHeader
with_flags f = record {
  to = 0;
  from = 0;
  id = 0;
  flags = f;
  channel = 0;
  next_hop = 0;
  relay_node = 0;
}

abbrev packed : ℕ → ℕ → Bool → Bool → ℕ
packed l s a m = bit_or (bit_or (bit_or l (s * 32)) (if a then 8 else 0)) (if m then 16 else 0)

abbrev unpacks : Bool → Bool → ℕ → ℕ → Bool
unpacks a m l s =
    (bit_and (packed l s a m) 7 == l)
    && ((bit_and (packed l s a m) 0xe0 / 32 == s)
        && (bool_eq (not (bit_and (packed l s a m) 8 == 0)) a
            && bool_eq (not (bit_and (packed l s a m) 16 == 0)) m))

unpack_table : (a m : Bool) → every_below 8 (λ l. every_below 8 (λ s. unpacks a m l s)) ≡ true
unfolding every_below
unpack_table true true = refl
unpack_table true false = refl
unpack_table false true = refl
unpack_table false false = refl

unpacks_all : (a m : Bool) (l s : ℕ) → l < 8 → s < 8 → unpacks a m l s ≡ true
unpacks_all a m l s hl hs =
    every_below_lem 8 (λ s'. unpacks a m l s') s
      (every_below_lem 8 (λ l'. every_below 8 (λ s'. unpacks a m l' s')) l (unpack_table a m) hl) hs

encode_flags-packed :
    (l s : ℕ) (a m : Bool) → l < 256 → s < 256 → encode_flags l s a m ≡ packed (l % 8) (s % 8) a m
unfolding encode_flags
encode_flags-packed l s a m hl hs =
    ap₂ (λ x y. bit_or (bit_or (bit_or x y) (if a then 8 else 0)) (if m then 16 else 0))
      ((==_iff _ _).0 (every_below_lem 256 _ l low_table hl))
      ((==_iff _ _).0 (every_below_lem 256 _ s high_table hs))

-- Whatever two bytes and flags are packed, the header reads the two hop counts modulo 8 and the two
-- flags unchanged.
pub flags_roundtrip :
    (h : PacketHeader) (l s : ℕ) (a m : Bool)
    → l < 256
    → s < 256
    → h.flags ≡ encode_flags l s a m
    → (hop_limit h ≡ l % 8) × (hop_start h ≡ s % 8) × (want_ack h ≡ a) × (via_mqtt h ≡ m)
unfolding hop_limit hop_start want_ack via_mqtt
flags_roundtrip h l s a m hl hs e = rw (e ∙ encode_flags-packed l s a m hl hs) (
    ground (
      arith,
      unpacks_all a m (l % 8) (s % 8),
      bool_eq→eq (not (bit_and (packed (l % 8) (s % 8) a m) 8 == 0)) a,
      bool_eq→eq (not (bit_and (packed (l % 8) (s % 8) a m) 16 == 0)) m,
    ))

clear_table :
    every_below 256 (λ f.
      (bit_and (bit_and f 0xf7) 7 == bit_and f 7)
      && ((bit_and (bit_and f 0xf7) 0xe0 == bit_and f 0xe0)
          && ((bit_and (bit_and f 0xf7) 16 == bit_and f 16) && (bit_and (bit_and f 0xf7) 8 == 0))))
    ≡ true
unfolding every_below
clear_table = refl

-- Clearing the acknowledgement flag clears it and leaves the hop counts and the other flag.
pub clear_want_ack_lem :
    (h : PacketHeader)
    → h.flags < 256
    → (want_ack (clear_want_ack h) ≡ false)
      × (hop_limit (clear_want_ack h) ≡ hop_limit h)
      × (hop_start (clear_want_ack h) ≡ hop_start h)
      × (via_mqtt (clear_want_ack h) ≡ via_mqtt h)
unfolding hop_limit hop_start want_ack via_mqtt clear_want_ack
clear_want_ack_lem h lt = ground (arith, every_below_lem 256 _ h.flags clear_table lt)
