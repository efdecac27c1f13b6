-- ===== src/Protocol/Header.antt =====
-- crates/mesh-protocol/src/header.rs and constants.rs: the sixteen-byte packet header, its flags
-- byte, and the view of a frame that the router works with. Bytes and words are native numbers;
-- the range of each is a hypothesis where a theorem needs it.
pub mod Flags
pub mod Codec
mod Tests
use Prim.Native.Nat.{bit_and, bit_or}
use meshrustic.Base.{
  ℕ, ◌+◌, ◌*◌, ◌/◌, ◌%◌, ◌^◌, Bool, true, false, not, List, [], ◌∷◌, ltb, ◌==◌, if◌then◌else◌,
  length, get_or, drop,
}

abbrev pub packet_header_len : ℕ
packet_header_len = 16

abbrev pub hop_limit_mask : ℕ
hop_limit_mask = 0x07

abbrev pub want_ack_mask : ℕ
want_ack_mask = 0x08

abbrev pub via_mqtt_mask : ℕ
via_mqtt_mask = 0x10

abbrev pub hop_start_mask : ℕ
hop_start_mask = 0xe0

abbrev pub hop_start_shift : ℕ
hop_start_shift = 5

abbrev pub nodenum_broadcast : ℕ
nodenum_broadcast = 0xffff_ffff

abbrev pub no_next_hop_preference : ℕ
no_next_hop_preference = 0

abbrev pub no_relay_node : ℕ
no_relay_node = 0

pub record PacketHeader : Type 0 where
  pub to : ℕ
  pub from : ℕ
  pub id : ℕ
  pub flags : ℕ
  pub channel : ℕ
  pub next_hop : ℕ
  pub relay_node : ℕ

pub record ParsedPacket : Type 0 where
  pub to : ℕ
  pub from : ℕ
  pub id : ℕ
  pub channel : ℕ
  pub hop_limit : ℕ
  pub hop_start : ℕ
  pub want_ack : Bool
  pub via_mqtt : Bool
  pub next_hop : ℕ
  pub relay_node : ℕ

pub data DecodeError : Type 0 where
  too_short : DecodeError

pub data Result {ℓ} (A : Type ℓ) : Type ℓ where
  ok : A → Result A
  err : DecodeError → Result A

infixl 5 ◌>>=◌
abbrev pub ◌>>=◌ {ℓ κ} : {A : Type ℓ} {B : Type κ} → Result A → (A → Result B) → Result B
ok a >>= f = f a
err e >>= f = err e

-- `hop_start << 5` on a `u8` drops what leaves the byte.
unfoldable pub encode_flags : ℕ → ℕ → Bool → Bool → ℕ
encode_flags hop_limit hop_start want_ack via_mqtt =
    bit_or
      (bit_or
        (bit_or (bit_and hop_limit hop_limit_mask)
          (bit_and (hop_start * 2 ^ hop_start_shift % 256) hop_start_mask))
        (if want_ack then want_ack_mask else 0))
      (if via_mqtt then via_mqtt_mask else 0)

unfoldable pub from_fields : ℕ → ℕ → ℕ → ℕ → ℕ → ℕ → Bool → Bool → ℕ → ℕ → PacketHeader
from_fields to from id channel hop_limit hop_start want_ack via_mqtt next_hop relay_node = record {
  to = to;
  from = from;
  id = id;
  flags = encode_flags hop_limit hop_start want_ack via_mqtt;
  channel = channel;
  next_hop = next_hop;
  relay_node = relay_node;
}

unfoldable pub hop_limit : PacketHeader → ℕ
hop_limit h = bit_and h.flags hop_limit_mask

unfoldable pub hop_start : PacketHeader → ℕ
hop_start h = bit_and h.flags hop_start_mask / 2 ^ hop_start_shift

unfoldable pub want_ack : PacketHeader → Bool
want_ack h = not (bit_and h.flags want_ack_mask == 0)

-- `!PACKET_FLAGS_WANT_ACK_MASK` is `255 - 8` on a byte.
unfoldable pub clear_want_ack : PacketHeader → PacketHeader
clear_want_ack h = record h { flags = bit_and h.flags 0xf7 }

unfoldable pub via_mqtt : PacketHeader → Bool
via_mqtt h = not (bit_and h.flags via_mqtt_mask == 0)

abbrev pub to_le_bytes : ℕ → List ℕ → List ℕ
to_le_bytes w rest = (w % 256) ∷ (w / 256 % 256) ∷ (w / 65536 % 256) ∷ (w / 16777216 % 256) ∷ rest

abbrev pub from_le_bytes : ℕ → ℕ → ℕ → ℕ → ℕ
from_le_bytes a b c d = a + b * 256 + c * 65536 + d * 16777216

unfoldable pub encode_to : PacketHeader → List ℕ
encode_to h =
    to_le_bytes h.to
      (to_le_bytes h.from (to_le_bytes h.id (h.flags ∷ h.channel ∷ h.next_hop ∷ h.relay_node ∷ [])))

abbrev word_at : List ℕ → ℕ → ℕ
word_at buf i =
    from_le_bytes (get_or buf i 0) (get_or buf (i + 1) 0) (get_or buf (i + 2) 0)
      (get_or buf (i + 3) 0)

unfoldable pub decode : List ℕ → Result PacketHeader
decode buf =
    if ltb (length buf) packet_header_len
    then err too_short
    else ok (record {
      to = word_at buf 0;
      from = word_at buf 4;
      id = word_at buf 8;
      flags = get_or buf 12 0;
      channel = get_or buf 13 0;
      next_hop = get_or buf 14 0;
      relay_node = get_or buf 15 0;
    })

unfoldable pub parse : PacketHeader → ParsedPacket
parse h = record {
  to = h.to;
  from = h.from;
  id = h.id;
  channel = h.channel;
  hop_limit = hop_limit h;
  hop_start = hop_start h;
  want_ack = want_ack h;
  via_mqtt = via_mqtt h;
  next_hop = if hop_start h == 0 then no_next_hop_preference else h.next_hop;
  relay_node = if hop_start h == 0 then no_relay_node else h.relay_node;
}

unfoldable pub decode_frame : List ℕ → Result (ParsedPacket × List ℕ)
decode_frame buf = do header ← decode buf; ok (parse header, drop packet_header_len buf)
