-- ===== src/Protocol/Header/Codec.antt =====
-- The header on the wire: encoding and decoding are inverse to one another.
use mathlib.Core.Path.{ap₂}
use meshrustic.Base.{
  ℕ, ◌/◌, ◌%◌, ◌^◌, ◌<◌, ◌≡◌, refl, Bool, List, [], ◌∷◌, ◌++◌, arith, ◌==◌, if◌then◌else◌, length,
  take, drop, ◌⊎◌, inl, inr,
}
use meshrustic.Protocol.Header.{
  PacketHeader, ParsedPacket, ok, err, too_short, encode_to, decode, parse, decode_frame,
  packet_header_len, to_le_bytes, from_le_bytes, from_fields,
}
use meshrustic.Protocol.Header.Flags.{flags_roundtrip}

-- The words and bytes of a header are in range.
pub record IsWire (h : PacketHeader) : Type 0 where
  pub to : h.to < 2 ^ 32
  pub from : h.from < 2 ^ 32
  pub id : h.id < 2 ^ 32

-- Every byte of a list is a byte.
abbrev pub AllBytes : List ℕ → Type 0
AllBytes [] = Unit {0}
AllBytes (b ∷ bs) = (b < 256) × AllBytes bs

word_roundtrip :
    (w : ℕ)
    → w < 2 ^ 32
    → from_le_bytes (w % 256) (w / 256 % 256) (w / 65536 % 256) (w / 16777216 % 256) ≡ w
word_roundtrip w h = omega arith

-- Decoding a header that is followed by anything gives the header back.
pub decode-encode_to :
    (h : PacketHeader) (rest : List ℕ) → IsWire h → decode (encode_to h ++ rest) ≡ ok h
unfolding decode encode_to
decode-encode_to h rest v =
    rw (word_roundtrip h.to v.to, word_roundtrip h.from v.from, word_roundtrip h.id v.id)
      (ground arith)

bytes_roundtrip :
    (a b c d : ℕ) {rest rest' : List ℕ}
    → a < 256
    → b < 256
    → c < 256
    → d < 256
    → rest ≡ rest'
    → to_le_bytes (from_le_bytes a b c d) rest ≡ a ∷ b ∷ c ∷ d ∷ rest'
bytes_roundtrip a b c d ha hb hc hd e =
    let w = from_le_bytes a b c d in
    let lowest : w % 256 ≡ a = omega arith in
    let low : w / 256 % 256 ≡ b = omega arith in
    let high : w / 65536 % 256 ≡ c = omega arith in
    let highest : w / 16777216 % 256 ≡ d = omega arith in
    ap₂ ◌∷◌ lowest (ap₂ ◌∷◌ low (ap₂ ◌∷◌ high (ap₂ ◌∷◌ highest e)))

-- What `decode` does with any buffer of bytes: one shorter than a header is refused, and any other
-- decodes to a header whose encoding is the first sixteen bytes.
pub encode_to-decode :
    (buf : List ℕ)
    → AllBytes buf
    → ((length buf < packet_header_len) × (decode buf ≡ err too_short))
      ⊎ ((h : PacketHeader) × (decode buf ≡ ok h) × (encode_to h ≡ take packet_header_len buf))
unfolding decode encode_to
encode_to-decode
      (b0 ∷ b1 ∷ b2 ∷ b3 ∷ b4 ∷ b5 ∷ b6 ∷ b7 ∷ b8 ∷ b9 ∷ b10 ∷ b11 ∷ b12 ∷ b13 ∷ b14 ∷ b15 ∷ rest)
      bytes =
    inr (
      record {
        to = from_le_bytes b0 b1 b2 b3;
        from = from_le_bytes b4 b5 b6 b7;
        id = from_le_bytes b8 b9 b10 b11;
        flags = b12;
        channel = b13;
        next_hop = b14;
        relay_node = b15;
      },
      ground arith,
      bytes_roundtrip b0 b1 b2 b3 (omega arith) (omega arith) (omega arith) (omega arith) (
          bytes_roundtrip b4 b5 b6 b7 (omega arith) (omega arith) (omega arith) (omega arith) (
            bytes_roundtrip b8 b9 b10 b11 (omega arith) (omega arith) (omega arith) (omega arith)
              refl)),
    )
encode_to-decode short bytes = inl (omega arith, refl)

from_fields-IsWire :
    (to from id channel limit start : ℕ) (ack mqtt : Bool) (next relay : ℕ)
    → to < 2 ^ 32
    → from < 2 ^ 32
    → id < 2 ^ 32
    → IsWire (from_fields to from id channel limit start ack mqtt next relay)
unfolding from_fields
from_fields-IsWire to from id channel limit start ack mqtt next relay ht hf hi = record {
  to = ht;
  from = hf;
  id = hi;
}

-- The receiver's view of a header that was built from fields.
abbrev pub view : ℕ → ℕ → ℕ → ℕ → ℕ → ℕ → Bool → Bool → ℕ → ℕ → ParsedPacket
view to from id channel limit start ack mqtt next relay = record {
  to = to;
  from = from;
  id = id;
  channel = channel;
  hop_limit = limit % 8;
  hop_start = start % 8;
  want_ack = ack;
  via_mqtt = mqtt;
  next_hop = if start % 8 == 0 then 0 else next;
  relay_node = if start % 8 == 0 then 0 else relay;
}

parse-from_fields :
    (to from id channel limit start : ℕ) (ack mqtt : Bool) (next relay : ℕ)
    → limit < 256
    → start < 256
    → parse (from_fields to from id channel limit start ack mqtt next relay)
      ≡ view to from id channel limit start ack mqtt next relay
unfolding parse from_fields
parse-from_fields to from id channel limit start ack mqtt next relay hl hs =
    let h = from_fields to from id channel limit start ack mqtt next relay in
    let (l, s, a, m) = flags_roundtrip h limit start ack mqtt hl hs refl in rw (l, s, a, m)

drop-encode_to :
    (h : PacketHeader) (rest : List ℕ) → drop packet_header_len (encode_to h ++ rest) ≡ rest
unfolding encode_to
drop-encode_to h rest = refl

-- A frame that a node sends, a header built from fields followed by a payload, is read back by the
-- receiver with every field and the payload as they were: the hop counts modulo 8, and, where the
-- hop start is 0 modulo 8, no next hop and no relay node whatever was sent.
pub decode_frame-encode_to :
    (to from id channel limit start : ℕ) (ack mqtt : Bool) (next relay : ℕ) (payload : List ℕ)
    → to < 2 ^ 32
    → from < 2 ^ 32
    → id < 2 ^ 32
    → limit < 256
    → start < 256
    → decode_frame
        (encode_to (from_fields to from id channel limit start ack mqtt next relay) ++ payload)
      ≡ ok (view to from id channel limit start ack mqtt next relay, payload)
unfolding decode_frame
decode_frame-encode_to to from id channel limit start ack mqtt next relay payload ht hf hi hl hs =
    let h = from_fields to from id channel limit start ack mqtt next relay in
    rw (
      decode-encode_to h payload
          (from_fields-IsWire to from id channel limit start ack mqtt next relay ht hf hi),
      parse-from_fields to from id channel limit start ack mqtt next relay hl hs,
      drop-encode_to h payload,
    )
