-- ===== src/Protocol/Header/Tests.antt =====
-- Runs of the header codec at concrete inputs.
use meshrustic.Base.{ℕ, ◌<◌, ◌≡◌, refl, true, false, List, [], ◌∷◌, ◌++◌, ◌⊎◌, arith, take}
use meshrustic.Protocol.Header.{
  PacketHeader, ok, err, too_short, encode_flags, encode_to, decode, decode_frame, from_fields,
  packet_header_len,
}
use meshrustic.Protocol.Header.Codec.{encode_to-decode, decode_frame-encode_to, view}

abbrev header : PacketHeader
header = record {
  to = 0xffff_ffff;
  from = 0x1234;
  id = 99;
  flags = 0x6b;
  channel = 8;
  next_hop = 0;
  relay_node = 0x34;
}

abbrev wire : List ℕ
wire = 255 ∷ 255 ∷ 255 ∷ 255 ∷ 0x34 ∷ 0x12 ∷ 0 ∷ 0 ∷ 99 ∷ 0 ∷ 0 ∷ 0 ∷ 0x6b ∷ 8 ∷ 0 ∷ 0x34 ∷ 7 ∷ []

encoded : encode_to header ++ (7 ∷ []) ≡ wire
unfolding encode_to
encoded = refl

flags_example_byte : encode_flags 3 3 true false ≡ 0x6b
unfolding encode_flags
flags_example_byte = refl

encode_to-decode_example :
    ((17 < packet_header_len) × (decode wire ≡ err too_short))
    ⊎ ((h : PacketHeader) × (decode wire ≡ ok h) × (encode_to h ≡ take packet_header_len wire))
encode_to-decode_example = encode_to-decode wire (omega arith)

decode_frame-encode_to_example :
    decode_frame (encode_to (from_fields 0xffff_ffff 0x1234 99 8 3 3 true false 5 0x34) ++ (7 ∷ []))
    ≡ ok (view 0xffff_ffff 0x1234 99 8 3 3 true false 5 0x34, 7 ∷ [])
decode_frame-encode_to_example =
    decode_frame-encode_to 0xffff_ffff 0x1234 99 8 3 3 true false 5 0x34 (7 ∷ []) (omega arith)
      (omega arith) (omega arith) (omega arith) (omega arith)
