-- ===== src/Routing/Protobuf/Tests.antt =====
-- Protocol buffers at concrete bytes.
use meshrustic.Base.{
  ℕ, ◌^◌, ◌*◌, ◌-◌, ◌≡◌, refl, arith, none, some, List, [], ◌∷◌, ◌+◌, ◌≤◌, ◌<◌, drop, ◌++◌, length,
  replicate,
}
use meshrustic.Routing.Protobuf.{
  read_loop, read_varint64, read_varint, read_varint_i32, field_end, skip_field, push_varint,
  push_loop, push_tag, push_varint_field, push_bytes_field, push_signed_varint, push_varint_i32,
  push_int32_field,
}
use meshrustic.Routing.Protobuf.Written.{
  read_varint_i32-push_signed_varint, skip_field-push_bytes_field,
}
use meshrustic.Routing.Protobuf.Fields.{
  field_size, end_within, skip_field_lem, skip_field_bounds, number_of, read_varint64_lem,
}
use meshrustic.Routing.Protobuf.Varint.{read_varint-push_varint}

-- The source's test `overflowing_and_truncated_fields_are_rejected`.
rejected :
    (read_varint (0xff ∷ 0xff ∷ 0xff ∷ 0xff ∷ 0x1f ∷ []) 0 ≡ none)
    × (read_varint64 (replicate 10 0xff) 0 ≡ none)
    × (skip_field (replicate 3 0) 0 5 ≡ none)
    × (skip_field (replicate 7 0) 0 1 ≡ none)
    × (skip_field (0xff ∷ 0xff ∷ 0xff ∷ 0xff ∷ 0x0f ∷ []) 0 2 ≡ none)
    × (read_varint (0xff ∷ 0xff ∷ 0xff ∷ 0xff ∷ 0x0f ∷ []) 0 ≡ some (2 ^ 32 - 1, 5))
unfolding read_loop read_varint64 read_varint field_end skip_field
rejected = (refl, refl, refl, refl, refl, refl)

-- A negative number has ten bytes.
minus_one : read_varint_i32 (replicate 9 0xff ++ (1 ∷ [])) 0 ≡ some (2 ^ 32 - 1, 10)
unfolding read_loop read_varint64 read_varint_i32
minus_one = refl

read_varint-push_varint_example :
    let written = push_varint 240 (8 ∷ []) 300 in
    read_varint (written ++ (16 ∷ [])) (length {A = ℕ} (8 ∷ [])) ≡ some (300, length written)
read_varint-push_varint_example =
    read_varint-push_varint 240 300 (8 ∷ []) (16 ∷ []) (omega arith) (omega arith)

-- A field of five bytes, of which the first says that three more follow, and a byte of the next one.
abbrev one_field : List ℕ
one_field = 0x83 ∷ 0 ∷ 7 ∷ 8 ∷ 9 ∷ 16 ∷ []

passed : skip_field one_field 0 2 ≡ some 5
unfolding read_loop read_varint64 read_varint field_end skip_field
passed = refl

read_varint64_lem_example : read_varint64 one_field 1 ≡ elim (number_of 10 (drop 1 one_field)) [
  | none ↦ none
  | some (value, count) ↦ some (value, 1 + count)
]
read_varint64_lem_example = read_varint64_lem one_field 1

skip_field_lem_example :
    skip_field one_field 0 2 ≡ end_within one_field 0 (field_size 2 (drop 0 one_field))
skip_field_lem_example = skip_field_lem one_field 0 2

skip_field_bounds_example : (0 < 5) × (5 ≤ length one_field)
skip_field_bounds_example = skip_field_bounds one_field 0 2 5 passed

-- The fields 1 and 2 behind a byte: -1 in ten bytes, and two bytes with their length.
fields :
    (push_varint_i32 240 (7 ∷ []) 1 (2 ^ 32 - 1) ≡ 7 ∷ 8 ∷ replicate 9 0xff ++ (1 ∷ []))
    × (push_int32_field 240 (7 ∷ []) 1 3 ≡ 7 ∷ 8 ∷ 3 ∷ [])
    × (push_varint_field 240 (7 ∷ []) 1 300 ≡ 7 ∷ 8 ∷ 0xac ∷ 2 ∷ [])
    × (push_bytes_field 240 (7 ∷ []) 2 (5 ∷ 6 ∷ []) ≡ 7 ∷ 18 ∷ 2 ∷ 5 ∷ 6 ∷ [])
unfolding push_varint_i32 push_int32_field push_varint_field push_bytes_field push_signed_varint
    push_tag push_varint push_loop
fields = (refl, refl, refl, refl)

read_varint_i32-push_signed_varint_example :
    let written = push_signed_varint 240 (8 ∷ []) (2 ^ 32 - 5) in
    read_varint_i32 (written ++ (16 ∷ [])) (length {A = ℕ} (8 ∷ []))
    ≡ some (2 ^ 32 - 5, length written)
read_varint_i32-push_signed_varint_example =
    read_varint_i32-push_signed_varint 240 (2 ^ 32 - 5) (8 ∷ []) (16 ∷ []) (omega arith)
      (omega arith)

skip_field-push_bytes_field_example :
    let start = length (push_tag 240 (7 ∷ []) 2 2) in
    let written = push_bytes_field 240 (7 ∷ []) 2 (5 ∷ 6 ∷ []) in
    (read_varint (written ++ (16 ∷ [])) (length {A = ℕ} (7 ∷ [])) ≡ some (2 * 8 + 2, start))
    × (skip_field (written ++ (16 ∷ [])) start 2 ≡ some (length written))
skip_field-push_bytes_field_example =
    skip_field-push_bytes_field 240 2 (7 ∷ []) (5 ∷ 6 ∷ []) (16 ∷ []) (omega arith) (omega arith)
      (omega arith)
