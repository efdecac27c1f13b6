-- ===== src/Routing/Protobuf.antt =====
-- crates/mesh-routing/src/protobuf.rs: reading the variable-length numbers of protocol buffers and
-- passing over fields, with the functions of crates/mesh-routing/src/admin_codec.rs that write
-- them. Indices are machine words of the target, on which the code's sums do not overflow.
pub mod Fields
pub mod Varint
pub mod Written
mod Tests
use meshrustic.Base.{
  ℕ, zero, suc, ◌+◌, ◌*◌, ◌/◌, ◌%◌, ◌^◌, ◌-◌, Bool, true, false, ◌&&◌, Option, none, some, List, [],
  ◌∷◌, ◌++◌, ◌==◌, leb, ltb, if◌then◌else◌, length, get_elem?,
}

-- The loop of `read_varint64` with so many rounds left. The bits that `|=` sets are not set before.
unfoldable pub read_loop : List ℕ → ℕ → ℕ → ℕ → ℕ → Option (ℕ × ℕ)
read_loop bytes zero shift value idx = none
read_loop bytes (suc rounds) shift value idx = elim (get_elem? bytes idx) [
  | none ↦ none
  | some byte ↦
      let value' = value + byte % 128 * 2 ^ shift in
      let later = read_loop bytes rounds (shift + 7) value' (idx + 1) in
      if shift == 63 && ltb 1 byte
      then none
      else if ltb byte 128
      then some (value', idx + 1)
      else later
]

unfoldable pub read_varint64 : List ℕ → ℕ → Option (ℕ × ℕ)
read_varint64 bytes idx = read_loop bytes 10 0 0 idx

unfoldable pub read_varint : List ℕ → ℕ → Option (ℕ × ℕ)
read_varint bytes idx = elim (read_varint64 bytes idx) [
  | none ↦ none
  | some (value, end) ↦ if ltb value (2 ^ 32) then some (value, end) else none
]

-- The `i32` is the word that it is kept as.
unfoldable pub read_varint_i32 : List ℕ → ℕ → Option (ℕ × ℕ)
read_varint_i32 bytes idx = elim (read_varint64 bytes idx) [
  | none ↦ none
  | some (value, end) ↦ some (value % 2 ^ 32, end)
]

-- The end of a field of a wire type, before the test that it lies in the data.
unfoldable pub field_end : List ℕ → ℕ → ℕ → Option ℕ
field_end bytes idx wire =
    if wire == 0
    then elim (read_varint64 bytes idx) [ none ↦ none | some (_, end) ↦ some end ]
    else if wire == 1
    then some (idx + 8)
    else if wire == 2
    then elim (read_varint bytes idx) [ none ↦ none | some (len, start) ↦ some (start + len) ]
    else if wire == 5
    then some (idx + 4)
    else none

unfoldable pub skip_field : List ℕ → ℕ → ℕ → Option ℕ
skip_field bytes idx wire = elim (field_end bytes idx wire) [
  | none ↦ none
  | some end ↦ if leb end (length bytes) then some end else none
]

-- A push into a vector with room for `room` bytes; one that does not fit is dropped.
abbrev pub push_byte : ℕ → List ℕ → ℕ → List ℕ
push_byte room out byte = if ltb (length out) room then out ++ (byte ∷ []) else out

-- The loop of `push_varint`, on fuel.
unfoldable pub push_loop : ℕ → ℕ → List ℕ → ℕ → List ℕ
push_loop zero room out v = out
push_loop (suc fuel) room out v =
    let byte = if v / 128 == 0 then v % 128 else v % 128 + 128 in
    let later = push_loop fuel room (push_byte room out byte) (v / 128) in
    if v / 128 == 0 then push_byte room out byte else later

-- A word of 32 bits has five groups of seven bits at most.
unfoldable pub push_varint : ℕ → List ℕ → ℕ → List ℕ
push_varint room out v = push_loop 5 room out v

-- The wire types of the calls are below 8, so that `|` adds them.
unfoldable pub push_tag : ℕ → List ℕ → ℕ → ℕ → List ℕ
push_tag room out field wire = push_varint room out (field * 8 % 2 ^ 32 + wire)

unfoldable pub push_varint_field : ℕ → List ℕ → ℕ → ℕ → List ℕ
push_varint_field room out field value = push_varint room (push_tag room out field 0) value

-- `extend_from_slice`, which adds all of the data or nothing.
abbrev pub extend_from_slice : ℕ → List ℕ → List ℕ → List ℕ
extend_from_slice room out bytes =
    if leb (length out + length bytes) room then out ++ bytes else out

unfoldable pub push_bytes_field : ℕ → List ℕ → ℕ → List ℕ → List ℕ
push_bytes_field room out field bytes =
    extend_from_slice room (push_varint room (push_tag room out field 2) (length bytes % 2 ^ 32))
      bytes

-- `as i64 as u64` of an `i32`, which is the word that it is kept as.
abbrev pub sign_extended : ℕ → ℕ
sign_extended value = if ltb value (2 ^ 31) then value else value + 2 ^ 64 - 2 ^ 32

-- A word of 64 bits has ten groups of seven bits at most.
unfoldable pub push_signed_varint : ℕ → List ℕ → ℕ → List ℕ
push_signed_varint room out value = push_loop 10 room out (sign_extended value)

unfoldable pub push_varint_i32 : ℕ → List ℕ → ℕ → ℕ → List ℕ
push_varint_i32 room out field value = push_signed_varint room (push_tag room out field 0) value

-- The same bytes, in the words of `push_int32_field`.
unfoldable pub push_int32_field : ℕ → List ℕ → ℕ → ℕ → List ℕ
push_int32_field room out field value = push_signed_varint room (push_tag room out field 0) value
