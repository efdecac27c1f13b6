-- ===== src/Routing/Protobuf/Written.antt =====
-- What is written is read back and passed over.
use meshrustic.Base.{
  ℕ, zero, suc, ◌+◌, ◌*◌, ◌/◌, ◌%◌, ◌^◌, ◌≤◌, ◌<◌, ◌≡◌, refl, sym, ap, subst, ◌∙◌, arith, true,
  false, some, List, [], ◌∷◌, ◌++◌, ◌==◌, leb, ltb, ◌&&◌, length, drop, Bool-cases, inl, inr,
  if-true, length-append,
}
use meshrustic.Routing.Protobuf.{
  read_varint, read_varint_i32, skip_field, push_varint, push_tag, push_bytes_field,
  push_signed_varint, sign_extended, extend_from_slice,
}
use meshrustic.Routing.Protobuf.Fields.{
  number_of, field_size, read_varint64_lem, end_within, skip_field_lem,
}
use meshrustic.Routing.Protobuf.Varint.{
  groups, limit, push_loop-groups, append_twice, length-groups, read_varint-push_varint,
}

-- The numbers of so many bytes, of which the last may have to be the tenth, with one bit.
abbrev cap : ℕ → ℕ
cap zero = 0
cap (suc zero) = 2
cap (suc (suc most)) = 128 * cap (suc most)

number_last :
    (most byte : ℕ) (rest : List ℕ)
    → most == 0 && ltb 1 byte ≡ false
    → byte < 128
    → number_of (suc most) (byte ∷ rest) ≡ some (byte, 1)
unfolding number_of
number_last most byte rest fits low = ground (arith, fits, low)

number_more :
    (most byte high count : ℕ) (rest : List ℕ)
    → 128 ≤ byte
    → number_of most rest ≡ some (high, count)
    → number_of (suc most) (byte ∷ rest) ≡ some (byte % 128 + 128 * high, count + 1)
unfolding number_of
number_more most byte high count rest marked later =
    let is_high : ltb byte 128 ≡ false = ground (arith, marked) in
    rw (number_of, is_high, later) refl

groups_last : (fuel v : ℕ) → (v / 128 == 0) ≡ true → groups (suc fuel) v ≡ v % 128 ∷ []
unfolding groups
groups_last fuel v last = rw (groups, last) refl

groups_more :
    (fuel v : ℕ)
    → (v / 128 == 0) ≡ false
    → groups (suc fuel) v ≡ (v % 128 + 128) ∷ groups fuel (v / 128)
unfolding groups
groups_more fuel v more = rw (groups, more) refl

number_of-groups :
    (most v : ℕ) (rest : List ℕ)
    → v < cap most
    → number_of most (groups most v ++ rest) ≡ some (v, length (groups most v))
number_of-groups zero v rest small = absurd (omega (arith, small))
number_of-groups (suc zero) v rest small =
    let last : (v / 128 == 0) ≡ true = ground (arith, small) in
    let same : v % 128 ≡ v = omega (arith, small) in
    rw (groups_last 0 v last, same)
      (number_last 0 v rest (ground (arith, small)) (omega (arith, small)))
number_of-groups (suc (suc most)) v rest small = elim (Bool-cases (v / 128 == 0)) [
  | inl last ↦
      let low : v < 128 = ground (arith, last) in
      let same : v % 128 ≡ v = omega (arith, low) in
      rw (groups_last (suc most) v last, same) (number_last (suc most) v rest (ground arith) low)
  | inr more ↦
      let later = number_of-groups (suc most) (v / 128) rest (omega (arith, small)) in
      let count = length (groups (suc most) (v / 128)) in
      let value : (v % 128 + 128) % 128 + 128 * (v / 128) ≡ v = omega arith in
      let next : count + 1 ≡ suc count = omega arith in
      rw (groups_more (suc most) v more) (
        number_more (suc most) (v % 128 + 128) (v / 128) count (groups (suc most) (v / 128) ++ rest)
          (omega arith) later
        ∙ ap (λ w. some (w, count + 1)) value
        ∙ ap (λ c. some (v, c)) next)
]

groups_fuel :
    (f g v : ℕ) → v < limit (suc f) → v < limit (suc g) → groups (suc f) v ≡ groups (suc g) v
groups_fuel zero g v small small' =
    let last : (v / 128 == 0) ≡ true = ground (arith, small) in
    groups_last 0 v last ∙ sym (groups_last g v last)
groups_fuel (suc f) zero v small small' =
    let last : (v / 128 == 0) ≡ true = ground (arith, small') in
    groups_last (suc f) v last ∙ sym (groups_last 0 v last)
groups_fuel (suc f) (suc g) v small small' = elim (Bool-cases (v / 128 == 0)) [
  | inl last ↦ groups_last (suc f) v last ∙ sym (groups_last (suc g) v last)
  | inr more ↦
      let rest = groups_fuel f g (v / 128) (omega (arith, small)) (omega (arith, small')) in
      groups_more (suc f) v more
      ∙ ap (λ bytes. (v % 128 + 128) ∷ bytes) rest
      ∙ sym (groups_more (suc g) v more)
]

drop-append : (xs ys : List ℕ) → drop (length xs) (xs ++ ys) ≡ ys
drop-append [] ys = refl
drop-append (x ∷ xs) ys = drop-append xs ys

read_i32_at :
    (bytes : List ℕ) (idx v count : ℕ)
    → number_of 10 (drop idx bytes) ≡ some (v, count)
    → read_varint_i32 bytes idx ≡ some (v % 2 ^ 32, idx + count)
unfolding read_varint_i32
read_i32_at bytes idx v count there = rw (read_varint_i32, read_varint64_lem bytes idx, there) refl

-- Behind what the vector held stand the groups, and then what follows.
drop-groups :
    (fuel v : ℕ) (out post : List ℕ)
    → drop (length out) ((out ++ groups fuel v) ++ post) ≡ groups fuel v ++ post
drop-groups fuel v out post =
    ap (drop (length out)) (append_twice out (groups fuel v) post)
    ∙ drop-append out (groups fuel v ++ post)

-- A signed number that is written behind what a vector holds, where the vector has room for ten bytes
-- more, is read back from where it was written, whatever follows, with the index of its end.
pub read_varint_i32-push_signed_varint :
    (room value : ℕ) (out post : List ℕ)
    → value < 2 ^ 32
    → length out + 10 ≤ room
    → let written = push_signed_varint room out value in
      read_varint_i32 (written ++ post) (length out) ≡ some (value, length written)
unfolding push_signed_varint
read_varint_i32-push_signed_varint room value out post word fits =
    let v = sign_extended value in
    let xs = groups 10 v in
    let extended : v < cap 10 = ground (arith, word) in
    let back : v % 2 ^ 32 ≡ value = ground (arith, word) in
    let pushed = push_loop-groups 10 room out v fits in
    let there =
      ap (number_of 10) (drop-groups 10 v out post) ∙ number_of-groups 10 v post extended in
    let long : length out + length xs ≡ length (out ++ xs) = sym (length-append out xs) in
    subst (λ written. read_varint_i32 (written ++ post) (length out) ≡ some (value, length written))
      (sym pushed)
      (read_i32_at ((out ++ xs) ++ post) (length out) v (length xs) there
        ∙ ap (λ w. some (w, length out + length xs)) back
        ∙ ap (λ e. some (value, e)) long)

field_size-groups :
    (n : ℕ) (post : List ℕ)
    → n < 2 ^ 32
    → field_size 2 (groups 5 n ++ post) ≡ some (length (groups 5 n) + n)
unfolding field_size
field_size-groups n post word =
    let same : groups 5 n ≡ groups 10 n =
      groups_fuel 4 9 n (omega (arith, word)) (omega (arith, word)) in
    let read = number_of-groups 10 n post (omega (arith, word)) in
    let fits : ltb n (2 ^ 32) ≡ true = ground (arith, word) in
    rw (same, field_size, read, fits) refl

regrouped :
    (tag xs bytes post : List ℕ) → ((tag ++ xs) ++ bytes) ++ post ≡ tag ++ (xs ++ (bytes ++ post))
regrouped tag xs bytes post =
    append_twice (tag ++ xs) bytes post ∙ append_twice tag xs (bytes ++ post)

skip_field-append :
    (tag xs bytes post : List ℕ)
    → field_size 2 (xs ++ (bytes ++ post)) ≡ some (length xs + length bytes)
    → skip_field (((tag ++ xs) ++ bytes) ++ post) (length tag) 2
      ≡ some (length ((tag ++ xs) ++ bytes))
skip_field-append tag xs bytes post size =
    let all = ((tag ++ xs) ++ bytes) ++ post in
    let left : drop (length tag) all ≡ xs ++ (bytes ++ post) =
      ap (drop (length tag)) (regrouped tag xs bytes post)
      ∙ drop-append tag (xs ++ (bytes ++ post)) in
    let end : length tag + (length xs + length bytes) ≡ length ((tag ++ xs) ++ bytes) =
      omega (arith, length-append (tag ++ xs) bytes, length-append tag xs) in
    let within : leb (length tag + (length xs + length bytes)) (length all) ≡ true =
      ground (arith, length-append ((tag ++ xs) ++ bytes) post, end) in
    skip_field_lem all (length tag) 2
    ∙ ap (λ rest. end_within all (length tag) (field_size 2 rest)) left
    ∙ ap (end_within all (length tag)) size
    ∙ if-true _ _ within
    ∙ ap some end

tag_word :
    (room field : ℕ) (out : List ℕ)
    → field < 2 ^ 29
    → push_tag room out field 2 ≡ push_varint room out (field * 8 + 2)
unfolding push_tag
tag_word room field out low = ap (push_varint room out) (omega (arith, low))

length-push_tag :
    (room field : ℕ) (out : List ℕ)
    → length out + 5 ≤ room
    → length (push_tag room out field 2) ≤ length out + 5
unfolding push_tag push_varint
length-push_tag room field out fits =
    let t = field * 8 % 2 ^ 32 + 2 in
    let long = ap length (push_loop-groups 5 room out t fits) in
    omega (arith, long, length-append out (groups 5 t), length-groups 5 t)

push_bytes_field-groups :
    (room field : ℕ) (out bytes : List ℕ)
    → length bytes < 2 ^ 32
    → length out + 10 + length bytes ≤ room
    → push_bytes_field room out field bytes
      ≡ (push_tag room out field 2 ++ groups 5 (length bytes)) ++ bytes
unfolding push_bytes_field push_varint
push_bytes_field-groups room field out bytes word fits =
    let tag = push_tag room out field 2 in
    let xs = groups 5 (length bytes) in
    let after_tag = length-push_tag room field out (omega (arith, fits)) in
    let sized : push_varint room tag (length bytes % 2 ^ 32) ≡ tag ++ xs =
      ap (push_varint room tag) (omega (arith, word))
      ∙ push_loop-groups 5 room tag (length bytes) (omega (arith, after_tag, fits)) in
    let within : leb (length (tag ++ xs) + length bytes) room ≡ true =
      ground (arith, length-append tag xs, length-groups 5 (length bytes), after_tag, fits) in
    ap (λ head. extend_from_slice room head bytes) sized ∙ if-true _ _ within

-- A field of bytes, of a number below 2^29 and a length below 2^32, that is written behind what a
-- vector holds, where the vector has room for the bytes and ten more: from where it was written its tag is read back, and the field is passed over to the
-- end of what was written, whatever follows.
pub skip_field-push_bytes_field :
    (room field : ℕ) (out bytes post : List ℕ)
    → field < 2 ^ 29
    → length bytes < 2 ^ 32
    → length out + 10 + length bytes ≤ room
    → let start = length (push_tag room out field 2) in
      let written = push_bytes_field room out field bytes in
      (read_varint (written ++ post) (length out) ≡ some (field * 8 + 2, start))
      × (skip_field (written ++ post) start 2 ≡ some (length written))
skip_field-push_bytes_field room field out bytes post low word fits =
    let tag = push_tag room out field 2 in
    let xs = groups 5 (length bytes) in
    let word_of_tag = tag_word room field out low in
    let tag_read =
      read_varint-push_varint room (field * 8 + 2) out (xs ++ (bytes ++ post)) (omega (arith, low))
        (omega (arith, fits)) in
    let at_tag : read_varint (tag ++ (xs ++ (bytes ++ post))) (length out)
        ≡ some (field * 8 + 2, length tag) =
      subst
        (λ w.
          read_varint (w ++ (xs ++ (bytes ++ post))) (length out) ≡ some (field * 8 + 2, length w))
        (sym word_of_tag) tag_read in
    subst
      (λ written.
        (read_varint (written ++ post) (length out) ≡ some (field * 8 + 2, length tag))
        × (skip_field (written ++ post) (length tag) 2 ≡ some (length written)))
      (sym (push_bytes_field-groups room field out bytes word fits))
      (
        ap (λ all. read_varint all (length out)) (regrouped tag xs bytes post) ∙ at_tag,
        skip_field-append tag xs bytes post (field_size-groups (length bytes) (bytes ++ post) word),
      )
