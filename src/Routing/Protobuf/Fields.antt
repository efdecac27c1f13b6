-- ===== src/Routing/Protobuf/Fields.antt =====
-- What the readers of crates/mesh-routing/src/protobuf.rs accept: the variable-length numbers and the
-- fields of the format, and nothing else.
use native.Mathlib.Nat.{add-mul, mul_assoc}
use meshrustic.Base.{
  ℕ, zero, suc, ◌+◌, ◌*◌, ◌%◌, ◌^◌, ◌≤◌, ◌<◌, ◌≡◌, refl, sym, ap, ◌∙◌, arith, true, ◌&&◌, Option,
  none, some, List, [], ◌∷◌, ◌==◌, leb, ltb, if◌then◌else◌, length, get_elem?, drop, Bool-cases,
  inl, inr,
}
use meshrustic.Routing.Protobuf.{read_loop, read_varint64, read_varint, field_end, skip_field}
use meshrustic.Routing.Protobuf.Varint.{next_weight}

-- A number of the format at the head of the data, of so many bytes at most, with the count of its
-- bytes: groups of seven bits, the lowest first, each marked but the last; the tenth byte holds one bit.
unfoldable pub number_of : ℕ → List ℕ → Option (ℕ × ℕ)
number_of zero bytes = none
number_of (suc most) [] = none
number_of (suc most) (byte ∷ rest) =
    let later = number_of most rest in
    if ltb byte 128
    then (if most == 0 && ltb 1 byte then none else some (byte, 1))
    else elim later [ none ↦ none | some (high, count) ↦ some (byte % 128 + 128 * high, count + 1) ]

-- The size of the field at the head of the data, after its tag: a number, eight or four bytes, or a
-- length below 2 ^ 32 and so many bytes.
unfoldable pub field_size : ℕ → List ℕ → Option ℕ
field_size wire bytes =
    if wire == 0
    then elim (number_of 10 bytes) [ none ↦ none | some (_, count) ↦ some count ]
    else if wire == 1
    then some 8
    else if wire == 2
    then elim (number_of 10 bytes) [
      | none ↦ none
      | some (len, count) ↦ if ltb len (2 ^ 32) then some (count + len) else none
    ]
    else if wire == 5
    then some 4
    else none

-- What is left of the data from the index on begins with the byte there.
abbrev Begins : List ℕ → ℕ → Option ℕ → Type 0
Begins bytes idx none = drop idx bytes ≡ []
Begins bytes idx (some byte) = drop idx bytes ≡ byte ∷ drop (suc idx) bytes

get_elem?-Begins : (bytes : List ℕ) (idx : ℕ) → Begins bytes idx (get_elem? bytes idx)
get_elem?-Begins [] zero = refl
get_elem?-Begins [] (suc idx) = refl
get_elem?-Begins (x ∷ bytes) zero = refl
get_elem?-Begins (x ∷ bytes) (suc idx) = get_elem?-Begins bytes idx

-- A number with its count of bytes, read at an index on top of what has been read.
abbrev on_top : ℕ → ℕ → ℕ → Option (ℕ × ℕ) → Option (ℕ × ℕ)
on_top shift value idx none = none
on_top shift value idx (some (v, count)) = some (value + v * 2 ^ shift, idx + count)

on_top_next :
    (shift value idx byte : ℕ) (o : Option (ℕ × ℕ))
    → on_top (shift + 7) (value + byte % 128 * 2 ^ shift) (idx + 1) o
      ≡ on_top shift value idx
          (elim o [ none ↦ none | some (high, count) ↦ some (byte % 128 + 128 * high, count + 1) ])
on_top_next shift value idx byte none = refl
on_top_next shift value idx byte (some (high, count)) =
    let up : high * 2 ^ (shift + 7) ≡ 128 * high * 2 ^ shift =
      ap (λ k. high * k) (next_weight shift)
      ∙ sym (mul_assoc high 128 (2 ^ shift))
      ∙ ap (λ k. k * 2 ^ shift) {x = high * 128} {y = 128 * high} (omega arith) in
    let joined = add-mul (byte % 128) (128 * high) (2 ^ shift) in rw (up, joined) (ground arith)

-- A round of the loop, after the byte at the index.
read_round :
    (bytes : List ℕ) (rounds shift value idx : ℕ) (o : Option ℕ)
    → shift + 7 * suc rounds ≡ 70
    → get_elem? bytes idx ≡ o
    → Begins bytes idx o
    → ((byte : ℕ)
        → read_loop bytes rounds (shift + 7) (value + byte % 128 * 2 ^ shift) (idx + 1)
          ≡ on_top
              (shift + 7)
              (value + byte % 128 * 2 ^ shift)
              (idx + 1)
              (number_of rounds (drop (idx + 1) bytes)))
    → read_loop bytes (suc rounds) shift value idx
      ≡ on_top shift value idx (number_of (suc rounds) (drop idx bytes))
unfolding read_loop number_of
read_round bytes rounds shift value idx none left found begins later =
    rw (read_loop, found, begins) refl
read_round bytes rounds shift value idx (some byte) left found begins later =
    let last : (shift == 63) ≡ (rounds == 0) = ground (arith, left) in
    let next : suc idx ≡ idx + 1 = omega arith in
    let rest =
      later byte ∙ on_top_next shift value idx byte (number_of rounds (drop (idx + 1) bytes)) in
    rw (read_loop, found, begins, last, next)
      (elim (Bool-cases (ltb byte 128)) [
        | inl low ↦
            let same : byte % 128 ≡ byte = ground arith in
            elim (Bool-cases (rounds == 0 && ltb 1 byte)) [
              | inl long ↦ rw (low, long) refl
              | inr fits ↦ rw (low, fits, same) refl
            ]
        | inr high ↦ elim (Bool-cases (rounds == 0)) [
          | inl over ↦
              let none_left : rounds ≡ 0 = ground arith in
              let cut : number_of rounds (drop (idx + 1) bytes) ≡ none =
                ap (λ r. number_of r (drop (idx + 1) bytes)) none_left in
              let long : ltb 1 byte ≡ true = ground arith in rw (high, over, long, cut) refl
          | inr more ↦ rw (high, more) rest
        ]
      ])

read_loop-number_of :
    (bytes : List ℕ) (rounds shift value idx : ℕ)
    → shift + 7 * rounds ≡ 70
    → read_loop bytes rounds shift value idx
      ≡ on_top shift value idx (number_of rounds (drop idx bytes))
unfolding read_loop number_of
read_loop-number_of bytes zero shift value idx left = refl
read_loop-number_of bytes (suc rounds) shift value idx left =
    read_round bytes rounds shift value idx (get_elem? bytes idx) left refl
      (get_elem?-Begins bytes idx)
      (λ byte.
        read_loop-number_of bytes rounds (shift + 7) (value + byte % 128 * 2 ^ shift) (idx + 1)
          (omega (arith, left)))

unweighted :
    (idx : ℕ) (o : Option (ℕ × ℕ))
    → on_top 0 0 idx o ≡ elim o [ none ↦ none | some (value, count) ↦ some (value, idx + count) ]
unweighted idx none = refl
unweighted idx (some (value, count)) =
    ap (λ v. some (v, idx + count)) {x = 0 + value * 1} {y = value} (omega arith)

-- `read_varint64` reads the number of the format that stands at the index, and nothing where none
-- does.
pub read_varint64_lem :
    (bytes : List ℕ) (idx : ℕ)
    → read_varint64 bytes idx ≡ elim (number_of 10 (drop idx bytes)) [
      | none ↦ none
      | some (value, count) ↦ some (value, idx + count)
    ]
unfolding read_varint64
read_varint64_lem bytes idx =
    read_loop-number_of bytes 10 0 0 idx refl ∙ unweighted idx (number_of 10 (drop idx bytes))

-- The end of a field that is in the data.
abbrev pub end_within : List ℕ → ℕ → Option ℕ → Option ℕ
end_within bytes idx none = none
end_within bytes idx (some size) =
    if leb (idx + size) (length bytes) then some (idx + size) else none

field_end-field_size :
    (bytes : List ℕ) (idx wire : ℕ) (o : Option (ℕ × ℕ))
    → number_of 10 (drop idx bytes) ≡ o
    → field_end bytes idx wire
      ≡ elim (field_size wire (drop idx bytes)) [ none ↦ none | some size ↦ some (idx + size) ]
unfolding field_end field_size read_varint
field_end-field_size bytes idx wire none cut = rw (read_varint64_lem bytes idx, cut) (ground arith)
field_end-field_size bytes idx wire (some (value, count)) read =
    rw (read_varint64_lem bytes idx, read) (ground arith)

within :
    (bytes : List ℕ) (idx : ℕ) (size : Option ℕ)
    → elim (elim size as (λ (s : Option ℕ). Option ℕ) [ none ↦ none | some k ↦ some (idx + k) ])
        as (λ (o : Option ℕ). Option ℕ) [
          | none ↦ none
          | some end ↦ if leb end (length bytes) then some end else none
        ]
      ≡ end_within bytes idx size
within bytes idx none = refl
within bytes idx (some size) = refl

-- `skip_field` refuses an unknown wire type, a number that is cut or too long, and a field that does
-- not end in the data, and nothing else; it answers with the end of any other field.
pub skip_field_lem :
    (bytes : List ℕ) (idx wire : ℕ)
    → skip_field bytes idx wire ≡ end_within bytes idx (field_size wire (drop idx bytes))
unfolding skip_field
skip_field_lem bytes idx wire =
    rw (skip_field, field_end-field_size bytes idx wire _ refl)
      (within bytes idx (field_size wire (drop idx bytes)))

-- There is a byte at least.
abbrev NonZero : Option (ℕ × ℕ) → Type 0
NonZero none = Unit
NonZero (some (value, count)) = 1 ≤ count

number_of-NonZero : (most : ℕ) (bytes : List ℕ) → NonZero (number_of most bytes)
unfolding number_of
number_of-NonZero zero bytes = tt
number_of-NonZero (suc most) [] = tt
number_of-NonZero (suc most) (byte ∷ rest) = elim (Bool-cases (ltb byte 128)) [
  | inl low ↦ elim (Bool-cases (most == 0 && ltb 1 byte)) [
    | inl long ↦ rw (low, long) tt
    | inr fits ↦ rw (low, fits) (omega arith)
  ]
  | inr high ↦ rw (high) (longer (number_of most rest))
]
  where
    longer :
        (o : Option (ℕ × ℕ))
        → NonZero (elim o [
          | none ↦ none
          | some (high, count) ↦ some (byte % 128 + 128 * high, count + 1)
        ])
    longer none = tt
    longer (some (high, count)) = omega arith

sized :
    (wire : ℕ) (bytes : List ℕ) (size : ℕ) (o : Option (ℕ × ℕ))
    → number_of 10 bytes ≡ o
    → NonZero o
    → field_size wire bytes ≡ some size
    → 1 ≤ size
unfolding field_size
sized wire bytes size none read more e = ground arith
sized wire bytes size (some (value, count)) read more e = ground arith

-- Where `skip_field` answers, the reader goes on, and stays in the data.
pub skip_field_bounds :
    (bytes : List ℕ) (idx wire end : ℕ)
    → skip_field bytes idx wire ≡ some end
    → (idx < end) × (end ≤ length bytes)
skip_field_bounds bytes idx wire end e =
    go (field_size wire (drop idx bytes)) refl (sym (skip_field_lem bytes idx wire) ∙ e)
  where
    go :
        (o : Option ℕ)
        → field_size wire (drop idx bytes) ≡ o
        → end_within bytes idx o ≡ some end
        → (idx < end) × (end ≤ length bytes)
    go none found within_data = absurd (cc)
    go (some size) found within_data =
        let more =
          sized wire (drop idx bytes) size _ refl (number_of-NonZero 10 (drop idx bytes)) found in
        ground (arith, more, within_data)
