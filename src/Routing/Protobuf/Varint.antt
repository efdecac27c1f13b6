-- ===== src/Routing/Protobuf/Varint.antt =====
-- A number that is written is read back.
use native.Mathlib.Nat.{add-mul, mul_assoc, two-pow-succ}
use meshrustic.Base.{
  ℕ, zero, suc, ◌+◌, ◌*◌, ◌/◌, ◌%◌, ◌^◌, ◌≤◌, ◌<◌, ◌≡◌, refl, sym, ap, ◌∙◌, arith, true, some, List,
  [], ◌∷◌, ◌++◌, ◌==◌, if◌then◌else◌, length, get_elem?, Bool-cases, inl, inr, length-append,
}
use meshrustic.Routing.Protobuf.{
  read_loop, read_varint64, read_varint, push_byte, push_loop, push_varint,
}

split_weight : (v p : ℕ) → v % 128 * p + v / 128 * (128 * p) ≡ v * p
split_weight v p =
    let regroup : v / 128 * (128 * p) ≡ v / 128 * 128 * p = sym (mul_assoc (v / 128) 128 p) in
    let joined = add-mul (v % 128) (v / 128 * 128) p in
    let whole : v % 128 + v / 128 * 128 ≡ v = omega arith in
    rw regroup (sym joined ∙ ap (λ k. k * p) whole)

double : (n : ℕ) → 2 ^ (n + 1) ≡ 2 * 2 ^ n
double n = ap (λ k. 2 ^ k) (omega arith) ∙ two-pow-succ n ∙ omega arith

pub next_weight : (shift : ℕ) → 2 ^ (shift + 7) ≡ 128 * 2 ^ shift
next_weight shift =
    let up : (n : ℕ) → 2 ^ (shift + (n + 1)) ≡ 2 * 2 ^ (shift + n) =
      λ n. ap (λ k. 2 ^ k) (omega arith) ∙ double (shift + n) in
    let start : 2 ^ (shift + 0) ≡ 2 ^ shift = ap (λ k. 2 ^ k) (omega arith) in
    omega (arith, up 0, up 1, up 2, up 3, up 4, up 5, up 6, start)

-- The bytes that a number of so many groups of seven bits is written in.
unfoldable pub groups : ℕ → ℕ → List ℕ
groups zero v = []
groups (suc fuel) v = if v / 128 == 0 then v % 128 ∷ [] else (v % 128 + 128) ∷ groups fuel (v / 128)

abbrev pub limit : ℕ → ℕ
limit zero = 1
limit (suc fuel) = 128 * limit fuel

pub length-groups : (fuel v : ℕ) → length (groups fuel v) ≤ fuel
unfolding groups
length-groups zero v = omega arith
length-groups (suc fuel) v = ground (arith, length-groups fuel (v / 128))

append_nothing : (xs : List ℕ) → xs ++ [] ≡ xs
append_nothing [] = refl
append_nothing (x ∷ xs) = ap (◌∷◌ x) (append_nothing xs)

append_next : (xs : List ℕ) (y : ℕ) (ys : List ℕ) → (xs ++ (y ∷ [])) ++ ys ≡ xs ++ (y ∷ ys)
append_next [] y ys = refl
append_next (x ∷ xs) y ys = ap (◌∷◌ x) (append_next xs y ys)

pub append_twice : (xs ys zs : List ℕ) → (xs ++ ys) ++ zs ≡ xs ++ (ys ++ zs)
append_twice [] ys zs = refl
append_twice (x ∷ xs) ys zs = ap (◌∷◌ x) (append_twice xs ys zs)

pub push_loop-groups :
    (fuel room : ℕ) (out : List ℕ) (v : ℕ)
    → length out + fuel ≤ room
    → push_loop fuel room out v ≡ out ++ groups fuel v
unfolding push_loop groups
push_loop-groups zero room out v fits = sym (append_nothing out)
push_loop-groups (suc fuel) room out v fits = elim (Bool-cases (v / 128 == 0)) [
  | inl last ↦ ground arith
  | inr more ↦
      let byte = v % 128 + 128 in
      let long = length-append out (byte ∷ []) in
      let pushed : push_byte room out byte ≡ out ++ (byte ∷ []) = ground arith in
      let rest = push_loop-groups fuel room (out ++ (byte ∷ [])) (v / 128) (omega (arith, long)) in
      rw (more, pushed) (rest ∙ append_next out byte (groups fuel (v / 128)))
]

-- From an index on the data has the given elements.
abbrev At : List ℕ → ℕ → List ℕ → Type 0
At bytes idx xs = (j : ℕ) → j < length xs → get_elem? bytes (idx + j) ≡ get_elem? xs j

get_elem?-append :
    (xs post : List ℕ) (j : ℕ) → j < length xs → get_elem? (xs ++ post) j ≡ get_elem? xs j
get_elem?-append [] post j lt = absurd (omega arith)
get_elem?-append (x ∷ xs) post zero lt = refl
get_elem?-append (x ∷ xs) post (suc j) lt = get_elem?-append xs post j (omega arith)

At-append : (pre xs post : List ℕ) → At (pre ++ (xs ++ post)) (length pre) xs
At-append [] xs post j lt =
    ap (get_elem? (xs ++ post)) {x = 0 + j} {y = j} (omega arith) ∙ get_elem?-append xs post j lt
At-append (x ∷ pre) xs post j lt =
    ap (get_elem? (x ∷ (pre ++ (xs ++ post)))) {x = suc (length pre) + j} {y = suc (length pre + j)}
      (omega arith)
    ∙ At-append pre xs post j lt

At-tail : (bytes : List ℕ) (idx x : ℕ) (xs : List ℕ) → At bytes idx (x ∷ xs) → At bytes (idx + 1) xs
At-tail bytes idx x xs at j lt =
    ap (get_elem? bytes) {x = idx + 1 + j} {y = idx + suc j} (omega arith)
    ∙ at (suc j) (omega arith)

At-head :
    (bytes : List ℕ) (idx x : ℕ) (xs : List ℕ)
    → At bytes idx (x ∷ xs)
    → get_elem? bytes idx ≡ some x
At-head bytes idx x xs at =
    ap (get_elem? bytes) {x = idx} {y = idx + 0} (omega arith) ∙ at 0 (omega arith)

read_last :
    (bytes : List ℕ) (rounds shift value idx byte : ℕ)
    → get_elem? bytes idx ≡ some byte
    → shift < 63
    → byte < 128
    → read_loop bytes (suc rounds) shift value idx ≡ some (value + byte * 2 ^ shift, idx + 1)
unfolding read_loop
read_last bytes rounds shift value idx byte at early low =
    let small : byte % 128 ≡ byte = omega arith in
    let same : byte % 128 * 2 ^ shift ≡ byte * 2 ^ shift = ap (λ k. k * 2 ^ shift) small in
    rw (at, read_loop) (ground arith)

read_more :
    (bytes : List ℕ) (rounds shift value idx byte : ℕ)
    → get_elem? bytes idx ≡ some byte
    → shift < 63
    → 128 ≤ byte
    → read_loop bytes (suc rounds) shift value idx
      ≡ read_loop bytes rounds (shift + 7) (value + byte % 128 * 2 ^ shift) (idx + 1)
unfolding read_loop
read_more bytes rounds shift value idx byte at early high = rw (at, read_loop) (ground arith)

read_loop-groups :
    (fuel rounds shift value idx v : ℕ) (bytes : List ℕ)
    → fuel < rounds
    → shift + 7 * fuel < 63
    → v < limit (suc fuel)
    → At bytes idx (groups (suc fuel) v)
    → read_loop bytes rounds shift value idx
      ≡ some (value + v * 2 ^ shift, idx + length (groups (suc fuel) v))
unfolding groups
read_loop-groups fuel zero shift value idx v bytes more low small at = absurd (omega arith)
read_loop-groups zero (suc rounds) shift value idx v bytes more low small at =
    let last : (v / 128 == 0) ≡ true = ground arith in
    let same : v % 128 ≡ v = omega arith in
    let only = At-head bytes idx (v % 128) [] (rw last at at) in
    rw last
      (read_last bytes rounds shift value idx v (only ∙ ap some same) (omega arith) (omega arith))
read_loop-groups (suc fuel) (suc rounds) shift value idx v bytes more low small at =
    elim (Bool-cases (v / 128 == 0)) [
      | inl last ↦
          let below : v < 128 = ground arith in
          let same : v % 128 ≡ v = omega arith in
          let only = At-head bytes idx (v % 128) [] (rw last at at) in
          rw last
            (read_last bytes rounds shift value idx v (only ∙ ap some same) (omega arith) below)
      | inr longer ↦
          let byte = v % 128 + 128 in
          let rest = groups (suc fuel) (v / 128) in
          let all : At bytes idx (byte ∷ rest) = rw longer at at in
          let value' = value + byte % 128 * 2 ^ shift in
          let step =
            read_more bytes rounds shift value idx byte (At-head bytes idx byte rest all)
              (omega arith) (omega arith) in
          let later =
            read_loop-groups fuel rounds (shift + 7) value' (idx + 1) (v / 128) bytes (omega arith)
              (omega arith) (omega arith) (At-tail bytes idx byte rest all) in
          let p = 2 ^ shift in
          let low_bits : byte % 128 * p ≡ v % 128 * p =
            ap (λ k. k * p) {x = byte % 128} {y = v % 128} (omega arith) in
          let high_bits = ap (λ k. v / 128 * k) (next_weight shift) in
          let weight : value' + v / 128 * 2 ^ (shift + 7) ≡ value + v * p =
            omega (arith, low_bits, high_bits, split_weight v p) in
          let end : idx + 1 + length rest ≡ idx + suc (length rest) = omega arith in
          rw longer (
            step
            ∙ later
            ∙ ap (λ w. some (w, idx + 1 + length rest)) weight
            ∙ ap (λ e. some (value + v * p, e)) end)
    ]

-- A word of 32 bits that `push_varint` writes behind what a vector holds, where the vector has room
-- for five bytes more, is read back by `read_varint` from where it was written, whatever follows, and
-- the index returned is that of its end.
pub read_varint-push_varint :
    (room v : ℕ) (out post : List ℕ)
    → v < 2 ^ 32
    → length out + 5 ≤ room
    → let written = push_varint room out v in
      read_varint (written ++ post) (length out) ≡ some (v, length written)
unfolding read_varint read_varint64 push_varint
read_varint-push_varint room v out post small fits =
    let xs = groups 5 v in
    let pushed = push_loop-groups 5 room out v fits in
    let there : At ((out ++ xs) ++ post) (length out) xs =
      rw (append_twice out xs post) (At-append out xs post) in
    let read =
      read_loop-groups 4 10 0 0 (length out) v ((out ++ xs) ++ post) (omega arith) (omega arith)
        (omega arith) there in
    let long = length-append out xs in
    let value : 0 + v * 2 ^ 0 ≡ v = omega arith in
    rw (pushed, read_varint, read) (ground (arith, value, long))
