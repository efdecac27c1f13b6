-- ===== src/Routing/HopHealth/Misses.antt =====
-- The number of misses that the table holds against a next hop, and what each call makes of it.
use meshrustic.Base.{
  ℕ, zero, suc, ◌≡◌, refl, ◌≢◌, true, false, none, some, List, [], ◌∷◌, arith, if◌then◌else◌,
  length, set, position, find?, find?-set_unmatched, Option-cases, Bool-cases, inl, inr,
}
use meshrustic.Routing.HopHealth.{
  HopHealth, HopHealthEntry, empty, max_hop_health, is_occupied, is_entry, expired,
}

-- No two entries of the list stand for one pair.
abbrev pub Unique : List HopHealthEntry → Type 0
Unique [] = Unit {0}
Unique (e ∷ es) =
    (is_occupied e ≡ true → find? (is_entry e.destination e.next_hop) es ≡ none) × Unique es

pub record IsValid (h : HopHealth) : Type 0 where
  pub size : length h.entries ≡ max_hop_health
  pub unique : Unique h.entries

-- The misses in a row that count against a pair at a time: none once the last is out of date.
abbrev pub misses : HopHealth → ℕ → ℕ → ℕ → ℕ
misses h d n now = elim (find? (is_entry d n) h.entries) [
  | none ↦ 0
  | some e ↦ if expired now e then 0 else e.consecutive_misses
]

pub is_entry_keys :
    (d n : ℕ) (e : HopHealthEntry)
    → is_entry d n e ≡ true
    → (e.destination ≡ d) × (e.next_hop ≡ n) × (is_occupied e ≡ true)
unfolding is_entry
is_entry_keys d n e h = ground arith

pub is_entry_self :
    (d n m t : ℕ)
    → d ≢ 0
    → n ≢ 0
    → is_entry d n
        (record { destination = d; next_hop = n; consecutive_misses = m; last_miss_ms = t })
      ≡ true
unfolding is_entry is_occupied
is_entry_self d n m t hd hn = ground arith

pub is_entry-empty : (d n : ℕ) → is_entry d n empty ≡ false
unfolding is_entry is_occupied
is_entry-empty d n = refl

-- Once the only entry of a pair is blanked, nothing stands for the pair.
pub find?-clear :
    (d n : ℕ) (es : List HopHealthEntry) (i : ℕ)
    → Unique es
    → position (is_entry d n) es ≡ some i
    → find? (is_entry d n) (set es i empty) ≡ none
find?-clear d n [] i u e = absurd (cc)
find?-clear d n (x ∷ es) i u e = elim (Bool-cases (is_entry d n x)) [
  | inl here ↦
      let (dest, hop, occupied) = is_entry_keys d n x here in
      let rest = u.0 occupied in ground (arith, is_entry-empty d n)
  | inr later ↦ elim (Option-cases (position (is_entry d n) es)) [
    | inl miss ↦ absurd (ground arith)
    | inr (j, hit) ↦ ground (arith, find?-clear d n es j u.1 hit)
  ]
]

not_entry :
    (x v : HopHealthEntry) (es : List HopHealthEntry)
    → is_occupied x ≡ true
    → (is_occupied v ≡ true → find? (is_entry v.destination v.next_hop) (x ∷ es) ≡ none)
    → is_entry x.destination x.next_hop v ≡ false
unfolding is_entry
not_entry x v es o h = elim (Bool-cases (is_entry x.destination x.next_hop v)) [
  | inl same ↦ absurd (ground (arith, h (is_entry_keys x.destination x.next_hop v same).2))
  | inr other ↦ other
]

-- A write keeps the pairs distinct if the new entry's pair stands nowhere else.
pub Unique-set :
    (es : List HopHealthEntry) (i : ℕ) (v : HopHealthEntry)
    → Unique es
    → (is_occupied v ≡ true → find? (is_entry v.destination v.next_hop) (set es i empty) ≡ none)
    → Unique (set es i v)
Unique-set [] i v u h = tt
Unique-set (x ∷ es) zero v u h =
    ((λ o. ground (arith, h o, is_entry-empty v.destination v.next_hop)), u.1)
Unique-set (x ∷ es) (suc i) v u h = (
  (λ o.
      find?-set_unmatched (is_entry x.destination x.next_hop) es i v
        (not_entry x v (set es i empty) o h) (u.0 o)),
  Unique-set es i v u.1 (λ o. ground (arith, h o)),
)
