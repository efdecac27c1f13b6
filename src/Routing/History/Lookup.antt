-- ===== src/Routing/History/Lookup.antt =====
-- What a lookup in the packet history reads after an operation, in every case.
use meshrustic.Base.{
  ℕ, ◌<◌, max, ◌≡◌, refl, ◌≢◌, true, false, Option, none, some, List, [], ◌∷◌, arith, length, set,
  length-set, length-update_first, find?, update_first, ltb, if◌then◌else◌, Option-cases, inl, inr,
  zero, suc,
}
use meshrustic.Routing.History.{
  HistoryEntry, PacketHistory, ObserveResult, fresh, duplicate, upgraded, history_size, is_entry,
  find, raise, store, observe, max_hop_limit, is_duplicate,
}

-- The ring is full size and its head stands inside it.
pub record IsValid (h : PacketHistory) : Type 0 where
  pub size : length h.entries ≡ history_size
  pub head_in : h.head < history_size

-- `store` keeps the ring's size and its head inside.
pub store-IsValid :
    (h : PacketHistory) (from id hop : ℕ) → IsValid h → IsValid (store h from id hop)
unfolding store
store-IsValid h from id hop v = ground (
  arith,
  length-set h.entries h.head (record { from = from; id = id; max_hop_limit = hop }),
  length-update_first (is_entry from id) (raise hop) h.entries,
)

-- Two different keys never match one entry.
pub is_entry_unique :
    (from id from' id' : ℕ) (e : HistoryEntry)
    → is_entry from id e ≡ true
    → is_entry from' id' e ≡ true
    → (from ≡ from') × (id ≡ id')
unfolding is_entry
is_entry_unique from id from' id' e h k = ground arith

-- Raising an entry leaves its key.
pub is_entry-raise :
    (from id hop : ℕ) (e : HistoryEntry) → is_entry from id (raise hop e) ≡ is_entry from id e
unfolding is_entry raise
is_entry-raise from id hop e = ground arith

find-update_first :
    (from id hop : ℕ) (es : List HistoryEntry) (e : HistoryEntry)
    → find? (is_entry from id) es ≡ some e
    → find? (is_entry from id) (update_first (is_entry from id) (raise hop) es) ≡ some (raise hop e)
find-update_first from id hop [] e h = absurd (cc)
find-update_first from id hop (x ∷ es) e h =
    ground (arith, find-update_first from id hop es e, is_entry-raise from id hop x)

find-set :
    (from id hop : ℕ) (es : List HistoryEntry) (i : ℕ)
    → from ≢ 0
    → i < length es
    → find? (is_entry from id) es ≡ none
    → find? (is_entry from id) (set es i (record { from = from; id = id; max_hop_limit = hop }))
      ≡ some (record { from = from; id = id; max_hop_limit = hop })
unfolding is_entry
find-set from id hop [] i nz lt h = absurd (omega arith)
find-set from id hop (x ∷ es) zero nz lt h = ground arith
find-set from id hop (x ∷ es) (suc i) nz lt h = ground (arith, find-set from id hop es i)

find-store :
    (h : PacketHistory) (from id hop : ℕ)
    → IsValid h
    → from ≢ 0
    → find (store h from id hop) from id
      ≡ some (elim (find h from id) [
        | some e ↦ raise hop e
        | none ↦ record { from = from; id = id; max_hop_limit = hop }
      ])
unfolding store find
find-store h from id hop v nz = elim (Option-cases (find? (is_entry from id) h.entries)) [
  | inl miss ↦ ground (arith, find-set from id hop h.entries h.head)
  | inr (e, hit) ↦ ground (arith, find-update_first from id hop h.entries e)
]

find_zero : (id : ℕ) (es : List HistoryEntry) → find? (is_entry 0 id) es ≡ none
unfolding is_entry
find_zero id [] = refl
find_zero id (e ∷ es) = ground (arith, find_zero id es)

-- What a packet's record and the reported result are after `observe`, from its record before.
abbrev pub record_after : Option ℕ → ℕ → ℕ
record_after none hop = hop
record_after (some m) hop = max m hop

abbrev pub verdict : Option ℕ → ℕ → ObserveResult
verdict none hop = fresh
verdict (some m) hop = if ltb m hop then upgraded else duplicate

-- Observing a packet with a sender and an id, on a ring that is well formed: the result is `New`
-- if the packet was unknown, `Upgraded` if it was known with fewer hops left, and `Duplicate`
-- otherwise; afterwards the ring is well formed, and knows the packet with the larger hop limit.
pub observe_lem :
    (h : PacketHistory) (from id hop : ℕ)
    → IsValid h
    → from ≢ 0
    → id ≢ 0
    → ((observe h from id hop).1 ≡ verdict (max_hop_limit h from id) hop)
      × (max_hop_limit (observe h from id hop).0 from id
          ≡ some (record_after (max_hop_limit h from id) hop))
      × (is_duplicate (observe h from id hop).0 from id ≡ true)
      × IsValid (observe h from id hop).0
unfolding observe max_hop_limit is_duplicate raise
observe_lem h from id hop v nf ni =
    ground (arith, find-store h from id hop v nf, store-IsValid h from id hop v)

-- A packet with id 0 is reported as new, whatever the ring holds, and is not recorded; one with sender
-- 0 is reported as new and is never recognised.
pub observe_anonymous :
    (h : PacketHistory) (from id hop : ℕ)
    → (observe h from 0 hop ≡ (h, fresh))
      × ((observe h 0 id hop).1 ≡ fresh)
      × (is_duplicate h 0 id ≡ false)
unfolding observe is_duplicate find
observe_anonymous h from id hop = ground (arith, find_zero id h.entries)
