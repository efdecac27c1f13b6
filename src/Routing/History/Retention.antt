-- ===== src/Routing/History/Retention.antt =====
-- How long the packet history remembers: the ring overwrites its oldest entry, so a packet stays
-- known while fewer than 64 packets are stored behind it.
use meshrustic.Base.{
  ℕ, zero, suc, ◌+◌, ◌-◌, ◌%◌, ◌≤◌, ◌<◌, ◌≡◌, refl, ◌≢◌, true, false, none, some, List, [], ◌∷◌,
  arith, length, get_or, set, get_or-set_self, get_or-set_ne, update_first, Option-cases, ◌⊎◌, ◌∙◌,
  inl, inr, is_some-find?,
}
use meshrustic.Routing.History.{
  HistoryEntry, PacketHistory, history_size, empty_entry, is_entry, find, raise, store, observe,
  is_duplicate, remember,
}
use meshrustic.Routing.History.Lookup.{IsValid, store-IsValid, is_entry-raise}

-- The packet stands at an index that the head reaches only after `n` more new packets.
record Held (from id n : ℕ) (h : PacketHistory) : Type 0 where
  index : ℕ
  in_range : index < history_size
  matching : is_entry from id (get_or h.entries index empty_entry) ≡ true
  room : n ≤ (index + history_size - h.head) % history_size

get_or-update_first :
    (from id f i hop : ℕ) (es : List HistoryEntry) (j : ℕ)
    → is_entry from id (get_or (update_first (is_entry f i) (raise hop) es) j empty_entry)
      ≡ is_entry from id (get_or es j empty_entry)
get_or-update_first from id f i hop [] j = refl
get_or-update_first from id f i hop (e ∷ es) zero = ground (arith, is_entry-raise from id hop e)
get_or-update_first from id f i hop (e ∷ es) (suc j) =
    ground (arith, get_or-update_first from id f i hop es j)

-- The two ways of `store`.
store-miss :
    (h : PacketHistory) (f i hop : ℕ)
    → find h f i ≡ none
    → store h f i hop ≡ record h {
      entries = set h.entries h.head (record { from = f; id = i; max_hop_limit = hop });
      head = (h.head + 1) % history_size;
    }
unfolding store
store-miss h f i hop miss = rw (miss, store)

store-hit :
    (h : PacketHistory) (f i hop : ℕ) (e : HistoryEntry)
    → find h f i ≡ some e
    → store h f i hop ≡ record h { entries = update_first (is_entry f i) (raise hop) h.entries }
unfolding store
store-hit h f i hop e hit = rw (hit, store)

Held-store :
    (from id n : ℕ) (h : PacketHistory) (f i hop : ℕ)
    → IsValid h
    → Held from id (suc n) h
    → Held from id n (store h f i hop)
Held-store from id n h f i hop v k = elim (Option-cases (find h f i)) [
  | inl miss ↦ rw (store-miss h f i hop miss) (record {
    index = k.index;
    in_range = k.in_range;
    matching =
        rw
          (get_or-set_ne h.entries h.head k.index (record { from = f; id = i; max_hop_limit = hop })
            empty_entry (omega arith))
          k.matching;
    room = omega arith;
  })
  | inr (e, hit) ↦ rw (store-hit h f i hop e hit) (record {
    index = k.index;
    in_range = k.in_range;
    matching = get_or-update_first from id f i hop h.entries k.index ∙ k.matching;
    room = omega arith;
  })
]

is_entry_self :
    (from id hop : ℕ)
    → from ≢ 0
    → is_entry from id (record { from = from; id = id; max_hop_limit = hop }) ≡ true
unfolding is_entry
is_entry_self from id hop nz = ground arith

Held-stored :
    (h : PacketHistory) (from id hop : ℕ)
    → IsValid h
    → from ≢ 0
    → find h from id ≡ none
    → Held from id 63 (store h from id hop)
Held-stored h from id hop v nz miss = rw (store-miss h from id hop miss) (record {
  index = h.head;
  in_range = v.head_in;
  matching =
      rw
        (get_or-set_self h.entries h.head (record { from = from; id = id; max_hop_limit = hop })
          empty_entry (omega arith))
        (is_entry_self from id hop nz);
  room = omega arith;
})

Held-IsDuplicate :
    (h : PacketHistory) (from id n : ℕ)
    → IsValid h
    → Held from id n h
    → is_duplicate h from id ≡ true
unfolding is_duplicate find
Held-IsDuplicate h from id n v k =
    is_some-find? (is_entry from id) h.entries empty_entry k.index (omega arith) k.matching

-- The calls that change a packet history.
pub data Call : Type 0 where
  observing : ℕ → ℕ → ℕ → Call
  remembering : ℕ → ℕ → Call

abbrev pub after : PacketHistory → Call → PacketHistory
after h (observing from id hop) = (observe h from id hop).0
after h (remembering from id) = remember h from id

abbrev pub run : PacketHistory → List Call → PacketHistory
run h [] = h
run h (c ∷ calls) = run (after h c) calls

Held-le : (h : PacketHistory) (from id m n : ℕ) → m ≤ n → Held from id n h → Held from id m h
Held-le h from id m n le k = record {
  index = k.index;
  in_range = k.in_range;
  matching = k.matching;
  room = omega arith;
}

-- Every call keeps the ring well formed, and uses up one packet's room at most.
after-IsValid : (h : PacketHistory) (c : Call) → IsValid h → IsValid (after h c)
unfolding observe remember
after-IsValid h (observing from id hop) v = ground (arith, store-IsValid h from id hop v)
after-IsValid h (remembering from id) v = store-IsValid h from id 0 v

-- `observe` leaves the ring, or stores.
observe-cases :
    (h : PacketHistory) (f i hop : ℕ)
    → ((observe h f i hop).0 ≡ h) ⊎ ((observe h f i hop).0 ≡ store h f i hop)
unfolding observe
observe-cases h f i hop = ground arith

Held-after :
    (h : PacketHistory) (c : Call) (from id n : ℕ)
    → IsValid h
    → Held from id (suc n) h
    → Held from id n (after h c)
unfolding remember
Held-after h (observing f i hop) from id n v k = elim (observe-cases h f i hop) [
  | inl same ↦ rw same (Held-le h from id n (suc n) (omega arith) k)
  | inr stored ↦ rw stored (Held-store from id n h f i hop v k)
]
Held-after h (remembering f i) from id n v k = Held-store from id n h f i 0 v k

-- A packet that is not yet known is stored.
observe-stored :
    (h : PacketHistory) (f i hop : ℕ)
    → i ≢ 0
    → find h f i ≡ none
    → (observe h f i hop).0 ≡ store h f i hop
unfolding observe
observe-stored h f i hop ni miss = ground arith

find-none : (h : PacketHistory) (f i : ℕ) → is_duplicate h f i ≡ false → find h f i ≡ none
unfolding is_duplicate
find-none h f i e = ground arith

run-Held :
    (calls : List Call) (h : PacketHistory) (from id n : ℕ)
    → IsValid h
    → Held from id n h
    → length calls ≤ n
    → is_duplicate (run h calls) from id ≡ true
run-Held [] h from id n v k le = Held-IsDuplicate h from id n v k
run-Held (c ∷ calls) h from id zero v k le = absurd (omega arith)
run-Held (c ∷ calls) h from id (suc n) v k le =
    run-Held calls (after h c) from id n (after-IsValid h c v) (Held-after h c from id n v k)
      (omega arith)

-- A packet with a sender and an id that a well formed history reports as new is recognised as a
-- duplicate after any 63 further calls, whatever packets they bring.
pub run-observe :
    (h : PacketHistory) (from id hop : ℕ) (calls : List Call)
    → IsValid h
    → from ≢ 0
    → id ≢ 0
    → is_duplicate h from id ≡ false
    → length calls ≤ 63
    → is_duplicate (run (observe h from id hop).0 calls) from id ≡ true
run-observe h from id hop calls v nf ni new le =
    run-Held calls (observe h from id hop).0 from id 63 (after-IsValid h (observing from id hop) v)
      (rw (observe-stored h from id hop ni (find-none h from id new))
        (Held-stored h from id hop v nf (find-none h from id new)))
      le
