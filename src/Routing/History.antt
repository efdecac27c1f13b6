-- ===== src/Routing/History.antt =====
-- crates/mesh-routing/src/packet_history.rs: the ring of recently seen packets by which the
-- router recognises duplicates, and hears of copies with more hops left.
pub mod Lookup
pub mod Retention
mod Tests
use meshrustic.Base.{
  ℕ, ◌+◌, ◌%◌, Bool, ◌&&◌, not, Option, none, some, List, ltb, ◌==◌, if◌then◌else◌, is_some, find?,
  update_first, set, replicate,
}
use mathlib.Core.Option

abbrev pub history_size : ℕ
history_size = 64

pub record HistoryEntry : Type 0 where
  pub from : ℕ
  pub id : ℕ
  pub max_hop_limit : ℕ

pub data ObserveResult : Type 0 where
  fresh duplicate upgraded : ObserveResult

pub record PacketHistory : Type 0 where
  pub entries : List HistoryEntry
  pub head : ℕ

abbrev pub empty_entry : HistoryEntry
empty_entry = record { from = 0; id = 0; max_hop_limit = 0 }

abbrev pub new : PacketHistory
new = record { entries = replicate history_size empty_entry; head = 0 }

-- The test that `find` and `find_mut` pass to the iterator.
pub is_entry : ℕ → ℕ → HistoryEntry → Bool
is_entry from id e = (e.from == from) && ((e.id == id) && not (e.from == 0))

pub find : PacketHistory → ℕ → ℕ → Option HistoryEntry
find h from id = find? (is_entry from id) h.entries

-- What `store` does to an entry that it finds.
pub raise : ℕ → HistoryEntry → HistoryEntry
raise hop_limit e =
    if ltb e.max_hop_limit hop_limit then record e { max_hop_limit = hop_limit } else e

pub store : PacketHistory → ℕ → ℕ → ℕ → PacketHistory
store h from id hop_limit = elim (find h from id) [
  | some _ ↦ record h { entries = update_first (is_entry from id) (raise hop_limit) h.entries }
  | none ↦ record h {
    entries = set h.entries h.head (record { from = from; id = id; max_hop_limit = hop_limit });
    head = (h.head + 1) % history_size;
  }
]

pub observe : PacketHistory → ℕ → ℕ → ℕ → PacketHistory × ObserveResult
observe h from id hop_limit = if id == 0 then (h, fresh) else elim (find h from id) [
  | some e ↦
      if ltb e.max_hop_limit hop_limit
      then (store h from id hop_limit, upgraded)
      else (h, duplicate)
  | none ↦ (store h from id hop_limit, fresh)
]

pub max_hop_limit : PacketHistory → ℕ → ℕ → Option ℕ
max_hop_limit h from id = Option.map (λ e. e.max_hop_limit) (find h from id)

pub is_duplicate : PacketHistory → ℕ → ℕ → Bool
is_duplicate h from id = is_some (find h from id)

pub remember : PacketHistory → ℕ → ℕ → PacketHistory
remember h from id = store h from id 0
