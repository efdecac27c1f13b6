-- ===== src/Routing/Pool.antt =====
-- crates/mesh-routing/src/pool.rs: the static pool of packet slots. A handle names a slot and the
-- generation in which it was taken, so that one kept after its release cannot reach the slot's next
-- user. A write through `get_mut` is a function applied to the slot.
pub mod Inv
pub mod Access
pub mod Stale
mod Tests
use meshrustic.Base.{
  ℕ, ◌-◌, Bool, true, false, not, ◌&&◌, Option, none, some, List, ◌==◌, ltb, if◌then◌else◌, get_or,
  set, replicate, position, count_if, is_some, wrapping_add,
}
use meshrustic.Protocol.Header.{PacketHeader}

abbrev pub pool_size : ℕ
pool_size = 16

-- `MAX_LORA_PAYLOAD_LEN - PACKET_HEADER_LEN`
abbrev pub max_packet_payload : ℕ
max_packet_payload = 239

pub record PacketHandle : Type 0 where
  pub index : ℕ
  pub generation : ℕ

pub record PacketSlot : Type 0 where
  pub header : PacketHeader
  pub payload : List ℕ
  pub payload_len : ℕ

unfoldable pub empty : PacketSlot
empty = record {
  header = record {
    to = 0;
    from = 0;
    id = 0;
    flags = 0;
    channel = 0;
    next_hop = 0;
    relay_node = 0;
  };
  payload = replicate max_packet_payload 0;
  payload_len = 0;
}

pub record PacketPool : Type 0 where
  pub slots : List PacketSlot
  pub used : List Bool
  pub generations : List ℕ

abbrev pub new : PacketPool
new = record {
  slots = replicate pool_size empty;
  used = replicate pool_size false;
  generations = replicate pool_size 0;
}

-- `wrapping_add(1)` on the generation of a slot.
abbrev pub next_generation : PacketPool → ℕ → ℕ
next_generation p i = wrapping_add (get_or p.generations i 0) 1

-- The pool once the slot at an index is taken.
pub take_slot : PacketPool → ℕ → PacketPool
take_slot p i = record {
  slots = set p.slots i empty;
  used = set p.used i true;
  generations = set p.generations i (next_generation p i);
}

pub alloc : PacketPool → Option PacketHandle × PacketPool
alloc p = elim (position not p.used) [
  | none ↦ (none, p)
  | some i ↦ (some (record { index = i; generation = next_generation p i }), take_slot p i)
]

-- The test of `get` and `get_mut`.
pub owns : PacketPool → PacketHandle → Bool
owns p h =
    ltb h.index pool_size
    && (get_or p.used h.index false && get_or p.generations h.index 0 == h.generation)

pub get : PacketPool → PacketHandle → Option PacketSlot
get p h = if owns p h then some (get_or p.slots h.index empty) else none

pub get_mut : PacketPool → PacketHandle → (PacketSlot → PacketSlot) → PacketPool
get_mut p h f =
    if owns p h
    then record p { slots = set p.slots h.index (f (get_or p.slots h.index empty)) }
    else p

pub release : PacketPool → PacketHandle → PacketPool
release p h = if is_some (get p h) then record p { used = set p.used h.index false } else p

pub free_count : PacketPool → ℕ
free_count p = count_if not p.used

-- `PacketGuard`: `none` is the panic of `new` on a slot that is not allocated; `work` is what the
-- guard's owner does to the slot, and the release is `drop`.
pub with_guard : PacketPool → PacketHandle → (PacketSlot → PacketSlot) → Option PacketPool
with_guard p h work = if is_some (get p h) then some (release (get_mut p h work) h) else none
