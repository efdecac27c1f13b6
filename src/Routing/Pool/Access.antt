-- ===== src/Routing/Pool/Access.antt =====
-- What a handle reads after each call: a live handle keeps its slot whatever happens to others.
use meshrustic.Base.{
  ℕ, ◌<◌, ◌≡◌, true, false, not, none, some, arith, ◌==◌, if◌then◌else◌, get_or, get_or-set_self,
  get_or-set_ne, position, position_sound, is_some, Option-cases, inl, inr, ◌&&◌,
}
use mathlib.Core.Option
use native.Mathlib.Decide.{ℕ_discrete}
use meshrustic.Routing.Pool.{
  PacketPool, PacketHandle, PacketSlot, pool_size, empty, next_generation, take_slot, alloc, owns,
  get, get_mut, release,
}
use meshrustic.Routing.Pool.Inv.{IsValid}

-- The slot that `alloc` takes was free and stands in the pool.
alloc_slot :
    (p : PacketPool) {i : ℕ}
    → IsValid p
    → position not p.used ≡ some i
    → (i < pool_size) × (get_or p.used i false ≡ false)
alloc_slot p v e = ground (arith, position_sound not p.used false e)

-- Which handles read what once a slot is taken.
get-take_slot :
    (p : PacketPool) (i : ℕ) (k : PacketHandle)
    → IsValid p
    → i < pool_size
    → get (take_slot p i) k ≡ (
        if k.index == i
        then (if k.generation == next_generation p i then some empty else none)
        else get p k)
unfolding get owns take_slot
get-take_slot p i k v lt = elim (ℕ_discrete i k.index) [
  | yes same ↦ rw (← same) (
      ground (
        arith,
        get_or-set_self p.slots i empty empty,
        get_or-set_self p.used i true false,
        get_or-set_self p.generations i (next_generation p i) 0,
      ))
  | no other ↦ ground (
    arith,
    get_or-set_ne p.slots i k.index empty empty other,
    get_or-set_ne p.used i k.index true false other,
    get_or-set_ne p.generations i k.index (next_generation p i) 0 other,
  )
]

-- After an allocation from a valid pool the new handle, and no other on its slot, reads the empty
-- slot; no handle at another slot reads anything new.
pub get-alloc :
    (p : PacketPool) {h : PacketHandle} (k : PacketHandle)
    → IsValid p
    → (alloc p).0 ≡ some h
    → get (alloc p).1 k ≡ (
        if k.index == h.index
        then (if k.generation == h.generation then some empty else none)
        else get p k)
unfolding alloc
get-alloc p k v e = elim (Option-cases (position not p.used)) [
  | inl full ↦ absurd (ground arith)
  | inr (i, found) ↦ ground (arith, get-take_slot p i k v (alloc_slot p v found).0)
]

-- In a valid pool no handle at the slot that `alloc` takes was live.
pub alloc-get :
    (p : PacketPool) {h : PacketHandle} (k : PacketHandle)
    → IsValid p
    → (alloc p).0 ≡ some h
    → k.index ≡ h.index
    → get p k ≡ none
unfolding alloc get owns
alloc-get p k v e same = elim (Option-cases (position not p.used)) [
  | inl full ↦ absurd (ground arith)
  | inr (i, found) ↦ ground (arith, alloc_slot p v found)
]

-- In a valid pool, a release by a live handle takes every handle on its slot away, and touches no
-- other; after a release by any other handle every handle reads what it did.
pub get-release :
    (p : PacketPool) (h k : PacketHandle)
    → IsValid p
    → get (release p h) k ≡ (if is_some (get p h) && k.index == h.index then none else get p k)
unfolding release get owns
get-release p h k v = elim (ℕ_discrete h.index k.index) [
  | yes same ↦ rw (← same) (ground (arith, get_or-set_self p.used h.index false false))
  | no other ↦ ground (arith, get_or-set_ne p.used h.index k.index false false other)
]

-- In a valid pool, a write through a handle is read by that handle if it is live, and by no other.
pub get-get_mut :
    (p : PacketPool) (h k : PacketHandle) (f : PacketSlot → PacketSlot)
    → IsValid p
    → get (get_mut p h f) k ≡ (
        if k.index == h.index && k.generation == h.generation
        then Option.map f (get p k)
        else get p k)
unfolding get_mut get owns
get-get_mut p h k f v = elim (ℕ_discrete h.index k.index) [
  | yes same ↦
      rw (← same)
        (ground (arith, get_or-set_self p.slots h.index (f (get_or p.slots h.index empty)) empty))
  | no other ↦
      ground (
        arith,
        get_or-set_ne p.slots h.index k.index (f (get_or p.slots h.index empty)) empty other,
      )
]
