-- ===== src/Routing/Pool/Inv.antt =====
-- The pool's arrays keep their size, and the number of free slots follows the calls.
use meshrustic.Base.{
  ℕ, zero, suc, ◌+◌, ◌-◌, ◌≡◌, refl, Bool, true, false, not, none, some, List, [], ◌∷◌, arith, ltb,
  if◌then◌else◌, length, length-set, get_or, set, position, count_if, is_some, Option-cases, inl,
  inr,
}
use meshrustic.Routing.Pool.{
  PacketPool, PacketHandle, PacketSlot, pool_size, empty, next_generation, take_slot, alloc, owns,
  get, get_mut, release, free_count,
}

pub record IsValid (p : PacketPool) : Type 0 where
  pub slots : length p.slots ≡ pool_size
  pub used : length p.used ≡ pool_size
  pub generations : length p.generations ≡ pool_size

pub take_slot-IsValid : (p : PacketPool) (i : ℕ) → IsValid p → IsValid (take_slot p i)
unfolding take_slot
take_slot-IsValid p i v = omega (
  arith,
  length-set p.slots i empty,
  length-set p.used i true,
  length-set p.generations i (next_generation p i),
)

pub alloc-IsValid : (p : PacketPool) → IsValid p → IsValid (alloc p).1
unfolding alloc
alloc-IsValid p v = elim (Option-cases (position not p.used)) [
  | inl e ↦ rw (e, alloc) v
  | inr (i, e) ↦ rw (e, alloc) (take_slot-IsValid p i v)
]

pub release-IsValid : (p : PacketPool) (h : PacketHandle) → IsValid p → IsValid (release p h)
unfolding release
release-IsValid p h v = ground (arith, length-set p.used h.index false)

pub get_mut-IsValid :
    (p : PacketPool) (h : PacketHandle) (f : PacketSlot → PacketSlot)
    → IsValid p
    → IsValid (get_mut p h f)
unfolding get_mut
get_mut-IsValid p h f v =
    ground (arith, length-set p.slots h.index (f (get_or p.slots h.index empty)))

count_take :
    (us : List Bool) {i : ℕ}
    → position not us ≡ some i
    → count_if not (set us i true) + 1 ≡ count_if not us
count_take [] e = absurd (cc)
count_take (true ∷ us) e = elim (Option-cases (position not us)) [
  | inl miss ↦ absurd (ground arith)
  | inr (j, hit) ↦ ground (arith, count_take us hit)
]
count_take (false ∷ us) e = ground arith

count_give :
    (us : List Bool) (i : ℕ)
    → get_or us i false ≡ true
    → count_if not (set us i false) ≡ count_if not us + 1
count_give [] i e = absurd (cc)
count_give (u ∷ us) zero e = ground arith
count_give (u ∷ us) (suc i) e = omega (arith, count_give us i e)

count_none : (us : List Bool) → position not us ≡ none → count_if not us ≡ 0
count_none [] e = refl
count_none (true ∷ us) e = ground (arith, count_none us)
count_none (false ∷ us) e = absurd (ground arith)

free_count-alloc :
    (p : PacketPool)
    → (is_some (alloc p).0 ≡ ltb 0 (count_if not p.used))
      × (count_if not (alloc p).1.used ≡ count_if not p.used - 1)
unfolding alloc take_slot
free_count-alloc p = elim (Option-cases (position not p.used)) [
  | inl e ↦ ground (arith, count_none p.used e)
  | inr (i, e) ↦ ground (arith, count_take p.used e)
]

free_count-release :
    (p : PacketPool) (h : PacketHandle)
    → count_if not (release p h).used ≡ count_if not p.used + (if is_some (get p h) then 1 else 0)
unfolding release get owns
free_count-release p h = ground (arith, count_give p.used h.index)

-- An allocation succeeds exactly while a slot is free, and takes one (a failed one leaves the count
-- at 0); a release gives one slot back exactly if the handle is live.
pub free_count_lem :
    (p : PacketPool) (h : PacketHandle)
    → (is_some (alloc p).0 ≡ ltb 0 (free_count p))
      × (free_count (alloc p).1 ≡ free_count p - 1)
      × (free_count (release p h) ≡ free_count p + (if is_some (get p h) then 1 else 0))
unfolding free_count
free_count_lem p h = ((free_count-alloc p).0, (free_count-alloc p).1, free_count-release p h)
