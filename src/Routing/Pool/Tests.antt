-- ===== src/Routing/Pool/Tests.antt =====
-- Runs of the packet pool at concrete inputs.
use meshrustic.Base.{◌≡◌, refl, none, some, [], ◌∷◌, arith}
use mathlib.Core.Option
use meshrustic.Routing.Pool.{
  PacketPool, PacketHandle, PacketSlot, new, empty, alloc, take_slot, owns, get, get_mut, release,
  free_count, with_guard,
}
use meshrustic.Routing.Pool.Inv.{IsValid, alloc-IsValid}
use meshrustic.Routing.Pool.Stale.{allocating, releasing, run, run-release}

program : Unit {0}
unfolding alloc take_slot owns get get_mut release free_count with_guard empty
program = tt

abbrev first : PacketHandle
first = record { index = 0; generation = 1 }

abbrev second : PacketHandle
second = record { index = 1; generation = 1 }

abbrev one_used : PacketPool
one_used = (alloc new).1

abbrev touch : PacketSlot → PacketSlot
touch s = record s { payload_len = 1 }

new-IsValid : IsValid new
new-IsValid = record { slots = refl; used = refl; generations = refl }

one_used-IsValid : IsValid one_used
one_used-IsValid = alloc-IsValid new new-IsValid

-- The source's test `guard_releases_on_drop`.
guard_releases_on_drop : Option.map free_count (with_guard one_used first touch) ≡ some 16
unfolding program
guard_releases_on_drop = refl

run-release_example :
    let q = run (release one_used first) (allocating ∷ releasing first ∷ []) in
    (get q first ≡ none) × (release q first ≡ q) × (get_mut q first touch ≡ q)
unfolding program
run-release_example =
    run-release one_used first touch (allocating ∷ releasing first ∷ []) one_used-IsValid
      (omega arith) refl (omega arith)
