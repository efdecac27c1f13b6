-- ===== src/Routing/History/Tests.antt =====
-- Runs of the packet history at concrete inputs.
use meshrustic.Base.{◌≡◌, refl, true, some, [], ◌∷◌, arith}
use meshrustic.Routing.History.{
  PacketHistory, duplicate, upgraded, new, observe, max_hop_limit, is_duplicate, is_entry, find,
  raise, store, remember,
}
use meshrustic.Routing.History.Lookup.{IsValid, observe_lem, verdict, record_after}
use meshrustic.Routing.History.Retention.{observing, remembering, run, run-observe}

program : Unit {0}
unfolding observe max_hop_limit is_duplicate is_entry find raise store remember
program = tt

abbrev seen : PacketHistory
seen = (observe new 0xaa 1 2).0

-- The source's test `detects_hop_limit_upgrade`.
hop_limit_upgrade :
    ((observe seen 0xaa 1 2).1 ≡ duplicate)
    × ((observe seen 0xaa 1 4).1 ≡ upgraded)
    × (max_hop_limit (observe seen 0xaa 1 4).0 0xaa 1 ≡ some 4)
unfolding program
hop_limit_upgrade = (refl, refl, refl)

new-IsValid : IsValid new
new-IsValid = record { size = refl; head_in = omega arith }

observe_lem_example :
    ((observe new 0xaa 1 2).1 ≡ verdict (max_hop_limit new 0xaa 1) 2)
    × (max_hop_limit (observe new 0xaa 1 2).0 0xaa 1
        ≡ some (record_after (max_hop_limit new 0xaa 1) 2))
    × (is_duplicate (observe new 0xaa 1 2).0 0xaa 1 ≡ true)
    × IsValid (observe new 0xaa 1 2).0
observe_lem_example = observe_lem new 0xaa 1 2 new-IsValid (omega arith) (omega arith)

run-observe_example :
    is_duplicate (run (observe new 0xaa 1 2).0 (observing 5 6 1 ∷ remembering 8 9 ∷ [])) 0xaa 1
    ≡ true
unfolding program
run-observe_example =
    run-observe new 0xaa 1 2 (observing 5 6 1 ∷ remembering 8 9 ∷ []) new-IsValid (omega arith)
      (omega arith) refl (omega arith)
