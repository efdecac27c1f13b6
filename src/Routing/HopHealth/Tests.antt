-- ===== src/Routing/HopHealth/Tests.antt =====
-- Runs of the hop health table at concrete inputs.
use meshrustic.Base.{◌≡◌, refl, true, arith}
use meshrustic.Routing.HopHealth.{
  HopHealth, became_suspect, became_healthy, new, is_occupied, is_entry, find, expired, find_live,
  is_suspect, oldest, victim, record_miss, record_success,
}
use meshrustic.Routing.HopHealth.Misses.{IsValid}
use meshrustic.Routing.HopHealth.Record.{record_miss_lem}
use meshrustic.Routing.HopHealth.Suspect.{is_suspect-record_miss}

program : Unit {0}
unfolding is_occupied is_entry find expired find_live is_suspect oldest victim record_miss
    record_success
program = tt

abbrev one_miss : HopHealth
one_miss = (record_miss new 7 9 1000).1

-- The source's test `two_misses_make_suspect_one_does_not`.
second_miss : (record_miss one_miss 7 9 2000).0 ≡ became_suspect 9 7 2
unfolding program
second_miss = refl

-- A suspect that is out of date is still announced as healthy again.
late_success : (record_success (record_miss one_miss 7 9 2000).1 7 9).0 ≡ became_healthy 9 7
unfolding program
late_success = refl

new-IsValid : IsValid new
unfolding is_entry is_occupied
new-IsValid = record { size = refl; unique = ground arith }

one_miss-IsValid : IsValid one_miss
one_miss-IsValid = (record_miss_lem new 7 9 1000 new-IsValid (omega arith) (omega arith)).2

is_suspect-record_miss_example :
    (is_suspect (record_miss (record_miss new 7 9 4294967290).1 7 9 5).1 7 9 10).0 ≡ true
is_suspect-record_miss_example =
    is_suspect-record_miss new 7 9 4294967290 5 10 new-IsValid (omega arith) (omega arith)
      (omega arith) (omega arith)
