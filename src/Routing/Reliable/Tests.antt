-- ===== src/Routing/Reliable/Tests.antt =====
-- Runs of reliable delivery at concrete packets.
use meshrustic.Base.{ℕ, ◌+◌, ◌≤◌, ◌≡◌, refl, true, false, none, List, [], ◌∷◌, replicate}
use meshrustic.Routing.Reliable.{
  PendingReliable, inactive, max_pending_reliable, schedule_reliable, due_retransmit,
  note_tx_failure,
}
use meshrustic.Routing.Reliable.Tries.{Call, tries, frames, frames_le}

abbrev none_waiting : List PendingReliable
none_waiting = replicate max_pending_reliable inactive

abbrev after_second : ℕ → ℕ → ℕ → ℕ
after_second from packet_id len = 1000

-- Packet 7 of node 5 with two tries, as it left the air at time 100.
abbrev waiting : List PendingReliable
waiting =
    record {
      active = true;
      from = 5;
      packet_id = 7;
      to = 9;
      relayed = false;
      named = none;
      num_retx = 2;
      awaiting_tx = false;
      has_transmitted = true;
      retx_delay_ms = 1000;
      next_tx_ms = 1100;
      len = 0;
      bytes = [];
    }
    ∷ inactive
    ∷ inactive
    ∷ inactive
    ∷ []

scheduled :
    note_tx_failure (schedule_reliable none_waiting 5 7 9 false 0 [] 1000 0 2 none).1 5 7 100
    ≡ waiting
unfolding schedule_reliable note_tx_failure
scheduled = refl

-- Not before its time, then once for each try, and the slot is free when its tries are used up.
two_tries :
    frames after_second waiting (
      Call.due 1099
      ∷ Call.due 1100
      ∷ Call.due 1101
      ∷ Call.left_air 5 7 1200
      ∷ Call.due 2200
      ∷ Call.left_air 5 7 2300
      ∷ Call.due 3300
      ∷ [])
    ≡ (2, 0)
unfolding due_retransmit note_tx_failure
two_tries = refl

frames_le_example :
    let (out, back) =
      frames after_second waiting
        (Call.due 1100 ∷ Call.refused 5 7 1101 ∷ Call.due 1101 ∷ Call.stop 5 7 ∷ []) in
    out ≤ tries waiting + back
frames_le_example =
    frames_le (Call.due 1100 ∷ Call.refused 5 7 1101 ∷ Call.due 1101 ∷ Call.stop 5 7 ∷ [])
      after_second waiting
