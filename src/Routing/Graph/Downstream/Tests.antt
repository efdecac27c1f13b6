-- ===== src/Routing/Graph/Downstream/Tests.antt =====
-- Runs of the downstream table at concrete inputs.
use meshrustic.Base.{ℕ, ◌≡◌, ◌≢◌, refl, true, false, [], ◌∷◌, some, none, ◌==◌, sweep, swap_remove}
use meshrustic.Base.Float.Percent.{percent}
use meshrustic.Routing.Graph.Downstream.{
  Table, DownstreamEntry, ChainEgress, cheapest, relay_and_cost, get_relay, list_downstream, follow,
  chain_egress, count_for_relay, nodes_for_relay, is_relay_for, oldest_from, upsert_entry,
  clear_for_relay, clear_for_destination, age, transfer_loop, transfer_downstream, update_inner,
  update, update_listed, update_exclusive,
}
use meshrustic.Routing.Graph.Downstream.Entries.{IsTable}
use meshrustic.Routing.Graph.Downstream.Chain.{IsChainTo, chain_egress_lem}
use meshrustic.Routing.Graph.Downstream.Reach.{updated, fresh, next, Reach-IsTable}

program : Unit {0}
unfolding sweep swap_remove cheapest relay_and_cost get_relay list_downstream follow chain_egress
    count_for_relay nodes_for_relay is_relay_for oldest_from upsert_entry clear_for_relay
    clear_for_destination age transfer_loop transfer_downstream update_inner update update_listed
    update_exclusive
program = tt

-- An update at the cost 2 under the whole percentages: 200.
abbrev behind : Table → ℕ → ℕ → ℕ → Table
behind t destination relay now_ms = update percent t 1 destination relay 2 now_ms false 0

abbrev nine_behind_eight : DownstreamEntry
nine_behind_eight = record {
  destination = 9;
  relay = 8;
  via_radio = 0;
  cost_fixed = 200;
  last_update_ms = 1000;
  list_learned = false;
}

abbrev eight_behind_seven : DownstreamEntry
eight_behind_seven = record {
  destination = 8;
  relay = 7;
  via_radio = 0;
  cost_fixed = 200;
  last_update_ms = 2000;
  list_learned = false;
}

abbrev two_steps : Table
two_steps = nine_behind_eight ∷ eight_behind_seven ∷ []

entered : behind (behind [] 9 8 1000) 8 7 2000 ≡ two_steps
unfolding program
entered = refl

abbrev over_seven : ChainEgress
over_seven = record { node = 7; hops = 2; cost_fixed = 400 }

chained : chain_egress two_steps 3000 10_000 (λ n. n == 7) 9 ≡ some over_seven
unfolding program
chained = refl

chain_egress_lem_example :
    (nine_behind_eight.destination ≢ 0) × IsChainTo two_steps 3000 10_000 (λ n. n == 7) 9 over_seven
chain_egress_lem_example =
    (chain_egress_lem two_steps 3000 10_000 (λ n. n == 7) 9 over_seven).0 chained

-- A transfer to a node that is itself behind the old relay makes it its own relay.
own_relay :
    get_relay (transfer_downstream (eight_behind_seven ∷ []) 7 8 5000).1 8 6000 10_000 ≡ some 8
unfolding program
own_relay = refl

-- A cost of 65535 is live for `is_relay_for`, and for no other look-up.
abbrev far : Table
far = record nine_behind_eight { cost_fixed = 65_535 } ∷ []

relays : is_relay_for far 8 9 2000 10_000 ≡ true
unfolding program
relays = refl

unseen : get_relay far 9 2000 10_000 ≡ none
unfolding program
unseen = refl

Reach-IsTable_example : IsTable (behind (behind [] 9 8 1000) 8 7 2000)
Reach-IsTable_example =
    Reach-IsTable percent
      (next (next fresh (updated 1 9 8 2 1000 false 0)) (updated 1 8 7 2 2000 false 0))
