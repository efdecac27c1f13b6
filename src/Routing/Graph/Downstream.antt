-- ===== src/Routing/Graph/Downstream.antt =====
-- crates/mesh-routing/src/graph/downstream.rs: through which relay each destination behind this node
-- is reached, at what cost. The entries are the used places of the array; the closures `is_egress`
-- and `relay_in_graph` are functions.
pub mod Sweep
pub mod Cheapest
pub mod Entries
pub mod Reach
pub mod Lookup
pub mod Transfer
pub mod Chain
mod Tests
use meshrustic.Base.{
  ℕ, zero, suc, ◌+◌, ◌-◌, ◌*◌, ◌^◌, min, Bool, true, false, not, ◌&&◌, ◌||◌, Option, none, some,
  List, [], ◌∷◌, ◌++◌, ◌==◌, leb, ltb, if◌then◌else◌, length, get_or, set, take, any, position,
  count_if, is_some, wrapping_sub, saturating_add16, sweep,
}
use meshrustic.Base.Float.{Float32}

abbrev pub max_downstream : ℕ
max_downstream = 900

abbrev pub max_downstream_chain : ℕ
max_downstream_chain = 16

pub record ChainEgress : Type 0 where
  pub node : ℕ
  pub hops : ℕ
  pub cost_fixed : ℕ

pub record DownstreamEntry : Type 0 where
  pub destination : ℕ
  pub relay : ℕ
  pub via_radio : ℕ
  pub cost_fixed : ℕ
  pub last_update_ms : ℕ
  pub list_learned : Bool

abbrev pub blank : DownstreamEntry
blank = record {
  destination = 0;
  relay = 0;
  via_radio = 0;
  cost_fixed = 0;
  last_update_ms = 0;
  list_learned = false;
}

abbrev pub Table : Type 0
Table = List DownstreamEntry

abbrev pub entry : Table → ℕ → Option DownstreamEntry
entry t index = if ltb index (length t) then some (get_or t index blank) else none

-- The entry has been updated less than `ttl_ms` ago.
abbrev pub is_live : ℕ → ℕ → DownstreamEntry → Bool
is_live now_ms ttl_ms e = ltb (wrapping_sub now_ms e.last_update_ms) ttl_ms

-- The loop that `relay_and_cost` and `list_downstream` share: the cheapest entry that passes.
unfoldable pub cheapest : (DownstreamEntry → Bool) → Table → Option ℕ → ℕ → Option (ℕ × ℕ)
cheapest passes [] best_relay best_cost = elim best_relay [
  | none ↦ none
  | some relay ↦ some (relay, best_cost)
]
cheapest passes (e ∷ rest) best_relay best_cost =
    let better = passes e && ltb e.cost_fixed best_cost in
    cheapest passes rest (if better then some e.relay else best_relay)
      (if better then e.cost_fixed else best_cost)

abbrev pub leads_to : ℕ → ℕ → ℕ → DownstreamEntry → Bool
leads_to destination now_ms ttl_ms e = e.destination == destination && is_live now_ms ttl_ms e

unfoldable pub relay_and_cost : Table → ℕ → ℕ → ℕ → Option (ℕ × ℕ)
relay_and_cost t destination now_ms ttl_ms =
    cheapest (leads_to destination now_ms ttl_ms) t none (2 ^ 16 - 1)

unfoldable pub get_relay : Table → ℕ → ℕ → ℕ → Option ℕ
get_relay t destination now_ms ttl_ms = elim (relay_and_cost t destination now_ms ttl_ms) [
  | none ↦ none
  | some (relay, _) ↦ some relay
]

unfoldable pub list_downstream : Table → ℕ → ℕ → ℕ → Option (ℕ × ℕ)
list_downstream t destination now_ms ttl_ms =
    cheapest (λ e. (e.destination == destination && e.list_learned) && is_live now_ms ttl_ms e) t
      none (2 ^ 16 - 1)

module _ (t : Table) (now_ms ttl_ms : ℕ) (is_egress : ℕ → Bool) where
  -- The loop of `chain_egress` with so many hops left; `seen` holds the relays so far, whose number is
  -- the hops made.
  unfoldable pub follow : ℕ → ℕ → List ℕ → ℕ → Option ChainEgress
  follow zero cur seen cost_fixed = none
  follow (suc left) cur seen cost_fixed = elim (relay_and_cost t cur now_ms ttl_ms) [
    | none ↦ none
    | some (relay, hop_cost) ↦
        let cost = saturating_add16 cost_fixed hop_cost in
        let rest = follow left relay (seen ++ (relay ∷ [])) cost in
        if relay == 0 || relay == cur
        then none
        else if any (λ s. s == relay) seen
        then none
        else if is_egress relay
        then some (record { node = relay; hops = length seen + 1; cost_fixed = cost })
        else rest
  ]

  unfoldable pub chain_egress : ℕ → Option ChainEgress
  chain_egress destination =
      if destination == 0 then none else follow max_downstream_chain destination [] 0

unfoldable pub count_for_relay : Table → ℕ → ℕ → ℕ → ℕ
count_for_relay t relay now_ms ttl_ms =
    count_if (λ e. e.relay == relay && is_live now_ms ttl_ms e) t

-- What `nodes_for_relay` writes to an output of so many places.
unfoldable pub nodes_for_relay : Table → ℕ → ℕ → ℕ → ℕ → List ℕ
nodes_for_relay t relay zero now_ms ttl_ms = []
nodes_for_relay [] relay (suc room) now_ms ttl_ms = []
nodes_for_relay (e ∷ rest) relay (suc room) now_ms ttl_ms =
    let here = e.relay == relay && is_live now_ms ttl_ms e in
    let others = nodes_for_relay rest relay (if here then room else suc room) now_ms ttl_ms in
    if here then e.destination ∷ others else others

unfoldable pub is_relay_for : Table → ℕ → ℕ → ℕ → ℕ → Bool
is_relay_for t relay destination now_ms ttl_ms =
    any (λ e. (e.destination == destination && e.relay == relay) && is_live now_ms ttl_ms e) t

-- The loop that looks for the oldest entry, from index `i` on.
unfoldable pub oldest_from : ℕ → Table → ℕ → ℕ → ℕ → ℕ
oldest_from now_ms [] i oldest_idx oldest = oldest_idx
oldest_from now_ms (e ∷ rest) i oldest_idx oldest =
    let age = wrapping_sub now_ms e.last_update_ms in
    oldest_from now_ms rest (i + 1) (if ltb oldest age then i else oldest_idx)
      (if ltb oldest age then age else oldest)

-- The loop begins at index 1 with the first entry, which is older than nothing.
abbrev pub oldest_idx : ℕ → Table → ℕ
oldest_idx now_ms [] = 0
oldest_idx now_ms (e ∷ rest) = oldest_from now_ms rest 1 0 (wrapping_sub now_ms e.last_update_ms)

abbrev pub is_pair : ℕ → ℕ → DownstreamEntry → Bool
is_pair destination relay e = e.destination == destination && e.relay == relay

unfoldable pub upsert_entry : Table → DownstreamEntry → Table
upsert_entry t new = elim (position (is_pair new.destination new.relay) t) [
  | some i ↦
      let old = get_or t i blank in
      set t i (record old {
        cost_fixed = new.cost_fixed;
        last_update_ms = new.last_update_ms;
        via_radio = new.via_radio;
        list_learned = if new.list_learned then true else old.list_learned;
      })
  | none ↦
      if ltb (length t) max_downstream
      then t ++ (new ∷ [])
      else set t (oldest_idx new.last_update_ms t) new
]

-- The loops that remove entries are `sweep`: each of its steps removes one or goes on to the next.
unfoldable pub clear_for_relay : Table → ℕ → Table
clear_for_relay t relay = sweep blank (λ e. e.relay == relay) (length t) 0 t

unfoldable pub clear_for_destination : Table → ℕ → Table
clear_for_destination t destination = sweep blank (λ e. e.destination == destination) (length t) 0 t

-- Whether an entry went, and the table.
unfoldable pub age : Table → ℕ → ℕ → (ℕ → Bool) → Bool × Table
age t now_ms ttl_ms relay_in_graph =
    let t' =
      sweep blank
        (λ e. ltb ttl_ms (wrapping_sub now_ms e.last_update_ms) || not (relay_in_graph e.relay))
        (length t) 0 t in
    (not (length t == length t'), t')

-- The loop of `transfer_downstream` over the first entries, from index `i` on.
unfoldable pub transfer_loop : ℕ → ℕ → ℕ → ℕ → ℕ → Table → ℕ × Table
transfer_loop old_relay new_relay now_ms zero i t = (0, t)
transfer_loop old_relay new_relay now_ms (suc left) i t =
    let e = get_or t i blank in
    let stays = transfer_loop old_relay new_relay now_ms left (i + 1) t in
    let moves =
      transfer_loop old_relay new_relay now_ms left (i + 1)
        (upsert_entry t (record e { relay = new_relay; last_update_ms = now_ms })) in
    if e.relay == old_relay then (moves.0 + 1, moves.1) else stays

unfoldable pub transfer_downstream : Table → ℕ → ℕ → ℕ → ℕ × Table
transfer_downstream t old_relay new_relay now_ms =
    if old_relay == 0 || (new_relay == 0 || old_relay == new_relay)
    then (0, t)
    else let (moved, t') = transfer_loop old_relay new_relay now_ms (length t) 0 t in
      (moved, clear_for_relay t' old_relay)

module _ (fl : Float32) where
  open fl use {F32, lt, mul, min_of, whole, to_u32, is_finite, le}

  -- `(total_cost * 100.0).min(65535.0) as u16`
  abbrev pub cost_of : F32 → ℕ
  cost_of total_cost = min (to_u32 (min_of (mul total_cost (whole 100)) (whole 65_535))) 65_535

  unfoldable pub update_inner : Table → ℕ → ℕ → ℕ → F32 → ℕ → Bool → ℕ → Bool → Table
  update_inner t my_node destination relay total_cost now_ms relay_has_direct_edge via_radio
        list_learned =
      if destination == 0
        || (relay == 0
            || (destination == relay
                || (destination == my_node
                    || (not (is_finite total_cost) || le total_cost (whole 0)))))
      then t
      else if relay_has_direct_edge
      then t
      else upsert_entry t (record {
        destination = destination;
        relay = relay;
        via_radio = via_radio;
        cost_fixed = cost_of total_cost;
        last_update_ms = now_ms;
        list_learned = list_learned;
      })

  unfoldable pub update : Table → ℕ → ℕ → ℕ → F32 → ℕ → Bool → ℕ → Table
  unfolding update_inner
  update t my_node destination relay total_cost now_ms direct via_radio =
      update_inner t my_node destination relay total_cost now_ms direct via_radio false

  unfoldable pub update_listed : Table → ℕ → ℕ → ℕ → F32 → ℕ → Bool → ℕ → Table
  unfolding update_inner
  update_listed t my_node destination relay total_cost now_ms direct via_radio =
      update_inner t my_node destination relay total_cost now_ms direct via_radio true

  unfoldable pub update_exclusive : Table → ℕ → ℕ → ℕ → F32 → ℕ → Bool → ℕ → Table
  unfolding update
  update_exclusive t my_node destination relay total_cost now_ms direct via_radio =
      update (clear_for_destination t destination) my_node destination relay total_cost now_ms
        direct via_radio
