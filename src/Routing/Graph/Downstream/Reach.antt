-- ===== src/Routing/Graph/Downstream/Reach.antt =====
-- The tables that the operations of crates/mesh-routing/src/graph/downstream.rs lead to.
use meshrustic.Base.{
  ℕ, zero, suc, ◌+◌, ◌≤◌, ◌≡◌, Bool, true, false, not, ◌||◌, [], ◌==◌, length, get_or, inl, inr,
  Bool-cases, sweep, arith,
}
use meshrustic.Base.Float.{Float32}
use meshrustic.Routing.Graph.Downstream.{
  Table, DownstreamEntry, blank, is_pair, upsert_entry, update, update_inner, update_listed,
  update_exclusive, transfer_loop, transfer_downstream, clear_for_relay, clear_for_destination, age,
}
use meshrustic.Routing.Graph.Downstream.Sweep.{count_if-sweep_le, length-sweep, is_lost}
use meshrustic.Routing.Graph.Downstream.Entries.{
  IsTable, is_bad, none_at, upsert_entry-IsTable, length-upsert_entry, empty-IsTable,
}

sweep-IsTable :
    (gone : DownstreamEntry → Bool) (t : Table)
    → IsTable t
    → IsTable (sweep blank gone (length t) 0 t)
sweep-IsTable gone t ok = record {
  small = omega (arith, length-sweep blank gone t, ok.small);
  distinct = λ d r. omega (arith, count_if-sweep_le blank gone (is_pair d r) t, ok.distinct d r);
  sound = omega (arith, count_if-sweep_le blank gone is_bad t, ok.sound);
}

transfer_loop-IsTable :
    (old_relay new_relay now_ms left i : ℕ) (t : Table)
    → (new_relay == 0) ≡ false
    → i + left ≤ length t
    → IsTable t
    → IsTable (transfer_loop old_relay new_relay now_ms left i t).1
unfolding transfer_loop
transfer_loop-IsTable old_relay new_relay now_ms zero i t named le ok = ok
transfer_loop-IsTable old_relay new_relay now_ms (suc left) i t named le ok =
    let e = get_or t i blank in
    let new = record e { relay = new_relay; last_update_ms = now_ms } in
    let e_good = none_at is_bad t i blank ok.sound (omega arith) in
    elim (Bool-cases (e.relay == old_relay)) [
      | inl moves ↦ rw (moves) (
          transfer_loop-IsTable old_relay new_relay now_ms left (i + 1) (upsert_entry t new) named
            (omega (arith, length-upsert_entry t new))
            (upsert_entry-IsTable t new ok (ground arith)))
      | inr stays ↦
          rw (stays)
            (transfer_loop-IsTable old_relay new_relay now_ms left (i + 1) t named (omega arith) ok)
    ]

transfer_downstream-IsTable :
    (t : Table) (old_relay new_relay now_ms : ℕ)
    → IsTable t
    → IsTable (transfer_downstream t old_relay new_relay now_ms).1
unfolding transfer_downstream clear_for_relay
transfer_downstream-IsTable t old_relay new_relay now_ms ok =
    elim (Bool-cases (old_relay == 0 || (new_relay == 0 || old_relay == new_relay))) [
      | inl refused ↦ rw (refused) ok
      | inr goes ↦ rw (goes) (
          sweep-IsTable (λ e. e.relay == old_relay) _
            (transfer_loop-IsTable old_relay new_relay now_ms (length t) 0 t (ground arith)
              (omega arith) ok))
    ]

module _ (fl : Float32) where
  open fl use {F32}

  update_inner-IsTable :
      (t : Table) (my_node destination relay : ℕ) (total_cost : F32) (now_ms : ℕ) (direct : Bool)
      (via_radio : ℕ) (list_learned : Bool)
      → IsTable t
      → IsTable (
          update_inner fl t my_node destination relay total_cost now_ms direct via_radio
            list_learned)
  unfolding update_inner
  update_inner-IsTable t my_node destination relay total_cost now_ms direct via_radio list_learned
        ok =
      elim (Bool-cases (
        destination == 0
        || (relay == 0
            || (destination == relay
                || (destination == my_node
                    || (not (fl.is_finite total_cost) || fl.le total_cost (fl.whole 0))))))) [
                      | inl refused ↦ rw (refused, update_inner) ok
                      | inr good ↦ elim (Bool-cases direct) [
                        | inl near ↦ rw (good, near, update_inner) ok
                        | inr far ↦
                            rw (good, far, update_inner)
                              (upsert_entry-IsTable t _ ok (ground arith))
                      ]
                    ]

  -- One operation on the table.
  pub data Step (t : Table) : Table → Type 0 where
    cleared : Step t []
    updated :
        (my_node destination relay : ℕ) (total_cost : F32) (now_ms : ℕ) (direct : Bool)
        (via_radio : ℕ)
        → Step t (update fl t my_node destination relay total_cost now_ms direct via_radio)
    updated_listed :
        (my_node destination relay : ℕ) (total_cost : F32) (now_ms : ℕ) (direct : Bool)
        (via_radio : ℕ)
        → Step t (update_listed fl t my_node destination relay total_cost now_ms direct via_radio)
    updated_exclusive :
        (my_node destination relay : ℕ) (total_cost : F32) (now_ms : ℕ) (direct : Bool)
        (via_radio : ℕ)
        → Step t
            (update_exclusive fl t my_node destination relay total_cost now_ms direct via_radio)
    transferred :
        (old_relay new_relay now_ms : ℕ)
        → Step t (transfer_downstream t old_relay new_relay now_ms).1
    relay_cleared : (relay : ℕ) → Step t (clear_for_relay t relay)
    destination_cleared : (destination : ℕ) → Step t (clear_for_destination t destination)
    aged :
        (now_ms ttl_ms : ℕ) (relay_in_graph : ℕ → Bool)
        → Step t (age t now_ms ttl_ms relay_in_graph).1

  -- The tables that operations lead to from the empty one.
  pub data Reach : Table → Type 0 where
    fresh : Reach []
    next : {t u : Table} → Reach t → Step t u → Reach u

  Step-IsTable : {t u : Table} → IsTable t → Step t u → IsTable u
  unfolding update update_listed update_exclusive clear_for_relay clear_for_destination age is_lost
  Step-IsTable {t} ok cleared = empty-IsTable
  Step-IsTable {t} ok (updated me d r c now direct via) =
      update_inner-IsTable t me d r c now direct via false ok
  Step-IsTable {t} ok (updated_listed me d r c now direct via) =
      update_inner-IsTable t me d r c now direct via true ok
  Step-IsTable {t} ok (updated_exclusive me d r c now direct via) =
      update_inner-IsTable (clear_for_destination t d) me d r c now direct via false
        (sweep-IsTable (λ e. e.destination == d) t ok)
  Step-IsTable {t} ok (transferred old new now) = transfer_downstream-IsTable t old new now ok
  Step-IsTable {t} ok (relay_cleared r) = sweep-IsTable (λ e. e.relay == r) t ok
  Step-IsTable {t} ok (destination_cleared d) = sweep-IsTable (λ e. e.destination == d) t ok
  Step-IsTable {t} ok (aged now ttl there) = sweep-IsTable (is_lost now ttl there) t ok

  -- Whatever operations came before, the table has at most 900 entries, no two of them for one
  -- destination and one relay, and none that names node 0 or whose cost is no u16.
  pub Reach-IsTable : {t : Table} → Reach t → IsTable t
  Reach-IsTable fresh = empty-IsTable
  Reach-IsTable (next r st) = Step-IsTable (Reach-IsTable r) st
