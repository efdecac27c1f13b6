-- ===== src/Routing/HopHealth.antt =====
-- crates/mesh-routing/src/hop_health.rs: how often in a row a next hop failed to carry a packet
-- towards a destination. Two misses within the time to live make the hop suspect.
pub mod Misses
pub mod Record
pub mod Suspect
pub mod Eviction
mod Tests
use meshrustic.Base.{
  ℕ, ◌+◌, Bool, true, false, not, ◌&&◌, ◌||◌, Option, none, some, List, [], ◌∷◌, ◌==◌, leb,
  if◌then◌else◌, get_or, set, replicate, position, wrapping_sub, saturating_add8,
}

abbrev pub suspect_misses : ℕ
suspect_misses = 2

-- `HOP_HEALTH_SUSPECT_TTL_MS`, ten minutes.
abbrev pub suspect_ttl_ms : ℕ
suspect_ttl_ms = 600_000

abbrev pub max_hop_health : ℕ
max_hop_health = 8

pub record HopHealthEntry : Type 0 where
  pub destination : ℕ
  pub next_hop : ℕ
  pub consecutive_misses : ℕ
  pub last_miss_ms : ℕ

abbrev pub empty : HopHealthEntry
empty = record { destination = 0; next_hop = 0; consecutive_misses = 0; last_miss_ms = 0 }

pub is_occupied : HopHealthEntry → Bool
is_occupied e = not (e.destination == 0) && not (e.next_hop == 0)

pub data HopHealthEvent : Type 0 where
  nothing : HopHealthEvent
  became_suspect : ℕ → ℕ → ℕ → HopHealthEvent
  became_healthy : ℕ → ℕ → HopHealthEvent

pub record HopHealth : Type 0 where
  pub entries : List HopHealthEntry

abbrev pub new : HopHealth
new = record { entries = replicate max_hop_health empty }

-- The test of `find`.
pub is_entry : ℕ → ℕ → HopHealthEntry → Bool
is_entry destination next_hop e =
    is_occupied e && (e.destination == destination && e.next_hop == next_hop)

pub find : HopHealth → ℕ → ℕ → Option ℕ
find h destination next_hop = position (is_entry destination next_hop) h.entries

pub expired : ℕ → HopHealthEntry → Bool
expired now_ms e = leb suspect_ttl_ms (wrapping_sub now_ms e.last_miss_ms)

-- An expired entry is cleared on the way.
pub find_live : HopHealth → ℕ → ℕ → ℕ → Option ℕ × HopHealth
find_live h destination next_hop now_ms = elim (find h destination next_hop) [
  | none ↦ (none, h)
  | some i ↦
      if expired now_ms (get_or h.entries i empty)
      then (none, record h { entries = set h.entries i empty })
      else (some i, h)
]

pub is_suspect : HopHealth → ℕ → ℕ → ℕ → Bool × HopHealth
is_suspect h destination next_hop now_ms =
    if destination == 0 || next_hop == 0
    then (false, h)
    else let (live, h') = find_live h destination next_hop now_ms in
      elim live [
        | none ↦ (false, h')
        | some i ↦ (leb suspect_misses (get_or h'.entries i empty).consecutive_misses, h')
      ]

-- The loop that looks for the oldest entry, from index `i` on.
pub oldest : ℕ → List HopHealthEntry → ℕ → ℕ → ℕ → ℕ
oldest now_ms [] i best best_age = best
oldest now_ms (e ∷ es) i best best_age =
    let age = wrapping_sub now_ms e.last_miss_ms in
    let better = leb best_age age in
    oldest now_ms es (i + 1) (if better then i else best) (if better then age else best_age)

-- The entry that a new pair takes: a free one, or the oldest.
pub victim : HopHealth → ℕ → ℕ
victim h now_ms = elim (position (λ e. not (is_occupied e)) h.entries) [
  | some i ↦ i
  | none ↦ oldest now_ms h.entries 0 0 0
]

pub record_miss : HopHealth → ℕ → ℕ → ℕ → HopHealthEvent × HopHealth
record_miss h destination next_hop now_ms =
    if destination == 0 || next_hop == 0
    then (nothing, h)
    else let (live, h') = find_live h destination next_hop now_ms in
      elim live [
        | some i ↦
            let e = get_or h'.entries i empty in
            let misses = saturating_add8 e.consecutive_misses 1 in
            let raised = record e { consecutive_misses = misses; last_miss_ms = now_ms } in
            (
              (if misses == suspect_misses
                  then became_suspect next_hop destination misses
                  else nothing),
              record h' { entries = set h'.entries i raised },
            )
        | none ↦ (
          nothing,
          record h' {
            entries = set h'.entries (victim h' now_ms) (record {
              destination = destination;
              next_hop = next_hop;
              consecutive_misses = 1;
              last_miss_ms = now_ms;
            });
          },
        )
      ]

pub record_success : HopHealth → ℕ → ℕ → HopHealthEvent × HopHealth
record_success h destination next_hop =
    if destination == 0 || next_hop == 0 then (nothing, h) else elim (find h destination next_hop) [
      | none ↦ (nothing, h)
      | some i ↦ (
        (if leb suspect_misses (get_or h.entries i empty).consecutive_misses
            then became_healthy next_hop destination
            else nothing),
        record h { entries = set h.entries i empty },
      )
    ]
