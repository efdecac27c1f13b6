-- ===== src/Routing/RelayWindow.antt =====
-- crates/mesh-routing/src/relay_window.rs: the moments at which the relays of a frame are placed: the
-- positions of a window, and behind it a ladder of rungs.
pub mod Frees
pub mod Takes
pub mod Steps
pub mod Spaced
mod Tests
use meshrustic.Base.{
  ℕ, ◌+◌, ◌-◌, ◌*◌, max, min, Option, none, some, Bool, true, false, leb, if◌then◌else◌,
  saturating_add, saturating_mul, saturating_add8,
}
use meshrustic.Routing.ChannelAccess.{relay_floor_ms}

abbrev pub window_positions : ℕ
window_positions = 15

unfoldable pub window_width_ms : ℕ → ℕ
window_width_ms slot_time_ms = saturating_mul slot_time_ms window_positions

pub record WindowLayout : Type 0 where
  pub width_ms : ℕ
  pub slot_time_ms : ℕ
  pub half_airtime_ms : ℕ
  pub cursor_ms : ℕ
  pub last_placed_end_ms : Option ℕ
  pub placed : ℕ

unfoldable pub new_layout : ℕ → ℕ → WindowLayout
new_layout slot_time_ms half_airtime_ms = record {
  width_ms = window_width_ms slot_time_ms;
  slot_time_ms = slot_time_ms;
  half_airtime_ms = half_airtime_ms;
  cursor_ms = 0;
  last_placed_end_ms = none;
  placed = 0;
}

unfoldable pub place : WindowLayout → ℕ → Option ℕ × WindowLayout
place w width_ms =
    if leb window_positions w.placed
    then (none, w)
    else if leb w.width_ms w.cursor_ms
    then (none, w)
    else (
      some w.cursor_ms,
      record w {
        cursor_ms = saturating_add w.cursor_ms width_ms;
        last_placed_end_ms = some w.cursor_ms;
        placed = saturating_add8 w.placed 1;
      },
    )

unfoldable pub place_reserved : WindowLayout → Option ℕ × WindowLayout
unfolding place
place_reserved w = place w w.slot_time_ms

unfoldable pub place_ranked : WindowLayout → Option ℕ × WindowLayout
unfolding place
place_ranked w = place w w.half_airtime_ms

abbrev pub is_empty : WindowLayout → Bool
is_empty w = elim w.last_placed_end_ms [ none ↦ true | some _ ↦ false ]

unfoldable pub first_rung_ms : WindowLayout → ℕ
first_rung_ms w = elim w.last_placed_end_ms [
  | none ↦ relay_floor_ms w.slot_time_ms
  | some last ↦ max (relay_floor_ms w.slot_time_ms) (saturating_add last w.half_airtime_ms)
]

pub record PositionAllocator : Type 0 where
  pub window : WindowLayout
  pub half_airtime_ms : ℕ
  pub ladder_start_ms : Option ℕ
  pub next_index : ℕ

unfoldable pub new_allocator : ℕ → ℕ → PositionAllocator
new_allocator slot_time_ms half_airtime_ms = record {
  window = new_layout slot_time_ms half_airtime_ms;
  half_airtime_ms = half_airtime_ms;
  ladder_start_ms = none;
  next_index = 0;
}

abbrev pub ladder_start : PositionAllocator → ℕ
ladder_start a = elim a.ladder_start_ms [ none ↦ first_rung_ms a.window | some start ↦ start ]

-- `saturating_sub` is the subtraction of natural numbers.
unfoldable pub spill : PositionAllocator → ℕ × PositionAllocator
spill a =
    let start = ladder_start a in
    (
      saturating_add start (saturating_mul (a.next_index - a.window.placed) a.half_airtime_ms),
      record a { ladder_start_ms = some start },
    )

abbrev pub next : ℕ × PositionAllocator → ℕ × PositionAllocator
next (at, a) = (at, record a { next_index = saturating_add8 a.next_index 1 })

-- A position of the window, if there is one, and a rung otherwise.
abbrev pub placed_or_spill : Option ℕ × WindowLayout → PositionAllocator → ℕ × PositionAllocator
placed_or_spill (none, w) a = spill (record a { window = w })
placed_or_spill (some at, w) a = (at, record a { window = w })

unfoldable pub take_reserved : PositionAllocator → ℕ × PositionAllocator
unfolding place_reserved spill
take_reserved a = next (placed_or_spill (place_reserved a.window) a)

unfoldable pub take_rung : PositionAllocator → ℕ × PositionAllocator
unfolding place_ranked spill
take_rung a = next (placed_or_spill (place_ranked a.window) a)

unfoldable pub take_late_rung : PositionAllocator → ℕ × PositionAllocator
unfolding spill
take_late_rung a = next (spill a)

unfoldable pub first_free_ms : PositionAllocator → ℕ × PositionAllocator
unfolding spill
first_free_ms a = if is_empty a.window then (first_rung_ms a.window, a) else spill a
