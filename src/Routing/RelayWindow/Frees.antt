-- ===== src/Routing/RelayWindow/Frees.antt =====
-- What one take leaves free: the invariant of an allocator, and its first free moment.
use native.Mathlib.Nat.{add-mul, mul-le-mul_right}
use meshrustic.Base.{
  ℕ, ◌+◌, ◌-◌, ◌*◌, ◌^◌, ◌≤◌, ◌<◌, ◌≡◌, ap, arith, Option, none, some, Bool, ◌&&◌, ◌⊎◌, inl, inr,
  ltb, if◌then◌else◌, saturating_add8, Option-cases,
}
use meshrustic.Routing.ChannelAccess.{relay_floor_ms}
use meshrustic.Routing.RelayWindow.{
  WindowLayout, PositionAllocator, window_positions, first_rung_ms, ladder_start, spill, next,
}

-- The window has a position left.
abbrev pub fits : WindowLayout → Bool
fits w = ltb w.placed window_positions && ltb w.cursor_ms w.width_ms

module _ (slot half : ℕ) where
  -- The cursor stands one placement behind the last position.
  abbrev pub Shape : Option ℕ → ℕ → Type 0
  Shape none cursor = cursor ≡ 0
  Shape (some l) cursor = (l < 15 * slot) × ((cursor ≡ l + slot) ⊎ (cursor ≡ l + half))

  -- A ladder begins where the window as it is lets it begin.
  abbrev pub LadderOf : Option ℕ → WindowLayout → ℕ → Type 0
  LadderOf none w next_index = next_index ≡ w.placed
  LadderOf (some start) w next_index = start ≡ first_rung_ms w

  pub record Inv (a : PositionAllocator) : Type 0 where
    pub width : a.window.width_ms ≡ 15 * slot
    pub slot_is : a.window.slot_time_ms ≡ slot
    pub half_is : a.window.half_airtime_ms ≡ half
    pub half_too : a.half_airtime_ms ≡ half
    pub placed_le : a.window.placed ≤ 15
    pub counted : a.window.placed ≤ a.next_index
    pub shape : Shape a.window.last_placed_end_ms a.window.cursor_ms
    pub ladder : LadderOf a.ladder_start_ms a.window a.next_index

  -- The first moment that no take has used.
  abbrev pub free : PositionAllocator → ℕ
  free a = elim a.ladder_start_ms [
    | none ↦ if fits a.window then a.window.cursor_ms else first_rung_ms a.window
    | some start ↦ start + (a.next_index - a.window.placed) * half
  ]

  next_rung : (n p : ℕ) → p ≤ n → (n + 1 - p) * half ≡ (n - p) * half + half
  next_rung n p le =
      let e : n + 1 - p ≡ n - p + 1 = omega arith in
      let split = add-mul (n - p) 1 half in omega (arith, ap (λ k. k * half) e, split)

  few_rungs : (n p : ℕ) → n ≤ 255 → (n - p) * half ≤ 255 * half
  few_rungs n p le = mul-le-mul_right half (omega arith)

  module _ (room : 16 * slot + 257 * half < 2 ^ 32) where
    pub first_rung_bounds :
        (a : PositionAllocator)
        → Inv a
        → (a.window.cursor_ms ≤ first_rung_ms a.window)
          × (first_rung_ms a.window ≤ 16 * slot + half)
    unfolding first_rung_ms relay_floor_ms
    first_rung_bounds a v = elim (Option-cases a.window.last_placed_end_ms) [
      | inl unplaced ↦
          let sh : a.window.cursor_ms ≡ 0 = rw unplaced at v.shape in
          rw (unplaced, first_rung_ms, v.slot_is) (omega (arith, sh))
      | inr (l, last) ↦
          let sh : Shape (some l) a.window.cursor_ms = rw last at v.shape in
          rw (last, first_rung_ms, v.slot_is, v.half_is) (ground (arith, sh))
    ]

    -- The rung that a spill gives, in plain arithmetic.
    spill_at :
        (a : PositionAllocator)
        → Inv a
        → a.next_index ≤ 255
        → (spill a).0 ≡ first_rung_ms a.window + (a.next_index - a.window.placed) * half
    unfolding spill
    spill_at a v few =
        let rungs = few_rungs a.next_index a.window.placed few in
        let (_, top) = first_rung_bounds a v in
        elim (Option-cases a.ladder_start_ms) [
          | inl fresh ↦ rw (fresh, spill, v.half_too) (omega arith)
          | inr (s, started) ↦
              let same : s ≡ first_rung_ms a.window = rw started at v.ladder in
              rw (started, spill, v.half_too, same) (omega arith)
        ]

    free_le :
        (a : PositionAllocator)
        → Inv a
        → free a ≤ first_rung_ms a.window + (a.next_index - a.window.placed) * half
    free_le a v =
        let (low, _) = first_rung_bounds a v in
        elim (Option-cases a.ladder_start_ms) [
          | inl fresh ↦ rw (fresh, free) (ground (arith, low))
          | inr (s, started) ↦
              let same : s ≡ first_rung_ms a.window = rw started at v.ladder in
              rw (started, free, same) (omega arith)
        ]

    ladder_start-first : (a : PositionAllocator) → Inv a → ladder_start a ≡ first_rung_ms a.window
    ladder_start-first a v = elim (Option-cases a.ladder_start_ms) [
      | inl fresh ↦ rw (fresh, ladder_start)
      | inr (s, started) ↦
          let same : s ≡ first_rung_ms a.window = rw started at v.ladder in
          rw (started, ladder_start) same
    ]

    -- A spilled take: a rung at the first free moment or behind it, of which half a frame is used.
    pub spill-free :
        (a : PositionAllocator)
        → Inv a
        → a.next_index < 255
        → let (at, a') = next (spill a) in
          (free a ≤ at) × (at + half ≤ free a') × Inv a' × (a'.next_index ≡ a.next_index + 1)
    unfolding spill
    spill-free a v few =
        let at = spill_at a v (omega arith) in
        let more = next_rung a.next_index a.window.placed v.counted in
        let start = ladder_start-first a v in
        let one : saturating_add8 a.next_index 1 ≡ a.next_index + 1 = omega arith in
        let end : (saturating_add8 a.next_index 1 - a.window.placed) * half
            ≡ (a.next_index + 1 - a.window.placed) * half =
          ap (λ k. (k - a.window.placed) * half) one in
        (
          omega (arith, at, free_le a v),
          omega (arith, at, more, start, end),
          record {
            width = v.width;
            slot_is = v.slot_is;
            half_is = v.half_is;
            half_too = v.half_too;
            placed_le = v.placed_le;
            counted = omega (arith, v.counted);
            shape = v.shape;
            ladder = start;
          },
          one,
        )
