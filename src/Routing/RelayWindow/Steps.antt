-- ===== src/Routing/RelayWindow/Steps.antt =====
-- What each take of a run does.
use meshrustic.Base.{
  ℕ, ◌+◌, ◌*◌, ◌^◌, ◌≤◌, ◌<◌, ◌≡◌, refl, arith, none, some, Bool, true, false, ◌⊎◌, inl, inr,
  if◌then◌else◌, saturating_add, saturating_add8, Bool-cases,
}
use meshrustic.Routing.RelayWindow.{
  WindowLayout, PositionAllocator, place, place_reserved, place_ranked, next, placed_or_spill,
  spill, take_reserved, take_rung, take_late_rung,
}
use meshrustic.Routing.RelayWindow.Frees.{fits, Inv, free, first_rung_bounds, spill-free}
use meshrustic.Routing.RelayWindow.Takes.{Take, reserved, rung, late, take}

place-none : (w : WindowLayout) (k : ℕ) → fits w ≡ false → place w k ≡ (none, w)
unfolding place
place-none w k full = ground arith

place-some :
    (w : WindowLayout) (k : ℕ)
    → fits w ≡ true
    → place w k ≡ (
      some w.cursor_ms,
      record w {
        cursor_ms = saturating_add w.cursor_ms k;
        last_placed_end_ms = some w.cursor_ms;
        placed = saturating_add8 w.placed 1;
      },
    )
unfolding place
place-some w k has = ground arith

spill-window : (a : PositionAllocator) → (spill a).1.window ≡ a.window
unfolding spill
spill-window a = refl

module _ (slot half : ℕ) (room : 16 * slot + 257 * half < 2 ^ 32) where
  -- A take from the window, of a slot or of half a frame.
  placed-free :
      (a : PositionAllocator) (k : ℕ)
      → Inv slot half a
      → a.next_index < 255
      → a.ladder_start_ms ≡ none
      → fits a.window ≡ true
      → (k ≡ slot) ⊎ (k ≡ half)
      → let (at, a') = next (placed_or_spill (place a.window k) a) in
        (free slot half a ≤ at)
        × (at + k ≤ free slot half a')
        × Inv slot half a'
        × (a'.next_index ≡ a.next_index + 1)
        × (a'.ladder_start_ms ≡ none)
  placed-free a k v few fresh has kind =
      let w : WindowLayout = record a.window {
        cursor_ms = saturating_add a.window.cursor_ms k;
        last_placed_end_ms = some a.window.cursor_ms;
        placed = saturating_add8 a.window.placed 1;
      } in
      let a' : PositionAllocator = record a {
        window = w;
        next_index = saturating_add8 a.next_index 1;
      } in
      let index : a.next_index ≡ a.window.placed = rw fresh at v.ladder in
      let low : a.window.cursor_ms < 15 * slot = ground (arith, v.width) in
      let v' : Inv slot half a' = record {
        width = v.width;
        slot_is = v.slot_is;
        half_is = v.half_is;
        half_too = v.half_too;
        placed_le = ground arith;
        counted = omega (arith, v.counted, v.placed_le);
        shape = (low, ground arith);
        ladder = rw fresh (omega (arith, index, v.placed_le));
      } in
      let (behind, _) = first_rung_bounds slot half room a' v' in
      let sum : w.cursor_ms ≡ a.window.cursor_ms + k = ground arith in
      let starts : free slot half a ≤ a.window.cursor_ms = rw (fresh, free, has) (omega arith) in
      let ends : a.window.cursor_ms + k ≤ free slot half a' = elim (Bool-cases (fits w)) [
        | inl more ↦ rw (fresh, free, more) (omega (arith, sum))
        | inr full ↦ rw (fresh, free, full) (omega (arith, sum, behind))
      ] in
      rw (place-some a.window k has) (starts, ends, v', omega (arith, index, v.placed_le), fresh)

  -- What every take does: it comes at the first free moment or later, and what it uses is over at the
  -- next.
  abbrev pub Advances : PositionAllocator → ℕ × ℕ × PositionAllocator → Type 0
  Advances a (at, used, a') =
      (free slot half a ≤ at)
      × (at + used ≤ free slot half a')
      × Inv slot half a'
      × (a'.next_index ≡ a.next_index + 1)

  pub late-Advances :
      (a : PositionAllocator)
      → Inv slot half a
      → a.next_index < 255
      → Advances a (take slot half late a)
  unfolding take_late_rung
  late-Advances a v few = spill-free slot half room a v few

  -- The window is closed, or no ladder has begun.
  abbrev pub Early : PositionAllocator → Type 0
  Early a = (fits a.window ≡ false) ⊎ (a.ladder_start_ms ≡ none)

  window-Advances :
      (a : PositionAllocator) (k used : ℕ)
      → Inv slot half a
      → a.next_index < 255
      → Early a
      → (k ≡ slot) ⊎ (k ≡ half)
      → used ≡ (if fits a.window then k else half)
      → let (at, a') = next (placed_or_spill (place a.window k) a) in
        Advances a (at, used, a') × Early a'
  window-Advances a k used v few early kind use_is = elim (Bool-cases (fits a.window)) [
    | inr full ↦
        let same : used ≡ half = rw full at use_is in
        rw (place-none a.window k full, same)
          (spill-free slot half room a v few, inl (rw (spill-window a) full))
    | inl has ↦
        let same : used ≡ k = rw has at use_is in
        let fresh : a.ladder_start_ms ≡ none = ground (arith, early) in
        let (starts, ends, v', index, still) = placed-free a k v few fresh has kind in
        rw same ((starts, ends, v', index), inr still)
  ]

  either_way : (b : Bool) (n : ℕ) → n ≡ (if b then n else n)
  either_way true n = refl
  either_way false n = refl

  pub Early-Advances :
      (a : PositionAllocator) (t : Take)
      → Inv slot half a
      → a.next_index < 255
      → Early a
      → Advances a (take slot half t a) × ((t ≡ late) ⊎ Early (take slot half t a).2)
  unfolding take_reserved take_rung place_reserved place_ranked
  Early-Advances a late v few early = (late-Advances a v few, inl refl)
  Early-Advances a reserved v few early =
      let used = if fits a.window then slot else half in
      let (step, still) =
        window-Advances a a.window.slot_time_ms used v few early (inl v.slot_is)
          (rw v.slot_is refl) in
      (step, inr still)
  Early-Advances a rung v few early =
      let (step, still) =
        window-Advances a a.window.half_airtime_ms half v few early (inr v.half_is)
          (rw v.half_is (either_way (fits a.window) half)) in
      (step, inr still)
