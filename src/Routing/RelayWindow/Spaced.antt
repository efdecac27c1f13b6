-- ===== src/Routing/RelayWindow/Spaced.antt =====
-- The positions of a whole run of takes do not run into each other.
use meshrustic.Base.{ℕ, ◌+◌, ◌*◌, ◌^◌, ◌≤◌, ◌<◌, refl, arith, inl, inr, List, [], ◌∷◌, length}
use meshrustic.Routing.RelayWindow.{PositionAllocator, window_width_ms, new_layout, new_allocator}
use meshrustic.Routing.RelayWindow.Frees.{Inv, free}
use meshrustic.Routing.RelayWindow.Takes.{
  Take, reserved, rung, late, take, moments, Spaced, AllLate, LateLast,
}
use meshrustic.Routing.RelayWindow.Steps.{Early, late-Advances, Early-Advances}

module _ (slot half : ℕ) (room : 16 * slot + 257 * half < 2 ^ 32) where
  Spaced-earlier : (f g : ℕ) (ms : List (ℕ × ℕ)) → g ≤ f → Spaced f ms → Spaced g ms
  Spaced-earlier f g [] le sp = tt
  Spaced-earlier f g ((at, used) ∷ ms) le sp = (omega (arith, sp.0), sp.1)

  late-Spaced :
      (ts : List Take) (a : PositionAllocator)
      → Inv slot half a
      → a.next_index + length ts ≤ 255
      → AllLate ts
      → Spaced (free slot half a) (moments slot half ts a)
  late-Spaced [] a v few lates = tt
  late-Spaced (reserved ∷ ts) a v few lates = elim lates [ ]
  late-Spaced (rung ∷ ts) a v few lates = elim lates [ ]
  late-Spaced (late ∷ ts) a v few lates =
      let (at, used, a') = take slot half late a in
      let (starts, ends, v', index) = late-Advances slot half room a v (omega arith) in
      (
        starts,
        Spaced-earlier (free slot half a') (at + used) (moments slot half ts a') ends
            (late-Spaced ts a' v' (omega (arith, index)) lates),
      )

  moments-Spaced :
      (ts : List Take) (a : PositionAllocator)
      → Inv slot half a
      → Early slot half room a
      → a.next_index + length ts ≤ 255
      → LateLast ts
      → Spaced (free slot half a) (moments slot half ts a)
  moments-Spaced [] a v early few last = tt
  moments-Spaced (late ∷ ts) a v early few last = late-Spaced (late ∷ ts) a v few last
  moments-Spaced (reserved ∷ ts) a v early few last =
      let (at, used, a') = take slot half reserved a in
      let ((starts, ends, v', index), still) =
        Early-Advances slot half room a reserved v (omega arith) early in
      let early' : Early slot half room a' = elim still [ inl no_late ↦ absurd (cc) | inr e ↦ e ] in
      (
        starts,
        Spaced-earlier (free slot half a') (at + used) (moments slot half ts a') ends
            (moments-Spaced ts a' v' early' (omega (arith, index)) last),
      )
  moments-Spaced (rung ∷ ts) a v early few last =
      let (at, used, a') = take slot half rung a in
      let ((starts, ends, v', index), still) =
        Early-Advances slot half room a rung v (omega arith) early in
      let early' : Early slot half room a' = elim still [ inl no_late ↦ absurd (cc) | inr e ↦ e ] in
      (
        starts,
        Spaced-earlier (free slot half a') (at + used) (moments slot half ts a') ends
            (moments-Spaced ts a' v' early' (omega (arith, index)) last),
      )

  new-Inv : Inv slot half (new_allocator slot half)
  unfolding new_allocator new_layout window_width_ms
  new-Inv = record {
    width = omega arith;
    slot_is = refl;
    half_is = refl;
    half_too = refl;
    placed_le = omega arith;
    counted = omega arith;
    shape = refl;
    ladder = refl;
  }

  -- Up to 255 takes from a new allocator, of which the late rungs come last, are given moments in order,
  -- none before the time that the one before it uses is over: a slot for a reserved position in the
  -- window, half a frame for every other position and for a rung. The ladder's end, 16 slots and 257
  -- half frames on, is a word.
  pub take-Spaced :
      (ts : List Take)
      → length ts ≤ 255
      → LateLast ts
      → Spaced 0 (moments slot half ts (new_allocator slot half))
  unfolding new_allocator
  take-Spaced ts few last =
      let a = new_allocator slot half in
      Spaced-earlier (free slot half a) 0 (moments slot half ts a) (omega arith)
        (moments-Spaced ts a new-Inv (inr refl) (omega arith) last)
