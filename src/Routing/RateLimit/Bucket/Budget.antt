-- ===== src/Routing/RateLimit/Bucket/Budget.antt =====
-- What a bucket lets through: less than its limit in one window, nothing while it is limited.
use native.Mathlib.Nat.{div-eq_of_lt}
use meshrustic.Base.{
  ℕ, ◌+◌, ◌-◌, ◌^◌, ◌≤◌, ◌<◌, ◌≡◌, refl, ◌≢◌, Bool, true, false, Option, none, some, List, [], ◌∷◌,
  arith, leb, if◌then◌else◌, Bool-cases, inl, inr, ◌⊎◌, wrapping_add, wrapping_sub, saturating_add,
}
use meshrustic.Routing.RateLimit.Types.{BucketState, RateLimitKind, RateLimitEvent}
use meshrustic.Routing.RateLimit.Bucket.{
  windows, limited_at, roll, charge_bucket, check_and_update_bucket,
}

none_one_more : (n : ℕ) → (n ≡ 0) ⊎ ((n ≡ 1) ⊎ (2 ≤ n))
none_one_more n = ground arith

module _ (limit clear window node_id : ℕ) (kind : RateLimitKind) where
  abbrev check : BucketState → ℕ → ℕ → Bool × Option RateLimitEvent × BucketState
  check b charge now = check_and_update_bucket b limit clear charge now window node_id kind

  -- In the bucket's window a limit holds.
  check-held :
      (b : BucketState) (charge now : ℕ)
      → b.limited ≡ true
      → windows b now window ≡ 0
      → check b charge now
        ≡ (true, none, record b { clear_threshold = clear; count = saturating_add b.count charge })
  unfolding check_and_update_bucket charge_bucket roll
  check-held b charge now lim same = ground arith

  -- In the bucket's window a charge is added; the bucket trips as its limit is reached.
  check-counted :
      (b : BucketState) (charge now : ℕ)
      → b.limited ≡ false
      → windows b now window ≡ 0
      → let total = saturating_add b.count charge in
        check b charge now ≡ (
          if leb limit total
          then (
            true,
            some (RateLimitEvent.trip node_id kind),
            record {
              window_start_ms = now;
              count = total;
              limited = true;
              clear_threshold = clear;
            },
          )
          else (false, none, record b { clear_threshold = clear; count = total }))
  unfolding check_and_update_bucket charge_bucket roll
  check-counted b charge now lim same = ground arith

  -- The packets of a sequence that the bucket lets through, as the sum of their charges. An arrival
  -- is its time after `start` and its charge.
  abbrev pub admitted : ℕ → BucketState → List (ℕ × ℕ) → ℕ
  admitted start b [] = 0
  admitted start b ((at, charge) ∷ arrivals) =
      let (dropped, _, b') = check b charge (wrapping_add start at) in
      (if dropped then 0 else charge) + admitted start b' arrivals

  -- The arrivals come in order, none before `from`, all within the window.
  abbrev pub InWindow : ℕ → List (ℕ × ℕ) → Type 0
  InWindow from [] = Unit {0}
  InWindow from ((at, charge) ∷ arrivals) = (from ≤ at) × (at < window) × InWindow at arrivals

  same_window :
      (b : BucketState) (start from at : ℕ)
      → b.window_start_ms ≡ wrapping_add start from
      → from ≤ at
      → at < window
      → window < 2 ^ 32
      → windows b (wrapping_add start at) window ≡ 0
  same_window b start from at e le lt small =
      let elapsed : wrapping_sub (wrapping_add start at) b.window_start_ms ≡ at - from =
        omega arith in
      div-eq_of_lt (omega (arith, elapsed))

  admitted_none :
      (arrivals : List (ℕ × ℕ)) (b : BucketState) (start from last : ℕ)
      → window < 2 ^ 32
      → b.limited ≡ true
      → b.window_start_ms ≡ wrapping_add start from
      → from ≤ last
      → InWindow last arrivals
      → admitted start b arrivals ≡ 0
  admitted_none [] b start from last small lim e le ins = refl
  admitted_none ((at, charge) ∷ arrivals) b start from last small lim e le ins =
      let held =
        check-held b charge (wrapping_add start at) lim
          (same_window b start from at e (omega arith) (omega arith) small) in
      let b' : BucketState = record b {
        clear_threshold = clear;
        count = saturating_add b.count charge;
      } in
      rw held
        (omega (arith, admitted_none arrivals b' start from at small lim e (omega arith) ins.2))

  -- A bucket that is not limited, with less counted than its limit, lets less than the rest of its
  -- limit through in the window in which it stands, for packets of any charge that arrive in order.
  -- The window, its start and the limit are words of 32 bits.
  pub admitted_lt :
      (arrivals : List (ℕ × ℕ)) (b : BucketState) (last : ℕ)
      → window < 2 ^ 32
      → b.window_start_ms < 2 ^ 32
      → limit < 2 ^ 32
      → b.limited ≡ false
      → b.count < limit
      → InWindow last arrivals
      → b.count + admitted b.window_start_ms b arrivals < limit
  admitted_lt [] b last small word fits lim room ins = omega arith
  admitted_lt ((at, charge) ∷ arrivals) b last small word fits lim room ins =
      let start = b.window_start_ms in
      let total = saturating_add b.count charge in
      let counted =
        check-counted b charge (wrapping_add start at) lim
          (same_window b start 0 at (omega arith) (omega arith) (omega arith) small) in
      elim (Bool-cases (leb limit total)) [
        | inl full ↦
            let tripped : BucketState = record {
              window_start_ms = wrapping_add start at;
              count = total;
              limited = true;
              clear_threshold = clear;
            } in
            rw (counted, full)
              (omega (
                arith,
                admitted_none arrivals tripped start at at small refl refl (omega arith) ins.2,
              ))
        | inr open_yet ↦
            let b' : BucketState = record b { clear_threshold = clear; count = total } in
            let below : total < limit = ground arith in
            rw (counted, open_yet)
              (omega (arith, admitted_lt arrivals b' at small word fits lim below ins.2))
      ]

  -- A limited bucket, a `clear` other than 0, and one more packet, of a charge below the limit and a
  -- word of 32 bits. The packet is dropped, and the
  -- limit stays, if it comes in the window of the last change, or in the next one and that window saw
  -- `clear` or more. It passes, and the limit is lifted with an event, if it comes later, or in the
  -- next window after a window that saw less.
  pub check_limited :
      (b : BucketState) (charge now : ℕ)
      → b.limited ≡ true
      → clear ≢ 0
      → charge < limit
      → charge < 2 ^ 32
      → let (dropped, event, b') = check b charge now in
        let passed = windows b now window in
        (((passed ≡ 0) ⊎ ((passed ≡ 1) × (clear ≤ b.count)))
          × ((dropped ≡ true) × (event ≡ none) × (b'.limited ≡ true)))
        ⊎ (((2 ≤ passed) ⊎ ((passed ≡ 1) × (b.count < clear)))
            × ((dropped ≡ false)
                × (event ≡ some (RateLimitEvent.clear node_id kind))
                × (b'.limited ≡ false)
                × (b'.count ≡ charge)))
  unfolding check_and_update_bucket charge_bucket roll limited_at
  check_limited b charge now lim nz below word = elim (none_one_more (windows b now window)) [
    | inl same ↦ inl (inl same, ground arith)
    | inr (inr later) ↦ inr (inl later, ground arith)
    | inr (inl next) ↦ elim (Bool-cases (leb clear b.count)) [
      | inl busy ↦ inl (inr (next, ground arith), ground arith)
      | inr quiet ↦ inr (inr (next, ground arith), ground arith)
    ]
  ]
