-- ===== src/Routing/RateLimit/Bucket.antt =====
-- `BucketState`: a budget of packets or airtime in a window of time, which trips when it is used up
-- and clears when a window has been quiet enough.
pub mod Hold
pub mod Budget
use meshrustic.Base.{
  ℕ, ◌+◌, ◌*◌, ◌/◌, Bool, true, false, not, ◌&&◌, ◌||◌, Option, none, some, ◌==◌, leb, ltb,
  if◌then◌else◌, wrapping_add, wrapping_sub, saturating_add,
}
use meshrustic.Routing.RateLimit.Types.{BucketState, RateLimitKind, RateLimitEvent}

-- ORIGINATOR_CLEAR_RATIO is one half.
unfoldable pub originator_clear : ℕ → ℕ
originator_clear limit = let half = limit * 1 / 2 in if ltb half 1 then 1 else half

-- The whole windows that have passed since the bucket's began.
abbrev pub windows : BucketState → ℕ → ℕ → ℕ
windows b now_ms window_ms = wrapping_sub now_ms b.window_start_ms / window_ms

unfoldable pub limited_at : BucketState → ℕ → ℕ → ℕ → Bool
limited_at b now_ms window_ms clear =
    let clear' = if b.clear_threshold == 0 then clear else b.clear_threshold in
    let passed = windows b now_ms window_ms in
    b.limited && (passed == 0 || (passed == 1 && leb clear' b.count))

-- Whether the limit has just been lifted, and the bucket in its new window.
unfoldable pub roll : BucketState → ℕ → ℕ → ℕ → Bool × BucketState
roll b now_ms window_ms clear =
    let passed = windows b now_ms window_ms in
    let cleared = b.limited && not (limited_at b now_ms window_ms clear) in
    if passed == 0 then (false, b) else (
      cleared,
      record b {
        window_start_ms = wrapping_add b.window_start_ms (passed * window_ms);
        count = 0;
        limited = if cleared then false else b.limited;
      },
    )

-- The rolled bucket charged with a packet, and the event of the roll.
unfoldable pub charge_bucket :
    Bool × BucketState → ℕ → ℕ → ℕ → ℕ → RateLimitKind → Bool × Option RateLimitEvent × BucketState
charge_bucket (cleared, b) limit charge now_ms node_id kind =
    let b' : BucketState = record b { count = saturating_add b.count charge } in
    if not b'.limited && leb limit b'.count
    then (
      true,
      some (RateLimitEvent.trip node_id kind),
      record b' { limited = true; window_start_ms = now_ms },
    )
    else (b'.limited, (if cleared then some (RateLimitEvent.clear node_id kind) else none), b')

unfoldable pub check_and_update_bucket :
    BucketState → ℕ → ℕ → ℕ → ℕ → ℕ → ℕ → RateLimitKind → Bool × Option RateLimitEvent × BucketState
check_and_update_bucket b limit clear charge now_ms window_ms node_id kind =
    let b' : BucketState = record b { clear_threshold = clear } in
    charge_bucket (roll b' now_ms window_ms clear) limit charge now_ms node_id kind
