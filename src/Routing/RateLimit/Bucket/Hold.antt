-- ===== src/Routing/RateLimit/Bucket/Hold.antt =====
-- A limit that a check finds in force, and leaves in force.
use meshrustic.Base.{ℕ, ◌≡◌, arith, Bool, true, ◌⊎◌, inl, inr}
use meshrustic.Routing.RateLimit.Types.{BucketState, RateLimitKind}
use meshrustic.Routing.RateLimit.Bucket.{limited_at, check_and_update_bucket, charge_bucket, roll}

-- The threshold that a bucket keeps is none, or that of its checks.
abbrev pub ClearOk : BucketState → ℕ → Type 0
ClearOk b clear = (b.clear_threshold ≡ 0) ⊎ (b.clear_threshold ≡ clear)

-- A check that lifts no limit.
roll-limited_at :
    (b : BucketState) (clear now window : ℕ)
    → limited_at b now window clear ≡ true
    → (roll b now window clear).1.limited ≡ true
unfolding roll limited_at
roll-limited_at b clear now window lim = ground arith

limited_at-ClearOk :
    (b : BucketState) (clear now window : ℕ)
    → ClearOk b clear
    → limited_at b now window clear ≡ true
    → limited_at (record b { clear_threshold = clear }) now window clear ≡ true
unfolding limited_at
limited_at-ClearOk b clear now window (inl e) lim = ground arith
limited_at-ClearOk b clear now window (inr e) lim = ground arith

charge-limited :
    (cleared : Bool) (b : BucketState) (limit charge now id : ℕ) (kind : RateLimitKind)
    → b.limited ≡ true
    → let (dropped, _, b') = charge_bucket (cleared, b) limit charge now id kind in
      (dropped ≡ true) × (b'.limited ≡ true)
unfolding charge_bucket
charge-limited cleared b limit charge now id kind lim = ground arith

-- What is limited before a check is limited by it.
pub check-limited_at :
    (b : BucketState) (limit clear charge now window id : ℕ) (kind : RateLimitKind)
    → ClearOk b clear
    → limited_at b now window clear ≡ true
    → let (dropped, _, b') = check_and_update_bucket b limit clear charge now window id kind in
      (dropped ≡ true) × (b'.limited ≡ true)
unfolding check_and_update_bucket
check-limited_at b limit clear charge now window id kind ok lim =
    let b0 : BucketState = record b { clear_threshold = clear } in
    let (cleared, b1) = roll b0 now window clear in
    charge-limited cleared b1 limit charge now id kind
      (roll-limited_at b0 clear now window (limited_at-ClearOk b clear now window ok lim))
