-- ===== src/Radio/Queue/Deque.antt =====
-- What a frame ring promises: a double-ended queue of at most `n` frames, as a plain list, with the
-- calls of its clients and what they see of each.
use meshrustic.Base.{
  ℕ, ◌-◌, Bool, Option, none, some, List, [], ◌∷◌, ◌++◌, length, ◌==◌, if◌then◌else◌,
}
use meshrustic.Radio.Queue.{
  Queue, Result, ok, err, full, empty, push, push_front, front, pop, remove_where,
}
use meshrustic.Radio.Queue.Compact.{keep}

pub data Call {ℓ} (A : Type ℓ) : Type ℓ where
  put : A → Call A
  put_front : A → Call A
  peek : Call A
  get : Call A
  purge : (A → Bool) → Call A

pub data Reply {ℓ} (A : Type ℓ) : Type ℓ where
  pushed : Result (Unit {0}) → Reply A
  fronted : Option A → Reply A
  popped : Result A → Reply A
  removed : ℕ → Reply A

module _ {ℓ} {A : Type ℓ} (n : ℕ) where
  -- The promise: one call on the list of the frames held, first to leave first.
  abbrev pub serve : List A → Call A → Reply A × List A
  serve xs (put x) =
      if length xs == n then (pushed (err full), xs) else (pushed (ok tt), xs ++ (x ∷ []))
  serve xs (put_front x) =
      if length xs == n then (pushed (err full), xs) else (pushed (ok tt), x ∷ xs)
  serve [] peek = (fronted none, [])
  serve (x ∷ xs) peek = (fronted (some x), x ∷ xs)
  serve [] get = (popped (err empty), [])
  serve (x ∷ xs) get = (popped (ok x), xs)
  serve xs (purge drop) = (removed (length xs - length (keep drop xs)), keep drop xs)

  abbrev pub serve_all : List A → List (Call A) → List (Reply A)
  serve_all xs [] = []
  serve_all xs (c ∷ calls) = let (r, ys) = serve xs c in r ∷ serve_all ys calls

-- The same calls on the ring.
module _ {ℓ} {A : Type ℓ} (blank : A) (n : ℕ) where
  abbrev pub step : Queue A → Call A → Reply A × Queue A
  step q (put x) = let (r, q') = push n q x in (pushed r, q')
  step q (put_front x) = let (r, q') = push_front n q x in (pushed r, q')
  step q peek = (fronted (front blank n q), q)
  step q get = let (r, q') = pop blank n q in (popped r, q')
  step q (purge drop) = let (k, q') = remove_where blank n drop q in (removed k, q')

  abbrev pub step_all : Queue A → List (Call A) → List (Reply A)
  step_all q [] = []
  step_all q (c ∷ calls) = let (r, q') = step q c in r ∷ step_all q' calls
