-- ===== src/Radio/Queue/Inv.antt =====
-- The representation invariant of the frame rings, which every operation keeps.
use meshrustic.Base.{
  ℕ, ◌+◌, ◌-◌, ◌%◌, ◌≤◌, ◌<◌, ◌≡◌, arith, length, length-set, length-replicate, mod_next, mod_ahead,
  mod_behind,
}
use meshrustic.Radio.Queue.{Queue, new, push, push_front, pop}

pub record IsValid {ℓ} {A : Type ℓ} (n : ℕ) (q : Queue A) : Type 0 where
  pub size : length q.buf ≡ n
  pub head_in : q.head < n
  pub len_in : q.len ≤ n
  pub tail_at : q.tail ≡ (q.head + q.len) % n

-- A new ring is valid.
pub new-IsValid {ℓ} : {A : Type ℓ} (blank : A) (n : ℕ) → 0 < n → IsValid n (new blank n)
new-IsValid blank n h = record {
  size = length-replicate n blank;
  head_in = h;
  len_in = omega arith;
  tail_at = grind arith;
}

module _ {ℓ} {A : Type ℓ} (n : ℕ) (q : Queue A) (v : IsValid n q) where
  pub push-IsValid : (x : A) → IsValid n (push n q x).1
  unfolding push
  push-IsValid x = ground (arith, length-set q.buf q.tail x, mod_next q.head q.len n)

  pub push_front-IsValid : (x : A) → IsValid n (push_front n q x).1
  unfolding push_front
  push_front-IsValid x =
      ground (arith, length-set q.buf ((q.head + n - 1) % n) x, mod_behind q.head q.len n)

  pub pop-IsValid : (blank : A) → IsValid n (pop blank n q).1
  unfolding pop
  pop-IsValid blank = ground (arith, mod_ahead q.head (q.len - 1) n)
