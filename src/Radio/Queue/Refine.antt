-- ===== src/Radio/Queue/Refine.antt =====
-- A valid ring answers every sequence of calls as the deque of the frames that it holds.
use meshrustic.Base.{
  ℕ, zero, suc, ◌+◌, ◌-◌, ◌%◌, ◌≤◌, ◌<◌, ◌≡◌, refl, sym, ap, ◌∙◌, ◌≢◌, List, [], ◌∷◌, ◌++◌, arith,
  length, get_or, set, get_or-set_self, ◌==◌, false, ==_iff, Bool-cases, inl, inr, mod_in,
}
use native.Mathlib.Nat.{mod-eq_of_lt, add-zero}
use native.Mathlib.Numerals.{add-one}
use mathlib.Core.Path.{ap₂}
use meshrustic.Radio.Queue.{Queue, push, push_front, front, pop, ok}
use meshrustic.Radio.Queue.Inv.{IsValid, push-IsValid, push_front-IsValid, pop-IsValid}
use meshrustic.Radio.Queue.Window.{
  window, contents, length-window, window-set, window-set_last, window_ahead, window_behind,
}
use meshrustic.Radio.Queue.Compact.{keep, remove_where_lem}
use meshrustic.Radio.Queue.Deque.{
  Call, put, put_front, peek, get, purge, pushed, removed, serve, serve_all, step, step_all,
}

module _ {ℓ} {A : Type ℓ} (blank : A) (n : ℕ) (buf : List A) where
  here : (head : ℕ) → head < n → (head + 0) % n ≡ head
  here head h = rw add-zero (mod-eq_of_lt h)

  window_first :
      (head k : ℕ)
      → head < n
      → k ≢ 0
      → window blank n buf head 0 k
        ≡ get_or buf head blank ∷ window blank n buf ((head + 1) % n) 0 (k - 1)
  window_first head zero h nz = absurd (nz refl)
  window_first head (suc k) h nz =
      ap₂ (λ i xs. get_or buf i blank ∷ xs) (here head h)
        (sym (window_ahead blank n buf head 0 k)
          ∙ ap (window blank n buf ((head + 1) % n) 0) (omega arith))

  window-set_first :
      (head k : ℕ) (x : A)
      → length buf ≡ n
      → head < n
      → suc k ≤ n
      → window blank n (set buf head x) head 0 (suc k) ≡ x ∷ window blank n buf head 1 k
  window-set_first head k x size h le =
      ap₂ ◌∷◌
        (ap (λ i. get_or (set buf head x) i blank) (here head h)
          ∙ get_or-set_self buf head x blank (omega arith))
        (ap (λ i. window blank n (set buf i x) head 1 k) (sym (here head h))
          ∙ window-set blank n buf head 0 1 k x h (omega arith) (omega arith) (omega arith))

ne_of_false : (a b : ℕ) → (a == b) ≡ false → a ≢ b
ne_of_false a b e = ground arith

module _ {ℓ} {A : Type ℓ} (blank : A) (n : ℕ) (q : Queue A) (v : IsValid n q) where
  length-contents : length (contents blank n q) ≡ q.len
  length-contents = length-window blank n q.buf q.head 0 q.len

  contents-push :
      (x : A)
      → q.len ≢ n
      → window blank n (set q.buf q.tail x) q.head 0 (q.len + 1) ≡ contents blank n q ++ (x ∷ [])
  contents-push x room =
      rw (v.tail_at, add-one)
        (window-set_last blank n q.buf q.head q.len x v.size v.head_in (omega arith))

  contents-push_front :
      (x : A)
      → q.len ≢ n
      → let head = (q.head + n - 1) % n in
        window blank n (set q.buf head x) head 0 (q.len + 1) ≡ x ∷ contents blank n q
  contents-push_front x room =
      let head = (q.head + n - 1) % n in
      rw add-one (
        window-set_first blank n q.buf head q.len x v.size (mod_in (q.head + n - 1) n (omega arith))
          (omega arith)
        ∙ ap (◌∷◌ x) (window_behind blank n q.buf q.head 0 q.len (omega arith)))

  contents-pop :
      q.len ≢ 0
      → contents blank n q
        ≡ get_or q.buf q.head blank ∷ window blank n q.buf ((q.head + 1) % n) 0 (q.len - 1)
  contents-pop some_left = window_first blank n q.buf q.head q.len v.head_in some_left

  contents-nil : q.len ≡ 0 → contents blank n q ≡ []
  contents-nil e = ap (window blank n q.buf q.head 0) e

  -- One call.
  pub step-serve :
      (c : Call A)
      → let (r, q') = step blank n q c in (r, contents blank n q') ≡ serve n (contents blank n q) c
  unfolding push push_front front pop
  step-serve (put x) = rw length-contents (elim (Bool-cases (q.len == n)) [
    | inl e ↦ rw e
    | inr e ↦ rw e (ap (λ xs. (pushed (ok tt), xs)) (contents-push x (ne_of_false q.len n e)))
  ])
  step-serve (put_front x) = rw length-contents (elim (Bool-cases (q.len == n)) [
    | inl e ↦ rw e
    | inr e ↦ rw e (ap (λ xs. (pushed (ok tt), xs)) (contents-push_front x (ne_of_false q.len n e)))
  ])
  step-serve peek = elim (Bool-cases (q.len == 0)) [
    | inl e ↦ rw (e, contents-nil ((==_iff q.len 0).0 e))
    | inr e ↦ rw (e, contents-pop (ne_of_false q.len 0 e))
  ]
  step-serve get = elim (Bool-cases (q.len == 0)) [
    | inl e ↦ rw (e, contents-nil ((==_iff q.len 0).0 e))
    | inr e ↦ rw (e, contents-pop (ne_of_false q.len 0 e))
  ]
  step-serve (purge drop) =
      let done = remove_where_lem blank n drop q v in
      rw (length-contents, done.1)
        (ap (λ k. (removed k, keep drop (contents blank n q))) (omega (arith, done.2)))

  pub step-IsValid : (c : Call A) → IsValid n (step blank n q c).1
  step-IsValid (put x) = push-IsValid n q v x
  step-IsValid (put_front x) = push_front-IsValid n q v x
  step-IsValid peek = v
  step-IsValid get = pop-IsValid n q v blank
  step-IsValid (purge drop) = (remove_where_lem blank n drop q v).0

module _ {ℓ} {A : Type ℓ} (blank : A) (n : ℕ) where
  -- No sequence of calls tells a valid ring of capacity `n`, wherever its head stands, from the
  -- deque of the frames that it holds: the replies are the same, errors included.
  pub step_all-serve_all :
      (calls : List (Call A)) (q : Queue A)
      → IsValid n q
      → step_all blank n q calls ≡ serve_all n (contents blank n q) calls
  step_all-serve_all [] q v = refl
  step_all-serve_all (c ∷ calls) q v = rw (
    step_all-serve_all calls (step blank n q c).1 (step-IsValid blank n q v c),
    ← step-serve blank n q v c,
  )
