-- ===== src/Radio/Queue/Window.antt =====
-- The frames of a ring as a list: those at consecutive offsets from its head.
use meshrustic.Base.{
  ℕ, zero, suc, ◌+◌, ◌-◌, ◌%◌, ◌≤◌, ◌<◌, ◌≡◌, refl, ap, ◌∙◌, ◌⊎◌, List, [], ◌∷◌, ◌++◌, arith,
  length, get_or, set, get_or-set_self, get_or-set_ne, offset-injective, mod_in, mod_ahead,
  mod_behind,
}
use mathlib.Core.Path.{ap₂}
use meshrustic.Radio.Queue.{Queue}

module _ {ℓ} {A : Type ℓ} (blank : A) (n : ℕ) where
  -- The `k` frames from offset `j` behind `head`.
  abbrev pub window : List A → ℕ → ℕ → ℕ → List A
  window buf head j zero = []
  window buf head j (suc k) = get_or buf ((head + j) % n) blank ∷ window buf head (j + 1) k

  abbrev pub contents : Queue A → List A
  contents q = window q.buf q.head 0 q.len

  pub length-window : (buf : List A) (head j k : ℕ) → length (window buf head j k) ≡ k
  length-window buf head j zero = refl
  length-window buf head j (suc k) = ap suc (length-window buf head (j + 1) k)

  -- One frame more at the end.
  pub window_last :
      (buf : List A) (head j k : ℕ)
      → window buf head j (suc k)
        ≡ window buf head j k ++ (get_or buf ((head + (j + k)) % n) blank ∷ [])
  window_last buf head j zero = ap (λ m. get_or buf ((head + m) % n) blank ∷ []) (omega arith)
  window_last buf head j (suc k) = ap (◌∷◌ (get_or buf ((head + j) % n) blank)) (
      window_last buf head (j + 1) k
      ∙ ap (λ m. window buf head (j + 1) k ++ (get_or buf ((head + m) % n) blank ∷ []))
          (omega arith))

  -- A write at an offset outside the window leaves it.
  pub window-set :
      (buf : List A) (head i j k : ℕ) (x : A)
      → head < n
      → i < n
      → j + k ≤ n
      → ((i < j) ⊎ (j + k ≤ i))
      → window (set buf ((head + i) % n) x) head j k ≡ window buf head j k
  window-set buf head i j zero x hh hi hk out = refl
  window-set buf head i j (suc k) x hh hi hk out =
      ap₂ ◌∷◌
        (get_or-set_ne buf ((head + i) % n) ((head + j) % n) x blank
          (λ e. omega (arith, offset-injective head i j n hh hi (omega arith) e)))
        (window-set buf head i (j + 1) k x hh hi (omega arith) (omega arith))

  pub window_head_last :
      (buf : List A) (head k : ℕ)
      → window buf head 0 (suc k) ≡ window buf head 0 k ++ (get_or buf ((head + k) % n) blank ∷ [])
  window_head_last buf head k =
      window_last buf head 0 k
      ∙ ap (λ m. window buf head 0 k ++ (get_or buf ((head + m) % n) blank ∷ [])) (omega arith)

  -- A write just past the window, and the window with it.
  pub window-set_last :
      (buf : List A) (head k : ℕ) (x : A)
      → length buf ≡ n
      → head < n
      → k < n
      → window (set buf ((head + k) % n) x) head 0 (suc k) ≡ window buf head 0 k ++ (x ∷ [])
  window-set_last buf head k x size hh hk =
      window_head_last (set buf ((head + k) % n) x) head k
      ∙ ap₂ (λ xs y. xs ++ (y ∷ [])) (window-set buf head k 0 k x hh hk (omega arith) (omega arith))
          (get_or-set_self buf ((head + k) % n) x blank
            (omega (arith, mod_in (head + k) n (omega arith))))

  -- The window seen from the next index.
  pub window_ahead :
      (buf : List A) (head j k : ℕ) → window buf ((head + 1) % n) j k ≡ window buf head (j + 1) k
  window_ahead buf head j zero = refl
  window_ahead buf head j (suc k) = rw (mod_ahead head j n, window_ahead buf head (j + 1) k)

  -- The window seen from the index before.
  pub window_behind :
      (buf : List A) (head j k : ℕ)
      → 0 < n
      → window buf ((head + n - 1) % n) (j + 1) k ≡ window buf head j k
  window_behind buf head j zero h = refl
  window_behind buf head j (suc k) h =
      rw (mod_behind head j n h, window_behind buf head (j + 1) k h)
