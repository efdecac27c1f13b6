-- ===== src/Radio/Queue/Compact.antt =====
-- `remove_where` compacts the ring in place: the frames that the predicate keeps, in order.
use meshrustic.Base.{
  ℕ, zero, suc, ◌+◌, ◌%◌, ◌≤◌, ◌<◌, ◌≡◌, refl, sym, ap, ◌∙◌, inl, inr, List, [], ◌∷◌, ◌++◌, arith,
  length, get_or, set, length-set, Bool, if◌then◌else◌, ◌==◌, ltb, Bool-cases, ==_iff,
}
use native.Mathlib.Numerals.{add-one}
use mathlib.Core.Path.{ap₂}
use mathlib.Core.List.{append_assoc, append-nil}
use meshrustic.Radio.Queue.{Queue, compact, remove_where}
use meshrustic.Radio.Queue.Inv.{IsValid}
use meshrustic.Radio.Queue.Window.{
  window, contents, length-window, window-set, window_head_last, window-set_last,
}

-- The frames that the predicate does not drop, in order.
abbrev pub keep {ℓ} : {A : Type ℓ} → (A → Bool) → List A → List A
keep drop [] = []
keep drop (x ∷ xs) = let rest = keep drop xs in if drop x then rest else x ∷ rest

module _ {ℓ} {A : Type ℓ} (blank : A) (n : ℕ) (drop : A → Bool) (head : ℕ) where
  -- What the loop has done from a state in which `write` frames are kept and `k` are to be read.
  record Compacted (buf : List A) (k read write removed : ℕ) (out : List A × ℕ × ℕ) : Type ℓ where
    pub kept :
        window blank n out.0 head 0 out.1
        ≡ window blank n buf head 0 write ++ keep drop (window blank n buf head read k)
    pub counted : out.1 + out.2 ≡ write + removed + k
    pub sized : length out.0 ≡ n

  -- The frame at `read`, and the buffer once it is copied to `write`.
  abbrev frame_at : ℕ → List A → A
  frame_at read buf = get_or buf ((head + read) % n) blank

  abbrev moved : ℕ → ℕ → List A → List A
  moved read write buf =
      if write == read then buf else set buf ((head + write) % n) (frame_at read buf)

  length-moved : (read write : ℕ) (buf : List A) → length (moved read write buf) ≡ length buf
  length-moved read write buf =
      ground (arith, length-set buf ((head + write) % n) (frame_at read buf))

  -- The copy extends the kept frames by one, and leaves those that are still to be read.
  moved-kept :
      (k read write : ℕ) (buf : List A)
      → length buf ≡ n
      → head < n
      → read + suc k ≤ n
      → write ≤ read
      → (window blank n (moved read write buf) head 0 (write + 1)
          ≡ window blank n buf head 0 write ++ (frame_at read buf ∷ []))
        × (window blank n (moved read write buf) head (read + 1) k
            ≡ window blank n buf head (read + 1) k)
  moved-kept k read write buf size hh hk le = elim (Bool-cases (write == read)) [
    | inl same ↦
        rw (same, add-one, ← (==_iff write read).0 same)
          (window_head_last blank n buf head write, refl)
    | inr other ↦
        rw (other, add-one)
          (
            window-set_last blank n buf head write (frame_at read buf) size hh (omega arith),
            window-set blank n buf head write (read + 1) k (frame_at read buf) hh (omega arith)
                (omega arith) (omega arith),
          )
  ]

  compact-Compacted :
      (k read write removed : ℕ) (buf : List A)
      → length buf ≡ n
      → head < n
      → read + k ≤ n
      → write ≤ read
      → Compacted buf k read write removed (compact blank n drop head k read write removed buf)
  unfolding compact
  compact-Compacted zero read write removed buf size hh hk le = record {
    kept = sym (append-nil _);
    counted = omega arith;
    sized = size;
  }
  compact-Compacted (suc k) read write removed buf size hh hk le =
      elim (Bool-cases (drop (frame_at read buf))) [
        | inl gone ↦
            let rest =
              compact-Compacted k (read + 1) write (removed + 1) buf size hh (omega arith)
                (omega arith) in
            rw gone (record { kept = rw gone rest.kept; counted = omega arith; sized = rest.sized })
        | inr stays ↦
            let rest =
              compact-Compacted k (read + 1) (write + 1) removed (moved read write buf)
                (length-moved read write buf ∙ size) hh (omega arith) (omega arith) in
            let (kept, unread) = moved-kept k read write buf size hh hk le in
            rw stays (record {
              kept = rw stays (
                  rest.kept
                  ∙ ap₂ (λ xs ys. xs ++ keep drop ys) kept unread
                  ∙ append_assoc (window blank n buf head 0 write) (frame_at read buf ∷ [])
                      (keep drop (window blank n buf head (read + 1) k)));
              counted = omega arith;
              sized = rest.sized;
            })
      ]

module _ {ℓ} {A : Type ℓ} (blank : A) (n : ℕ) (drop : A → Bool) (q : Queue A)
    (v : IsValid n q) where
  -- The loop over the whole ring.
  all_read :
      Compacted blank n drop q.head q.buf q.len 0 0 0
        (compact blank n drop q.head q.len 0 0 0 q.buf)
  all_read =
      compact-Compacted blank n drop q.head q.len 0 0 0 q.buf v.size v.head_in (omega arith)
        (omega arith)

  -- On a valid ring `remove_where` leaves a valid ring that holds the frames the predicate keeps, in
  -- their order; the number it returns and the frames left make up the frames before.
  pub remove_where_lem :
      IsValid n (remove_where blank n drop q).1
      × (contents blank n (remove_where blank n drop q).1 ≡ keep drop (contents blank n q))
      × ((remove_where blank n drop q).0 + length (keep drop (contents blank n q)) ≡ q.len)
  unfolding remove_where
  remove_where_lem =
      let out = compact blank n drop q.head q.len 0 0 0 q.buf in
      let done = all_read in
      let left : out.1 ≡ length (keep drop (contents blank n q)) =
        sym (length-window blank n out.0 q.head 0 out.1) ∙ ap length done.kept in
      elim (Bool-cases (ltb 0 out.2)) [
        | inl some_gone ↦
            rw (some_gone, remove_where)
              (
                record {
                  size = done.sized;
                  head_in = v.head_in;
                  len_in = omega (arith, done.counted);
                  tail_at = refl;
                },
                done.kept,
                omega (arith, done.counted, left),
              )
        | inr none_gone ↦
            let whole : out.1 ≡ q.len = ground (arith, done.counted) in
            rw (none_gone, remove_where)
              (
                record {
                  size = done.sized;
                  head_in = v.head_in;
                  len_in = v.len_in;
                  tail_at = v.tail_at;
                },
                ap (window blank n out.0 q.head 0) (sym whole) ∙ done.kept,
                ground (arith, done.counted, left),
              )
      ]
