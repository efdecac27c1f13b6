-- ===== src/Radio/Queue.antt =====
-- crates/mesh-radio/src/queue.rs: the bounded rings of frames between the router and the radio.
-- `RxQueue` and `TxQueue` have the same fields and the same `push` and `pop`; they are one record
-- over the type of the frames, `RxQueue` being `Queue RxFrame` and `TxQueue` being `Queue TxFrame`.
-- `n` is the const parameter `N`. A write out of range changes nothing and a read out of range
-- gives `blank`; the source panics there, and Inv.antt rules both out.
pub mod Inv
pub mod Window
pub mod Refine
pub mod Compact
pub mod Deque
mod Tests
use meshrustic.Base.{
  ℕ, zero, suc, ◌+◌, ◌-◌, ◌%◌, Bool, Option, none, some, List, [], ◌==◌, ltb, if◌then◌else◌, get_or,
  set, replicate,
}
use meshrustic.Radio.Frame.{RxFrame, TxFrame, empty_rx, max_lora_payload}

pub data QueueError : Type 0 where
  full empty : QueueError

pub data Result {ℓ} (A : Type ℓ) : Type ℓ where
  ok : A → Result A
  err : QueueError → Result A

pub record Queue {ℓ} (A : Type ℓ) : Type ℓ where
  pub buf : List A
  pub head : ℕ
  pub tail : ℕ
  pub len : ℕ

abbrev pub RxQueue : Type 0
RxQueue = Queue RxFrame

abbrev pub TxQueue : Type 0
TxQueue = Queue TxFrame

abbrev pub empty_tx : TxFrame
empty_tx = record { radio_id = 0; len = 0; bytes = replicate max_lora_payload 0 }

abbrev pub new {ℓ} : {A : Type ℓ} → A → ℕ → Queue A
new blank n = record { buf = replicate n blank; head = 0; tail = 0; len = 0 }

module _ {ℓ} {A : Type ℓ} (n : ℕ) where
  pub is_full : Queue A → Bool
  is_full q = q.len == n

  pub push : Queue A → A → Result (Unit {0}) × Queue A
  push q frame = if q.len == n then (err full, q) else (
    ok tt,
    record q { buf = set q.buf q.tail frame; tail = (q.tail + 1) % n; len = q.len + 1 },
  )

  pub push_front : Queue A → A → Result (Unit {0}) × Queue A
  push_front q frame =
      if q.len == n
      then (err full, q)
      else let head = (q.head + n - 1) % n in
        (ok tt, record q { buf = set q.buf head frame; head = head; len = q.len + 1 })

module _ {ℓ} {A : Type ℓ} (blank : A) (n : ℕ) where
  pub front : Queue A → Option A
  front q = if q.len == 0 then none else some (get_or q.buf q.head blank)

  pub pop : Queue A → Result A × Queue A
  pop q =
      if q.len == 0
      then (err empty, q)
      else (ok (get_or q.buf q.head blank), record q { head = (q.head + 1) % n; len = q.len - 1 })

  -- The loop of `remove_where` over `read`, with `k` rounds left: the buffer, `write`, `removed`.
  -- The predicate is a function: the source's callers pass closures that keep no state.
  pub compact : (A → Bool) → ℕ → ℕ → ℕ → ℕ → ℕ → List A → List A × ℕ × ℕ
  compact drop head zero read write removed buf = (buf, write, removed)
  compact drop head (suc k) read write removed buf =
      let frame = get_or buf ((head + read) % n) blank in
      let gone = drop frame in
      compact drop head k (read + 1) (if gone then write else write + 1)
        (if gone then removed + 1 else removed)
        (if gone then buf else if write == read then buf else set buf ((head + write) % n) frame)

  pub remove_where : (A → Bool) → Queue A → ℕ × Queue A
  remove_where drop q =
      let (buf, write, removed) = compact drop q.head q.len 0 0 0 q.buf in
      if ltb 0 removed
      then (removed, record q { buf = buf; tail = (q.head + write) % n; len = write })
      else (removed, record q { buf = buf })
