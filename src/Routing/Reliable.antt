-- ===== src/Routing/Reliable.antt =====
-- crates/mesh-routing/src/reliable.rs: the packets that wait for an acknowledgement and are sent
-- again, with the steps of crates/mesh-routing/src/router.rs that report to them what became of a
-- frame. The closure `retx_delay_for` is a function.
pub mod Waiting
pub mod Due
pub mod Tries
mod Tests
use meshrustic.Base.{
  ℕ, ◌+◌, ◌-◌, ◌^◌, Bool, true, false, not, ◌&&◌, ◌||◌, Option, none, some, List, [], ◌∷◌, ◌==◌,
  leb, if◌then◌else◌, get_or, set, replicate, find?, any, position, is_some, wrapping_add,
  wrapping_sub, saturating_add8, map,
}

abbrev pub max_pending_reliable : ℕ
max_pending_reliable = 4

pub record NamedFollowup : Type 0 where
  pub nominated_hop : ℕ
  pub nominated_byte : ℕ
  pub upstream : ℕ
  pub delay_ms : ℕ
  pub redirect_on_last : Bool

pub record PendingReliable : Type 0 where
  pub active : Bool
  pub from : ℕ
  pub packet_id : ℕ
  pub to : ℕ
  pub relayed : Bool
  pub named : Option NamedFollowup
  pub num_retx : ℕ
  pub awaiting_tx : Bool
  pub has_transmitted : Bool
  pub retx_delay_ms : ℕ
  pub next_tx_ms : ℕ
  pub len : ℕ
  pub bytes : List ℕ

abbrev pub inactive : PendingReliable
inactive = record {
  active = false;
  from = 0;
  packet_id = 0;
  to = 0;
  relayed = false;
  named = none;
  num_retx = 0;
  awaiting_tx = false;
  has_transmitted = false;
  retx_delay_ms = 0;
  next_tx_ms = 0;
  len = 0;
  bytes = [];
}

-- The test that the searches share: an active slot of the packet.
abbrev pub waits_for : ℕ → ℕ → PendingReliable → Bool
waits_for from packet_id s = s.active && (s.from == from && s.packet_id == packet_id)

unfoldable pub schedule_reliable :
    List PendingReliable
    → ℕ
    → ℕ
    → ℕ
    → Bool
    → ℕ
    → List ℕ
    → ℕ
    → ℕ
    → ℕ
    → Option NamedFollowup
    → Bool × List PendingReliable
schedule_reliable slots from packet_id to relayed len bytes retx_delay_ms now_ms num_retx named =
    if any (waits_for from packet_id) slots
    then (true, slots)
    else elim (position (λ s. not s.active) slots) [
      | none ↦ (false, slots)
      | some i ↦ (
        true,
        set slots i (record {
          active = true;
          from = from;
          packet_id = packet_id;
          to = to;
          relayed = relayed;
          named = named;
          num_retx = num_retx;
          awaiting_tx = true;
          has_transmitted = false;
          retx_delay_ms = retx_delay_ms;
          next_tx_ms = 0;
          len = len;
          bytes = bytes;
        }),
      )
    ]

unfoldable pub named_followup : List PendingReliable → ℕ → ℕ → Option NamedFollowup
named_followup slots from packet_id = elim (find? (waits_for from packet_id) slots) [
  | none ↦ none
  | some s ↦ s.named
]

abbrev pub nominated : PendingReliable → ℕ
nominated s = elim s.named [ none ↦ 0 | some n ↦ n.nominated_hop ]

-- The loop of `stop_reliable_for` with what it has stopped so far.
unfoldable pub stop_loop :
    ℕ → ℕ → Option (ℕ × ℕ) → List PendingReliable → Option (ℕ × ℕ) × List PendingReliable
stop_loop from packet_id stopped [] = (stopped, [])
stop_loop from packet_id stopped (s ∷ rest) =
    let hit = waits_for from packet_id s in
    let (last, rest') =
      stop_loop from packet_id (if hit then some (s.to, nominated s) else stopped) rest in
    (last, (if hit then record s { active = false } else s) ∷ rest')

unfoldable pub stop_reliable_for :
    List PendingReliable → ℕ → ℕ → Option (ℕ × ℕ) × List PendingReliable
stop_reliable_for slots from packet_id = stop_loop from packet_id none slots

abbrev pub bump : ℕ → PendingReliable → PendingReliable
bump airtime_ms s =
    if s.active && not s.awaiting_tx
    then record s { next_tx_ms = wrapping_add s.next_tx_ms airtime_ms }
    else s

unfoldable pub bump_reliable_delays : List PendingReliable → ℕ → List PendingReliable
bump_reliable_delays slots airtime_ms = map (bump airtime_ms) slots

pub record DueRetransmit : Type 0 where
  pub from : ℕ
  pub packet_id : ℕ
  pub to : ℕ
  pub relayed : Bool
  pub named : Option NamedFollowup
  pub redirect : Bool
  pub len : ℕ
  pub bytes : List ℕ

-- The slot's time has come: it waits for no frame to leave and its delay has passed.
abbrev pub is_due : ℕ → PendingReliable → Bool
is_due now_ms s =
    s.active && (not s.awaiting_tx && not (leb (2 ^ 31) (wrapping_sub now_ms s.next_tx_ms)))

abbrev pub redirects : PendingReliable → Bool
redirects s = elim s.named [ none ↦ false | some n ↦ n.redirect_on_last ] && s.num_retx - 1 == 0

-- What is sent for a slot that is due with a try left, and the slot after it.
abbrev pub handed_out : PendingReliable → DueRetransmit
handed_out s = record {
  from = s.from;
  packet_id = s.packet_id;
  to = s.to;
  relayed = s.relayed;
  named = s.named;
  redirect = redirects s;
  len = s.len;
  bytes = s.bytes;
}

abbrev pub tried : (ℕ → ℕ → ℕ → ℕ) → PendingReliable → PendingReliable
tried retx_delay_for s = record s {
  num_retx = s.num_retx - 1;
  awaiting_tx = true;
  retx_delay_ms = elim s.named [
    | none ↦ retx_delay_for s.from s.packet_id s.len
    | some n ↦ n.delay_ms
  ];
  next_tx_ms = 0;
  active = not (redirects s);
}

unfoldable pub due_retransmit :
    List PendingReliable → ℕ → (ℕ → ℕ → ℕ → ℕ) → Option DueRetransmit × List PendingReliable
due_retransmit [] now_ms retx_delay_for = (none, [])
due_retransmit (s ∷ rest) now_ms retx_delay_for =
    let later = due_retransmit rest now_ms retx_delay_for in
    if not (is_due now_ms s)
    then (later.0, s ∷ later.1)
    else if s.num_retx == 0
    then (later.0, record s { active = false } ∷ later.1)
    else (some (handed_out s), tried retx_delay_for s ∷ rest)

-- The frame has left the air, or failed to: its slot waits for its delay.
abbrev pub transmitted : ℕ → ℕ → ℕ → PendingReliable → PendingReliable
transmitted from packet_id now_ms s =
    if waits_for from packet_id s && s.awaiting_tx
    then record s {
      has_transmitted = true;
      awaiting_tx = false;
      next_tx_ms = wrapping_add now_ms s.retx_delay_ms;
    }
    else s

unfoldable pub note_tx_failure : List PendingReliable → ℕ → ℕ → ℕ → List PendingReliable
note_tx_failure slots from packet_id now_ms = map (transmitted from packet_id now_ms) slots

-- The queue had no room for the frame. A first try is given up; any other is given back.
abbrev pub rejected : ℕ → ℕ → ℕ → PendingReliable → PendingReliable
rejected from packet_id now_ms s =
    if not (waits_for from packet_id s)
    then s
    else if s.has_transmitted
    then (if s.awaiting_tx
        then record s {
          num_retx = saturating_add8 s.num_retx 1;
          awaiting_tx = false;
          next_tx_ms = now_ms;
        }
        else s)
    else record s { active = false }

unfoldable pub note_tx_queue_rejected : List PendingReliable → ℕ → ℕ → ℕ → List PendingReliable
note_tx_queue_rejected slots from packet_id now_ms = map (rejected from packet_id now_ms) slots
