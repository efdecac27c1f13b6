-- ===== src/Routing/Reliable/Due.antt =====
-- Which packet is sent again.
use meshrustic.Base.{
  ℕ, ◌≡◌, refl, arith, Bool, not, ◌&&◌, List, [], ◌∷◌, ◌==◌, find?, Bool-cases, inl, inr,
}
use mathlib.Core.Option
use meshrustic.Routing.Reliable.{PendingReliable, is_due, handed_out, due_retransmit}

abbrev pub ready : ℕ → PendingReliable → Bool
ready now s = is_due now s && not (s.num_retx == 0)

-- What is sent again is the packet of the first slot that is due with a try left, and nothing is sent
-- exactly if there is no such slot.
pub due_retransmit_lem :
    (slots : List PendingReliable) (now : ℕ) (delay_for : ℕ → ℕ → ℕ → ℕ)
    → (due_retransmit slots now delay_for).0 ≡ Option.map handed_out (find? (ready now) slots)
unfolding due_retransmit
due_retransmit_lem [] now delay_for = refl
due_retransmit_lem (s ∷ rest) now delay_for = elim (Bool-cases (is_due now s)) [
  | inr early ↦ ground (arith, due_retransmit_lem rest now delay_for)
  | inl due ↦ elim (Bool-cases (s.num_retx == 0)) [
    | inl used_up ↦ ground (arith, due_retransmit_lem rest now delay_for)
    | inr left ↦ ground arith
  ]
]
