-- ===== src/Routing/RelayWindow/Takes.antt =====
-- Runs of takes, and what it is for their moments to be spaced.
use meshrustic.Base.{ℕ, ◌+◌, ◌≤◌, if◌then◌else◌, List, [], ◌∷◌}
use meshrustic.Routing.RelayWindow.{PositionAllocator, take_reserved, take_rung, take_late_rung}
use meshrustic.Routing.RelayWindow.Frees.{fits}

pub data Take : Type 0 where
  reserved rung late : Take

-- The moment of a take, how much of the time behind it is used, and the allocator after it.
abbrev pub take : ℕ → ℕ → Take → PositionAllocator → ℕ × ℕ × PositionAllocator
take slot half reserved a =
    let (at, a') = take_reserved a in (at, (if fits a.window then slot else half), a')
take slot half rung a = let (at, a') = take_rung a in (at, half, a')
take slot half late a = let (at, a') = take_late_rung a in (at, half, a')

abbrev pub moments : ℕ → ℕ → List Take → PositionAllocator → List (ℕ × ℕ)
moments slot half [] a = []
moments slot half (t ∷ ts) a =
    let (at, used, a') = take slot half t a in (at, used) ∷ moments slot half ts a'

-- Each moment comes when what the one before uses is over.
abbrev pub Spaced : ℕ → List (ℕ × ℕ) → Type 0
Spaced from [] = Unit {0}
Spaced from ((at, used) ∷ ms) = (from ≤ at) × Spaced (at + used) ms

abbrev pub AllLate : List Take → Type 0
AllLate [] = Unit {0}
AllLate (late ∷ ts) = AllLate ts
AllLate (t ∷ ts) = ⊥

-- After a late rung only late rungs are taken.
abbrev pub LateLast : List Take → Type 0
LateLast [] = Unit {0}
LateLast (late ∷ ts) = AllLate ts
LateLast (t ∷ ts) = LateLast ts
