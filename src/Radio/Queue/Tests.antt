-- ===== src/Radio/Queue/Tests.antt =====
-- Runs of the frame rings at concrete inputs.
use meshrustic.Base.{ℕ, ◌≡◌, refl, Bool, List, [], ◌∷◌, arith, ◌==◌}
use meshrustic.Radio.Queue.{Queue, push, push_front, front, pop, compact, remove_where, err, empty}
use meshrustic.Radio.Queue.Inv.{IsValid}
use meshrustic.Radio.Queue.Window.{contents}
use meshrustic.Radio.Queue.Deque.{Call, put, put_front, peek, get, purge, serve_all, step_all}
use meshrustic.Radio.Queue.Refine.{step_all-serve_all}

program : Unit {0}
unfolding push push_front front pop compact remove_where
program = tt

-- The ring of the source's tests once two frames have left and a fifth has entered.
abbrev wrapped : Queue ℕ
wrapped = record { buf = 5 ∷ 2 ∷ 3 ∷ 4 ∷ []; head = 2; tail = 1; len = 3 }

abbrev is_three : ℕ → Bool
is_three x = x == 3

abbrev calls : List (Call ℕ)
calls = purge is_three ∷ put_front 9 ∷ put 7 ∷ put 8 ∷ get ∷ peek ∷ []

wrapped-IsValid : IsValid 4 wrapped
wrapped-IsValid = record {
  size = refl;
  head_in = omega arith;
  len_in = omega arith;
  tail_at = refl;
}

-- The source's test `remove_where_drops_only_the_rejected_frames`.
drops_only_the_rejected : contents 0 4 (remove_where 0 4 is_three wrapped).1 ≡ 4 ∷ 5 ∷ []
unfolding program
drops_only_the_rejected = refl

pop_of_empty : (pop 0 4 (record wrapped { len = 0 })).0 ≡ err empty
unfolding program
pop_of_empty = refl

step_all-serve_all_example : step_all 0 4 wrapped calls ≡ serve_all 4 (3 ∷ 4 ∷ 5 ∷ []) calls
step_all-serve_all_example = step_all-serve_all 0 4 calls wrapped wrapped-IsValid
