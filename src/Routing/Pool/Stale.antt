-- ===== src/Routing/Pool/Stale.antt =====
-- A handle that was released never reaches its slot again, until the generation has gone round.
use meshrustic.Base.{
  ℕ, zero, suc, ◌+◌, ◌%◌, ◌^◌, ◌≤◌, ◌<◌, ◌≡◌, ◌≢◌, ◌∙◌, Bool, true, false, not, none, List, [], ◌∷◌,
  arith, length, get_or, set, get_or-set_self, get_or-set_ne, position, position_sound, is_some,
  Option-cases, inl, inr, ap, get_or-set_default,
}
use native.Mathlib.Decide.{ℕ_discrete}
use meshrustic.Routing.Pool.{
  PacketPool, PacketHandle, PacketSlot, pool_size, next_generation, take_slot, alloc, owns, get,
  get_mut, release,
}
use meshrustic.Routing.Pool.Inv.{IsValid, alloc-IsValid, release-IsValid, get_mut-IsValid}

-- The slot's generation is `age` steps past the handle's, and the slot is free if there is none.
record IsStale (h : PacketHandle) (left : ℕ) (p : PacketPool) : Type 0 where
  pub age : ℕ
  pub word : h.generation < 2 ^ 32
  pub passed : get_or p.generations h.index 0 ≡ (h.generation + age) % 2 ^ 32
  pub room : age + left < 2 ^ 32
  pub freed : age ≡ 0 → get_or p.used h.index false ≡ false

release-dead : (p : PacketPool) (h : PacketHandle) → get p h ≡ none → release p h ≡ p
unfolding release
release-dead p h e = ground arith

get_mut-dead :
    (p : PacketPool) (h : PacketHandle) (f : PacketSlot → PacketSlot)
    → get p h ≡ none
    → get_mut p h f ≡ p
unfolding get_mut get
get_mut-dead p h f e = ground arith

-- The calls that change a pool.
pub data Call : Type 0 where
  allocating : Call
  releasing : PacketHandle → Call
  writing : PacketHandle → (PacketSlot → PacketSlot) → Call

abbrev pub after : PacketPool → Call → PacketPool
after p allocating = (alloc p).1
after p (releasing h) = release p h
after p (writing h f) = get_mut p h f

abbrev pub run : PacketPool → List Call → PacketPool
run p [] = p
run p (c ∷ calls) = run (after p c) calls

IsStale-get : (p : PacketPool) (h : PacketHandle) (left : ℕ) → IsStale h left p → get p h ≡ none
unfolding get owns
IsStale-get p h left s = elim (ℕ_discrete s.age 0) [
  | yes none_past ↦ ground (arith, s.freed none_past)
  | no past ↦
      let other : get_or p.generations h.index 0 ≢ h.generation = omega (arith, s.passed) in
      ground arith
]

-- A call that leaves the generations, and takes no slot, leaves a stale handle stale.
IsStale-same :
    (p q : PacketPool) (h : PacketHandle) (left : ℕ)
    → q.generations ≡ p.generations
    → (get_or p.used h.index false ≡ false → get_or q.used h.index false ≡ false)
    → IsStale h left p
    → IsStale h left q
IsStale-same p q h left gens keeps s = record {
  age = s.age;
  word = s.word;
  passed = ap (λ gs. get_or gs h.index 0) gens ∙ s.passed;
  room = s.room;
  freed = λ e. keeps (s.freed e);
}

give-keeps :
    (us : List Bool) (i j : ℕ) → get_or us j false ≡ false → get_or (set us i false) j false ≡ false
give-keeps us i j e = elim (ℕ_discrete i j) [
  | yes same ↦ rw (← same) (get_or-set_default us i false)
  | no other ↦ get_or-set_ne us i j false false other ∙ e
]

IsStale-release :
    (p : PacketPool) (h k : PacketHandle) (left : ℕ)
    → IsStale h left p
    → IsStale h left (release p k)
unfolding release
IsStale-release p h k left s =
    IsStale-same p (release p k) h left (ground arith)
      (λ e. ground (arith, give-keeps p.used k.index h.index e)) s

IsStale-get_mut :
    (p : PacketPool) (h k : PacketHandle) (f : PacketSlot → PacketSlot) (left : ℕ)
    → IsStale h left p
    → IsStale h left (get_mut p k f)
unfolding get_mut
IsStale-get_mut p h k f left s =
    IsStale-same p (get_mut p k f) h left (ground arith) (λ e. ground arith) s

IsStale-take_slot :
    (p : PacketPool) (h : PacketHandle) (i left : ℕ)
    → IsValid p
    → i < pool_size
    → IsStale h (suc left) p
    → IsStale h left (take_slot p i)
unfolding take_slot
IsStale-take_slot p h i left v lt s = elim (ℕ_discrete i h.index) [
  | yes same ↦ record {
    age = s.age + 1;
    word = s.word;
    passed = rw (← same) (
        get_or-set_self p.generations i (next_generation p i) 0 (omega arith)
        ∙ ap (λ g. (g + 1) % 2 ^ 32) (ap (λ j. get_or p.generations j 0) same ∙ s.passed)
        ∙ omega arith);
    room = omega arith;
    freed = λ e. absurd (omega arith);
  }
  | no other ↦ record {
    age = s.age;
    word = s.word;
    passed = get_or-set_ne p.generations i h.index (next_generation p i) 0 other ∙ s.passed;
    room = omega arith;
    freed = λ e. get_or-set_ne p.used i h.index true false other ∙ s.freed e;
  }
]

IsStale-less :
    (p : PacketPool) (h : PacketHandle) (left : ℕ) → IsStale h (suc left) p → IsStale h left p
IsStale-less p h left s = record {
  age = s.age;
  word = s.word;
  passed = s.passed;
  room = omega arith;
  freed = s.freed;
}

IsStale-after :
    (p : PacketPool) (c : Call) (h : PacketHandle) (left : ℕ)
    → IsValid p
    → IsStale h (suc left) p
    → IsStale h left (after p c)
unfolding alloc
IsStale-after p allocating h left v s = elim (Option-cases (position not p.used)) [
  | inl full ↦ rw (full, after, alloc) (IsStale-less p h left s)
  | inr (i, found) ↦
      rw (found, after, alloc)
        (IsStale-take_slot p h i left v (ground (arith, position_sound not p.used false found)) s)
]
IsStale-after p (releasing k) h left v s =
    IsStale-less (release p k) h left (IsStale-release p h k (suc left) s)
IsStale-after p (writing k f) h left v s =
    IsStale-less (get_mut p k f) h left (IsStale-get_mut p h k f (suc left) s)

after-IsValid : (p : PacketPool) (c : Call) → IsValid p → IsValid (after p c)
after-IsValid p allocating v = alloc-IsValid p v
after-IsValid p (releasing k) v = release-IsValid p k v
after-IsValid p (writing k f) v = get_mut-IsValid p k f v

run-get :
    (calls : List Call) (p : PacketPool) (h : PacketHandle) (left : ℕ)
    → IsValid p
    → IsStale h left p
    → length calls ≤ left
    → get (run p calls) h ≡ none
run-get [] p h left v s le = IsStale-get p h left s
run-get (c ∷ calls) p h zero v s le = absurd (omega arith)
run-get (c ∷ calls) p h (suc left) v s le =
    run-get calls (after p c) h left (after-IsValid p c v) (IsStale-after p c h left v s)
      (omega arith)

released-IsStale :
    (p : PacketPool) (h : PacketHandle) (left : ℕ)
    → left < 2 ^ 32
    → h.generation < 2 ^ 32
    → is_some (get p h) ≡ true
    → IsStale h left (release p h)
unfolding release get owns
released-IsStale p h left lt word live = record {
  age = 0;
  word = word;
  passed = ground arith;
  room = omega arith;
  freed = λ e. ground (arith, get_or-set_default p.used h.index false);
}

-- Once a live handle is released it reads nothing, and a second release of it or a write through it
-- does nothing, after any sequence of fewer than 2^32 further calls: however often its slot is taken
-- again, the old handle never reaches the new owner's data.
pub run-release :
    (p : PacketPool) (h : PacketHandle) (f : PacketSlot → PacketSlot) (calls : List Call)
    → IsValid p
    → h.generation < 2 ^ 32
    → is_some (get p h) ≡ true
    → length calls < 2 ^ 32
    → let q = run (release p h) calls in (get q h ≡ none) × (release q h ≡ q) × (get_mut q h f ≡ q)
run-release p h f calls v word live few =
    let dead =
      run-get calls (release p h) h (length calls) (release-IsValid p h v)
        (released-IsStale p h (length calls) few word live) (omega arith) in
    (
      dead,
      release-dead (run (release p h) calls) h dead,
      get_mut-dead (run (release p h) calls) h f dead,
    )
