-- ===== src/Routing/Graph/Route/Grown.antt =====
-- The table of nodes of `backward_search` (crates/mesh-routing/src/graph/route.rs) through a relaxation:
-- the nodes stay at their places, their costs only fall, and those of visited nodes stay.
use meshrustic.Base.{
  ℕ, ◌≤◌, ◌<◌, ◌≡◌, refl, sym, ap, subst, ◌∙◌, true, false, some, List, [], ◌∷◌, ◌==◌, length, set,
  position, position_sound, get_or-set_self, get_or-set_ne, length-set, length-append, inl, inr,
  Bool-cases, arith,
}
use meshrustic.Routing.Graph.Route.Search.{DNode, blank, has_id, lowered}
use meshrustic.Routing.Graph.Route.Table.{
  position-set_same, position-append, position-append_new, get_or-append, get_or-append_end, at,
  Reaches, Relaxed, known, added,
}

-- One node, where relaxations cost from `u` on.
pub record IsLater (u : ℕ) (old new : DNode) : Type 0 where
  pub same_id : new.id ≡ old.id
  pub same_visits : new.visited ≡ old.visited
  pub cheaper : new.cost ≤ old.cost
  pub settled : old.visited ≡ true → new.cost ≡ old.cost
  pub not_below : u ≤ old.cost → u ≤ new.cost

IsLater-refl : (u : ℕ) (n : DNode) → IsLater u n n
IsLater-refl u n = record {
  same_id = refl;
  same_visits = refl;
  cheaper = omega arith;
  settled = λ v. refl;
  not_below = λ le. le;
}

IsLater-lowered : (u : ℕ) (n : DNode) (via c : ℕ) → u ≤ c → IsLater u n (lowered n via c)
unfolding lowered
IsLater-lowered u n via c le = record {
  same_id = ground arith;
  same_visits = ground arith;
  cheaper = ground arith;
  settled = λ v. ground arith;
  not_below = λ below. ground arith;
}

-- A node that came in: unvisited, with a cost from `u` on.
pub record IsNew (u : ℕ) (n : DNode) : Type 0 where
  pub unvisited : n.visited ≡ false
  pub cost_le : u ≤ n.cost

-- The whole table.
pub record IsGrown (u : ℕ) (nodes nodes' : List DNode) : Type 0 where
  pub longer : length nodes ≤ length nodes'
  pub old : (k : ℕ) → k < length nodes → IsLater u (at nodes k) (at nodes' k)
  pub fresh : (k : ℕ) → length nodes ≤ k → k < length nodes' → IsNew u (at nodes' k)
  pub kept_at : (m k : ℕ) → position (has_id m) nodes ≡ some k → position (has_id m) nodes' ≡ some k

at-set :
    (u : ℕ) (nodes : List DNode) (i k : ℕ) (w : DNode)
    → i < length nodes
    → IsLater u (at nodes i) w
    → IsLater u (at nodes k) (at (set nodes i w) k)
at-set u nodes i k w lt later = elim (Bool-cases (i == k)) [
  | inl here ↦
      let same : i ≡ k = ground arith in
      subst (λ j. IsLater u (at nodes j) (at (set nodes i w) j)) same
        (subst (IsLater u (at nodes i)) (sym (get_or-set_self nodes i w blank lt)) later)
  | inr other ↦
      subst (IsLater u (at nodes k)) (sym (get_or-set_ne nodes i k w blank (ground arith)))
        (IsLater-refl u (at nodes k))
]

pub Relaxed-IsGrown :
    {nodes : List DNode} {m via c : ℕ} {nodes' : List DNode} (u : ℕ)
    → u ≤ c
    → Relaxed nodes m via c nodes'
    → IsGrown u nodes nodes'
Relaxed-IsGrown {nodes} {m} {via} {c} u le (known i found) =
    let w = lowered (at nodes i) via c in
    let lt = (position_sound (has_id m) nodes blank found).0 in
    let later = IsLater-lowered u (at nodes i) via c le in
    record {
      longer = omega (arith, length-set nodes i w);
      old = λ k bound. at-set u nodes i k w lt later;
      fresh = λ k above bound. absurd (omega (arith, length-set nodes i w, above, bound));
      kept_at = λ v k there.
          position-set_same (has_id v) nodes i w blank (ap (λ x. x == v) later.same_id) ∙ there;
    }
Relaxed-IsGrown {nodes} {m} {via} {c} u le (added missing) =
    let new : DNode = record { id = m; cost = c; prev = via; visited = false } in
    let more = length-append nodes (new ∷ []) in
    record {
      longer = omega (arith, more);
      old = λ k bound.
          subst (IsLater u (at nodes k)) (sym (get_or-append nodes (new ∷ []) k blank bound))
            (IsLater-refl u (at nodes k));
      fresh = λ k above bound.
          subst (IsNew u)
            (sym (get_or-append_end nodes new k blank (omega (arith, more, above, bound))))
            (record { unvisited = refl; cost_le = le });
      kept_at = λ v k there. position-append (has_id v) nodes (new ∷ []) k there;
    }

-- What is reached stays reached.
pub Reaches-grown :
    {u : ℕ} {nodes nodes' : List DNode} (m cost : ℕ)
    → IsGrown u nodes nodes'
    → Reaches nodes m cost
    → Reaches nodes' m cost
Reaches-grown {u} {nodes} {nodes'} m cost grown reached =
    let lt = (position_sound (has_id m) nodes blank reached.found).0 in
    record {
      index = reached.index;
      found = grown.kept_at m reached.index reached.found;
      cheap = omega (arith, (grown.old reached.index lt).cheaper, reached.cheap);
    }

lowered-cheap : (n : DNode) (via c : ℕ) → n.visited ≡ false → (lowered n via c).cost ≤ c
unfolding lowered
lowered-cheap n via c idle = ground arith

-- A relaxation reaches its node, if no visited node has a higher cost.
pub Relaxed-Reaches :
    {nodes : List DNode} {m via c : ℕ} {nodes' : List DNode}
    → ((k : ℕ) → k < length nodes → (at nodes k).visited ≡ true → (at nodes k).cost ≤ c)
    → Relaxed nodes m via c nodes'
    → Reaches nodes' m c
Relaxed-Reaches {nodes} {m} {via} {c} low (known i found) =
    let w = lowered (at nodes i) via c in
    let lt = (position_sound (has_id m) nodes blank found).0 in
    let later = IsLater-lowered 0 (at nodes i) via c (omega arith) in
    let cheap : w.cost ≤ c = elim (Bool-cases ((at nodes i).visited)) [
      | inl seen ↦ omega (arith, later.settled seen, low i lt seen)
      | inr idle ↦ lowered-cheap (at nodes i) via c idle
    ] in
    record {
      index = i;
      found = position-set_same (has_id m) nodes i w blank (ap (λ x. x == m) later.same_id) ∙ found;
      cheap = subst (λ n. n.cost ≤ c) (sym (get_or-set_self nodes i w blank lt)) cheap;
    }
Relaxed-Reaches {nodes} {m} {via} {c} low (added missing) =
    let new : DNode = record { id = m; cost = c; prev = via; visited = false } in
    record {
      index = length nodes;
      found = position-append_new (has_id m) nodes new missing (ground arith);
      cheap =
          subst (λ n. n.cost ≤ c) (sym (get_or-append_end nodes new (length nodes) blank refl))
            (omega arith);
    }
