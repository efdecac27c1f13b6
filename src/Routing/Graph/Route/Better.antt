-- ===== src/Routing/Graph/Route/Better.antt =====
-- The neighbour that `find_better_positioned_neighbor` (crates/mesh-routing/src/graph/route.rs) finds.
use meshrustic.Routing.Graph.Route.Cheaper.{
  cheap, cheap_lem, price, allowed, IsBest, IsFound, better_from-IsFound,
}
use meshrustic.Base.{
  ℕ, ◌≡◌, ◌⊎◌, refl, sym, ap, subst, ◌∙◌, Bool, true, false, not, ◌&&◌, Option, none, some, List,
  [], ◌∷◌, ◌==◌, if◌then◌else◌, any, is_some, some_eq, inl, inr, Bool-cases, arith,
}
use meshrustic.Base.Float.{Float32, IsGapped}
use meshrustic.Routing.Capability.{Cache}
use meshrustic.Routing.Graph.Edge.{Edge, NodeEdges, find_edge, edge_etx}
use meshrustic.Routing.Graph.Edge.Store.{EdgeStore, edges_of, find_node, find_link}
use meshrustic.Routing.Graph.Route.{RoutableFilter, is_node_routable}
use meshrustic.Routing.Graph.Route.Price.{can_deliver}
use meshrustic.Routing.Graph.Route.Compose.{verified_connectivity}
use meshrustic.Routing.Graph.Route.Owner.{
  may_take_over, direct_etx, find_better_positioned_neighbor,
}

any_mono {ℓ} :
    {A : Type ℓ} {p q : A → Bool}
    → ((x : A) → q x ≡ true → p x ≡ true)
    → (xs : List A) → any q xs ≡ true
    → any p xs ≡ true
any_mono le [] h = absurd (cc)
any_mono {q = q} le (x ∷ xs) h = elim (Bool-cases (q x)) [
  | inl here ↦ ground (arith, le x here)
  | inr not_here ↦ ground (arith, any_mono le xs (ground (arith, h, not_here)))
]

module _ (fl : Float32) (s : EdgeStore) (capability : Cache) (my_node device_role destination : ℕ)
    (source_node heard_from : ℕ) where
  abbrev pub filter : RoutableFilter
  filter = record {
    capability = capability;
    my_node = my_node;
    device_role = device_role;
    excluded = [];
  }

  -- A node that stands better: it may carry packets on, what it hears of the one that was heard is
  -- verified, and it lists the destination and can deliver to it.
  pub record IsBetter (n : ℕ) : Type 0 where
    pub named : (n == 0) ≡ false
    pub not_source : (n == source_node) ≡ false
    pub not_heard : (n == heard_from) ≡ false
    pub carries : is_node_routable filter n ≡ true
    pub connected :
        (heard_from ≡ 0) ⊎ (verified_connectivity s capability heard_from n ≡ (true, false))
    pub lists : is_some (find_link s n destination) ≡ true
    pub delivers : can_deliver s (some capability) n destination ≡ true

  -- The link that a price is that of.
  IsPriced : ℕ → fl.F32 → Type 0
  IsPriced n etx =
      (link : Edge) × (find_link s n destination ≡ some link)
      × (edge_etx fl link ≡ etx)
      × (can_deliver s (some capability) n destination ≡ true)

  price-IsPriced :
      (n : ℕ) (etx : fl.F32) (o : Option NodeEdges)
      → find_node s n ≡ o
      → price fl s capability my_node device_role destination source_node heard_from n ≡ some etx
      → IsPriced n etx
  unfolding direct_etx IsPriced
  price-IsPriced n etx none found priced = absurd (cc (rw (direct_etx, found) at priced))
  price-IsPriced n etx (some x) found priced =
      let listed : find_link s n destination ≡ find_edge x destination =
        ap
          (λ (o : Option NodeEdges). elim o as (λ (o : Option NodeEdges). Option Edge) [
            | none ↦ none
            | some y ↦ find_edge y destination
          ])
          found in
      let (link, is_link, its_price, delivers) =
        linked (find_edge x destination) (rw (direct_etx, found) at priced) in
      (link, listed ∙ is_link, its_price, delivers)
    where
      linked :
          (l : Option Edge)
          → (elim l [
            | none ↦ none
            | some e ↦
                if can_deliver s (some capability) n destination then some (edge_etx fl e) else none
          ])
            ≡ some etx
          → (link : Edge) × (l ≡ some link)
            × (edge_etx fl link ≡ etx)
            × (can_deliver s (some capability) n destination ≡ true)
      linked none priced = absurd (cc)
      linked (some e) priced = elim (Bool-cases (can_deliver s (some capability) n destination)) [
        | inl delivers ↦ (e, refl, some_eq (rw delivers at priced), delivers)
        | inr refused ↦ absurd (cc (rw refused at priced))
      ]

  both : (p : Bool × Bool) → p.0 && not p.1 ≡ true → p ≡ (true, false)
  both (true, false) h = refl
  both (true, true) h = absurd (cc)
  both (false, u) h = absurd (cc)

  may-connected :
      (n : ℕ)
      → may_take_over fl s capability my_node device_role destination source_node heard_from n
        ≡ true
      → (heard_from ≡ 0) ⊎ (verified_connectivity s capability heard_from n ≡ (true, false))
  unfolding may_take_over
  may-connected n may = elim (Bool-cases (heard_from == 0)) [
    | inl nobody ↦ inl (ground arith)
    | inr some_node ↦ inr (both (verified_connectivity s capability heard_from n) (ground arith))
  ]

  better :
      (n : ℕ)
      → allowed fl s capability my_node device_role destination source_node heard_from n ≡ true
      → is_some (find_link s n destination) ≡ true
      → can_deliver s (some capability) n destination ≡ true
      → IsBetter n
  unfolding may_take_over
  better n may lists delivers = record {
    named = ground (arith, may);
    not_source = ground (arith, may);
    not_heard = ground (arith, may);
    carries = ground (arith, may);
    connected = may-connected n may;
    lists = lists;
    delivers = delivers;
  }

  allowed_lem :
      (n : ℕ)
      → IsBetter n
      → allowed fl s capability my_node device_role destination source_node heard_from n ≡ true
  unfolding may_take_over
  allowed_lem n stands = elim (stands.connected) [
    | inl nobody ↦
        ground (arith, nobody, stands.named, stands.not_source, stands.not_heard, stands.carries)
    | inr connected ↦
        ground (arith, connected, stands.named, stands.not_source, stands.not_heard, stands.carries)
  ]

  price_lem :
      (n : ℕ) (link : Edge) (o : Option NodeEdges)
      → find_node s n ≡ o
      → find_link s n destination ≡ some link
      → can_deliver s (some capability) n destination ≡ true
      → price fl s capability my_node device_role destination source_node heard_from n
        ≡ some (edge_etx fl link)
  unfolding direct_etx
  price_lem n link none found linked delivers = absurd (cc (rw (find_link, found) at linked))
  price_lem n link (some x) found linked delivers =
      let is_link : find_edge x destination ≡ some link = rw (find_link, found) at linked in
      rw (direct_etx, found, is_link, delivers) refl

  -- A node at the end of one of our links that stands better, and whose link to the destination costs by
  -- more than 1 less.
  pub record IsCheaper (cost : fl.F32) (n : ℕ) : Type 0 where
    pub ours : any (λ e. e.to == n) (edges_of s my_node) ≡ true
    pub stands : IsBetter n
    pub link : Edge
    pub linked : find_link s n destination ≡ some link
    pub less : fl.lt (fl.add (edge_etx fl link) (fl.whole 1)) cost ≡ true

  cheap-IsCheaper :
      (cost : fl.F32) (n : ℕ)
      → IsCheaper cost n
      → (e : Edge) → (e.to == n) ≡ true
      → cheap fl s capability my_node device_role destination source_node heard_from cost e ≡ true
  cheap-IsCheaper cost n cheaper e is_n =
      let same : n ≡ e.to = ground (arith, is_n) in
      cheap_lem fl s capability my_node device_role destination source_node heard_from cost
        (edge_etx fl cheaper.link) e
        (subst
          (λ m.
            allowed fl s capability my_node device_role destination source_node heard_from m ≡ true)
          same (allowed_lem n cheaper.stands))
        (subst
          (λ m.
            price fl s capability my_node device_role destination source_node heard_from m
            ≡ some (edge_etx fl cheaper.link))
          same
          (price_lem n cheaper.link (find_node s n) refl cheaper.linked cheaper.stands.delivers))
        cheaper.less

  -- There is no such node.
  pub IsDear : fl.F32 → Type 0
  IsDear cost = ¬ ((n : ℕ) × IsCheaper cost n)

  any-IsDear :
      (cost : fl.F32)
      → any
          (cheap fl s capability my_node device_role destination source_node heard_from cost)
          (edges_of s my_node)
        ≡ false
      → IsDear cost
  unfolding IsDear
  any-IsDear cost none_cheap (n, cheaper) =
      cc (any_mono (cheap-IsCheaper cost n cheaper) (edges_of s my_node) cheaper.ours, none_cheap)

  -- A node that costs less, where none costs by more than 1 less than it.
  pub record IsTaken (our_route_cost : fl.F32) (n : ℕ) : Type 0 where
    pub cheaper : IsCheaper our_route_cost n
    pub least : IsDear (edge_etx fl cheaper.link)

  best-IsTaken :
      (cost etx : fl.F32) (n : ℕ)
      → IsBest fl s capability my_node device_role destination source_node heard_from
          (edges_of s my_node)
          cost
          n
          etx
      → IsTaken cost n
  unfolding IsPriced
  best-IsTaken cost etx n best =
      let (link, linked, its_price, delivers) =
        price-IsPriced n etx (find_node s n) refl best.priced in
      record {
        cheaper = record {
          ours = best.there;
          stands = better n best.allows (ap is_some linked) delivers;
          link = link;
          linked = linked;
          less = subst (λ x. fl.lt (fl.add x (fl.whole 1)) cost ≡ true) (sym its_price) best.less;
        };
        least = subst IsDear (sym its_price) (any-IsDear etx best.first);
      }

  -- Where the gap of 1 in the code's comparison goes on over a further gap and no price is below itself
  -- by it: either the answer is 0 and there is no node at the end of one of our links that stands better
  -- and lists the destination at more than 1 less than our route costs, or the answer is such a node,
  -- and there is none that lists the destination at more than 1 less than this one does.
  pub find_better_positioned_neighbor_lem :
      (our_route_cost : fl.F32)
      → IsGapped fl
      → let n =
          find_better_positioned_neighbor fl s capability my_node device_role destination
            source_node heard_from our_route_cost in
        ((n ≡ 0) × IsDear our_route_cost) ⊎ IsTaken our_route_cost n
  unfolding find_better_positioned_neighbor IsFound
  find_better_positioned_neighbor_lem our_route_cost gapped =
      elim (better_from-IsFound fl s capability my_node device_role destination source_node
        heard_from gapped (edges_of s my_node) (0, our_route_cost)) [
          | inl (same, none_cheap) ↦
              inl (ap (λ (p : ℕ × fl.F32). p.0) same, any-IsDear our_route_cost none_cheap)
          | inr best ↦ inr (best-IsTaken our_route_cost _ _ best)
        ]
