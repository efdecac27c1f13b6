-- ===== src/Routing/Graph/Route/Cached.antt =====
-- What the cache of crates/mesh-routing/src/graph/route.rs gives back.
use meshrustic.Base.{
  ℕ, ◌+◌, ◌<◌, ◌≤◌, ◌≡◌, refl, ap, ◌∙◌, true, false, Option, none, some, [], ◌∷◌, ◌==◌, ltb, length,
  any, find?, find?-set_miss, update_first, if-true, if-false, inl, inr, Bool-cases, wrapping_sub,
  arith,
}
use meshrustic.Routing.Capability.Found.{find?-append_new}
use meshrustic.Routing.Graph.Route.{
  Route, RouteCache, max_cached_routes, route_cache_timeout_ms, goes_to, is_current, get,
  oldest_from, insert,
}

any-missing :
    (d now_ms : ℕ) (c : RouteCache)
    → any (goes_to d) c ≡ false
    → find? (is_current d now_ms) c ≡ none
any-missing d now_ms [] missing = refl
any-missing d now_ms (r ∷ c) missing = ground (arith, any-missing d now_ms c)

find?-replaced :
    (d now_ms : ℕ) (c : RouteCache) (r : Route)
    → any (goes_to d) c ≡ true
    → is_current d now_ms r ≡ true
    → find? (is_current d now_ms) (update_first (goes_to d) (λ old. r) c) ≡ some r
find?-replaced d now_ms [] r there current = absurd (ground arith)
find?-replaced d now_ms (x ∷ c) r there current = elim (Bool-cases (goes_to d x)) [
  | inl here ↦ rw (here) (if-true _ _ current)
  | inr other ↦
      let later : any (goes_to d) c ≡ true = ground arith in
      let passed : is_current d now_ms x ≡ false = ground arith in
      rw (other) (if-false _ _ passed ∙ find?-replaced d now_ms c r later current)
]

oldest_from-bound :
    (stamp : ℕ) (c : RouteCache) (i best best_age n : ℕ)
    → best < n
    → i + length c ≤ n
    → oldest_from stamp c i best best_age < n
unfolding oldest_from
oldest_from-bound stamp [] i best best_age n lt le = lt
oldest_from-bound stamp (r ∷ c) i best best_age n lt le =
    oldest_from-bound stamp c (i + 1) _ _ n (ground arith) (omega arith)

-- A route with a next hop is given back for its destination, until its time is over, from whatever
-- cache it has been put into, full or not, and whether or not another route to the destination was
-- there.
pub get-insert :
    (c : RouteCache) (r : Route) (now_ms : ℕ)
    → (r.next_hop == 0) ≡ false
    → wrapping_sub now_ms r.timestamp_ms < route_cache_timeout_ms
    → get (insert c r) r.destination now_ms ≡ some r
unfolding get insert
get-insert c r now_ms named recent =
    let current : is_current r.destination now_ms r ≡ true = ground arith in
    let found : RouteCache → Option Route = find? (is_current r.destination now_ms) in
    ap found (if-false _ _ named) ∙ elim (Bool-cases (any (goes_to r.destination) c)) [
      | inl known ↦
          ap found (if-true _ _ known) ∙ find?-replaced r.destination now_ms c r known current
      | inr new ↦
          let missing = any-missing r.destination now_ms c new in
          ap found (if-false _ _ new) ∙ elim (Bool-cases (ltb (length c) max_cached_routes)) [
            | inl room ↦
                ap found (if-true _ _ room)
                ∙ find?-append_new (is_current r.destination now_ms) c r missing current
            | inr full ↦
                ap found (if-false _ _ full)
                ∙ find?-set_miss (is_current r.destination now_ms) c _ r missing current (
                    oldest_from-bound r.timestamp_ms c 0 0 0 (length c) (ground arith)
                      (omega arith))
          ]
    ]
