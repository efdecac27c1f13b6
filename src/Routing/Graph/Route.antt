-- ===== src/Routing/Graph/Route.antt =====
-- crates/mesh-routing/src/graph/route.rs: the nodes that may carry a packet on, a route, and the cache
-- of routes. The array of the cache with the count of its used places is the list of these places.
pub mod Price
pub mod Search
pub mod Cached
pub mod Candidate
pub mod Compose
pub mod Led
pub mod Owner
pub mod Owned
pub mod Better
pub mod Cheaper
pub mod Expand
pub mod Ends
pub mod Rule
pub mod Ways
pub mod Table
pub mod Room
pub mod Grown
pub mod Closed
pub mod Round
pub mod Visited
pub mod Expanded
pub mod Nearest
pub mod Least
pub mod Cheapest
mod Tests
use meshrustic.Base.{
  ℕ, zero, suc, ◌+◌, Bool, true, false, not, ◌&&◌, ◌||◌, Option, none, some, List, [], ◌∷◌, ◌++◌,
  ◌==◌, leb, ltb, if◌then◌else◌, length, set, any, find?, update_first, wrapping_sub,
}
use meshrustic.Routing.Roles.{role_client_mute}
use meshrustic.Routing.Capability.{
  CapabilityStatus, unknown, legacy, passive, sr_active, Cache, status_of, is_legacy_router,
}

abbrev pub max_cached_routes : ℕ
max_cached_routes = 32

abbrev pub route_cache_timeout_ms : ℕ
route_cache_timeout_ms = 300000

abbrev pub route_cost_unknown : ℕ
route_cost_unknown = 0xffff

pub record RoutableFilter : Type 0 where
  pub capability : Cache
  pub my_node : ℕ
  pub device_role : ℕ
  pub excluded : List ℕ

-- The last test of `is_node_routable`, by the status of the node.
unfoldable pub status_routable : CapabilityStatus → Bool → Bool
status_routable unknown legacy_router = true
status_routable legacy legacy_router = legacy_router
status_routable passive legacy_router = false
status_routable sr_active legacy_router = true

unfoldable pub is_node_routable : RoutableFilter → ℕ → Bool
is_node_routable f n =
    if n == 0
    then false
    else if any (λ x. x == n) f.excluded
    then false
    else if f.device_role == role_client_mute && n == f.my_node
    then false
    else status_routable (status_of f.capability n) (is_legacy_router f.capability n)

pub data RouteMode : Type 0 where
  ball list_downstream_mode orphan_gateway : RouteMode

pub record Route : Type 0 where
  pub destination : ℕ
  pub next_hop : ℕ
  pub egress_radio : ℕ
  pub cost_fixed : ℕ
  pub timestamp_ms : ℕ
  pub hops : ℕ
  pub verified : Bool
  pub mode : RouteMode

abbrev pub RouteCache : Type 0
RouteCache = List Route

abbrev pub new : RouteCache
new = []

unfoldable pub clear : RouteCache → RouteCache
clear c = []

abbrev pub goes_to : ℕ → Route → Bool
goes_to destination r = r.destination == destination

abbrev pub is_current : ℕ → ℕ → Route → Bool
is_current destination now_ms r =
    goes_to destination r
    && (ltb (wrapping_sub now_ms r.timestamp_ms) route_cache_timeout_ms && not (r.next_hop == 0))

unfoldable pub get : RouteCache → ℕ → ℕ → Option Route
get c destination now_ms = find? (is_current destination now_ms) c

-- `max_by_key` on the ages at `stamp`, over the routes from index `i` on: of equal ages the last one.
unfoldable pub oldest_from : ℕ → RouteCache → ℕ → ℕ → ℕ → ℕ
oldest_from stamp [] i best best_age = best
oldest_from stamp (r ∷ rest) i best best_age =
    let age = wrapping_sub stamp r.timestamp_ms in
    let older = leb best_age age in
    oldest_from stamp rest (i + 1) (if older then i else best) (if older then age else best_age)

unfoldable pub insert : RouteCache → Route → RouteCache
insert c r =
    if r.next_hop == 0
    then c
    else if any (goes_to r.destination) c
    then update_first (goes_to r.destination) (λ old. r) c
    else if ltb (length c) max_cached_routes
    then c ++ (r ∷ [])
    else set c (oldest_from r.timestamp_ms c 0 0 0) r
