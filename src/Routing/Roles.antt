-- ===== src/Routing/Roles.antt =====
-- The roles that nodes announce (constants of crates/mesh-routing/src/nodeinfo.rs) and their classes
-- (crates/mesh-routing/src/sr_role.rs).
use meshrustic.Base.{ℕ, Bool, not, ◌&&◌, List, [], ◌∷◌, ◌==◌, any}

abbrev pub role_client : ℕ
role_client = 0

abbrev pub role_client_mute : ℕ
role_client_mute = 1

abbrev pub role_router : ℕ
role_router = 2

abbrev pub role_router_client : ℕ
role_router_client = 3

abbrev pub role_repeater : ℕ
role_repeater = 4

abbrev pub role_tracker : ℕ
role_tracker = 5

abbrev pub role_sensor : ℕ
role_sensor = 6

abbrev pub role_tak : ℕ
role_tak = 7

abbrev pub role_client_hidden : ℕ
role_client_hidden = 8

abbrev pub role_lost_and_found : ℕ
role_lost_and_found = 9

abbrev pub role_tak_tracker : ℕ
role_tak_tracker = 10

abbrev pub role_router_late : ℕ
role_router_late = 11

abbrev pub role_client_base : ℕ
role_client_base = 12

-- `matches!` on the alternatives of a list.
abbrev pub is_one_of : List ℕ → ℕ → Bool
is_one_of roles role = any (λ r. role == r) roles

unfoldable pub role_is_mute : ℕ → Bool
role_is_mute =
    is_one_of (role_client_mute ∷ role_tracker ∷ role_client_hidden ∷ role_lost_and_found ∷ [])

unfoldable pub role_is_active_routing : ℕ → Bool
role_is_active_routing = is_one_of (
    role_client ∷ role_router ∷ role_router_client ∷ role_repeater ∷ role_router_late
    ∷ role_client_base ∷ [])

unfoldable pub role_is_passive : ℕ → Bool
role_is_passive role = not (role_is_mute role) && not (role_is_active_routing role)
