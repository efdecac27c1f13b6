-- ===== src/Routing/Graph/Route/Price.antt =====
-- crates/mesh-routing/src/graph/route.rs: which hops the links of the graph give evidence for, and what
-- they cost.
use meshrustic.Base.{
  ℕ, ◌*◌, ◌+◌, ◌-◌, min, Bool, false, not, ◌&&◌, ◌||◌, Option, none, some, ◌==◌, leb, ltb, ◌^◌,
  if◌then◌else◌, is_some, wrapping_sub, saturating_add16,
}
use meshrustic.Routing.Capability.{Cache, topology_broadcast_ms, is_signal_routing, status_of}
use meshrustic.Routing.Graph.Edge.{Edge, is_measured, is_reported, effective_variance_byte}
use meshrustic.Routing.Graph.Edge.Store.{EdgeStore, find_node, find_link}
use meshrustic.Routing.Graph.Placeholder.{is_placeholder_node}

abbrev pub unverified_hop_cost_factor : ℕ
unverified_hop_cost_factor = 4

abbrev pub coverage_etx_ceiling_fixed : ℕ
coverage_etx_ceiling_fixed = 700

-- `PUBLISHER_SILENCE_MS` of crates/mesh-routing/src/neighbor_graph.rs.
abbrev pub publisher_silence_ms : ℕ
publisher_silence_ms = 2 * topology_broadcast_ms + 20000

abbrev pub link_hears_us : Option Edge → Bool
link_hears_us none = false
link_hears_us (some e) = e.hears_us

abbrev pub if_measured : Option Edge → Option Edge
if_measured none = none
if_measured (some e) = if is_measured e.source then some e else none

abbrev pub price_of : Option Edge → Option ℕ
price_of none = none
price_of (some e) = some e.etx_fixed

unfoldable pub known_to_hear : EdgeStore → ℕ → ℕ → Bool
known_to_hear s from to = link_hears_us (find_link s from to) || is_some (find_link s to from)

unfoldable pub publishes : Option Cache → ℕ → Bool
publishes none n = false
publishes (some c) n = is_signal_routing (status_of c n)

unfoldable pub can_deliver : EdgeStore → Option Cache → ℕ → ℕ → Bool
can_deliver s capability from to = known_to_hear s from to || not (publishes capability to)

unfoldable pub measured_edge : EdgeStore → ℕ → ℕ → Option Edge
measured_edge s node peer = if_measured (find_link s node peer)

unfoldable pub measured_etx : EdgeStore → ℕ → ℕ → Option ℕ
measured_etx s node peer = price_of (measured_edge s node peer)

unfoldable pub hop_cost_fixed : EdgeStore → ℕ → ℕ → Option ℕ
hop_cost_fixed s from to = elim (measured_etx s to from) [
  | some cost ↦ some cost
  | none ↦ measured_etx s from to
]

-- `saturating_mul` on words of 16 bits.
abbrev pub saturating_mul16 : ℕ → ℕ → ℕ
saturating_mul16 a b = min (a * b) (2 ^ 16 - 1)

unfoldable pub priced_hop_cost_fixed : Edge → ℕ → ℕ → ℕ → Bool → ℕ
priced_hop_cost_fixed e list_owner my_node now_ms unverified =
    let etx =
      if unverified then saturating_mul16 e.etx_fixed unverified_hop_cost_factor else e.etx_fixed in
    let our_rx = list_owner == my_node && is_reported e.source in
    let var_byte = effective_variance_byte e now_ms topology_broadcast_ms our_rx in
    let weight = if our_rx then 10 else 5 in min (saturating_add16 etx (var_byte * weight)) 0xfffe

unfoldable pub delivery_direction_cost_fixed : EdgeStore → Option Cache → ℕ → ℕ → ℕ → ℕ → Option ℕ
delivery_direction_cost_fixed s capability from to now_ms my_node = elim (measured_edge s to from) [
  | some e ↦ some (priced_hop_cost_fixed e to my_node now_ms false)
  | none ↦ elim (measured_edge s from to) [
    | none ↦ none
    | some e ↦ some (priced_hop_cost_fixed e from my_node now_ms (publishes capability to))
  ]
]

unfoldable pub delivery_hop_cost_fixed : EdgeStore → Option Cache → ℕ → ℕ → ℕ → ℕ → Option ℕ
delivery_hop_cost_fixed s capability from to now_ms my_node =
    if not (can_deliver s capability from to)
    then none
    else delivery_direction_cost_fixed s capability from to now_ms my_node

abbrev pub within_ceiling : Option ℕ → Bool
within_ceiling none = false
within_ceiling (some cost) = leb cost coverage_etx_ceiling_fixed

unfoldable pub has_strong_hop_to : EdgeStore → Option Cache → ℕ → ℕ → ℕ → ℕ → Bool
has_strong_hop_to s capability from peer now_ms my_node =
    if peer == 0
    then false
    else within_ceiling (delivery_direction_cost_fixed s capability from peer now_ms my_node)

unfoldable pub has_strong_delivery_hop : EdgeStore → Option Cache → ℕ → ℕ → ℕ → ℕ → Bool
has_strong_delivery_hop s capability from dest now_ms my_node =
    within_ceiling (delivery_hop_cost_fixed s capability from dest now_ms my_node)

-- The price of the link back, by what it costs in this direction or itself.
unfoldable pub return_price : EdgeStore → ℕ → ℕ → Edge → Option ℕ
return_price s candidate source e =
    let cost : ℕ = elim (hop_cost_fixed s candidate source) [
      | some cost ↦ cost
      | none ↦ e.etx_fixed
    ] in
    if not e.hears_us then none else if ltb coverage_etx_ceiling_fixed cost then none else some cost

unfoldable pub acknowledgement_price_fixed : EdgeStore → ℕ → ℕ → Option ℕ
acknowledgement_price_fixed s candidate source =
    if source == 0 || (candidate == 0 || candidate == source)
    then none
    else if is_placeholder_node source || is_placeholder_node candidate
    then none
    else elim (measured_edge s candidate source) [
      | none ↦ none
      | some e ↦ return_price s candidate source e
    ]

unfoldable pub is_silent_publisher : EdgeStore → Option Cache → ℕ → ℕ → Bool
is_silent_publisher s capability node now_ms =
    if not (publishes capability node) then false else elim (find_node s node) [
      | none ↦ false
      | some entry ↦
          let silent = wrapping_sub now_ms entry.last_full_update_ms in
          ltb publisher_silence_ms silent && ltb silent (2 ^ 31)
    ]

unfoldable pub covers : EdgeStore → Option Cache → ℕ → ℕ → Bool
covers s capability from to =
    let evidenced =
      if publishes capability to
      then known_to_hear s from to
      else known_to_hear s from to || is_some (find_link s from to) in
    evidenced && within_ceiling (hop_cost_fixed s from to)
