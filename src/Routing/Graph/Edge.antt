-- ===== src/Routing/Graph/Edge.antt =====
-- crates/mesh-routing/src/graph/edge.rs: the nodes of the mesh with the links that each of them reports,
-- and the price of a link (crates/mesh-routing/src/graph/etx.rs: `etx_to_fixed`, `fixed_to_etx`).
-- An array with a count of its used places is the list of these places.
pub mod Store
mod Tests
pub mod Remove
pub mod Evict
pub mod Update
pub mod Prune
pub mod Marks
pub mod Rounds
pub mod Neighbours
pub mod Linked
pub mod Inv
pub mod Keep
pub mod Room
pub mod Enter
pub mod Calls
pub mod Reach
use meshrustic.Base.{
  ℕ, ◌+◌, ◌-◌, ◌*◌, ◌/◌, ◌%◌, ◌^◌, min, max, Bool, true, false, not, ◌&&◌, ◌||◌, Option, none, some,
  List, [], ◌==◌, ltb, leb, if◌then◌else◌, length, find?, update_first, wrapping_sub,
  saturating_add8,
}
use meshrustic.Base.Float.{Float32}

abbrev pub max_edges_per_node : ℕ
max_edges_per_node = 40

abbrev pub max_graph_nodes : ℕ
max_graph_nodes = 32

abbrev pub graph_max_depth : ℕ
graph_max_depth = 3

-- What `update_edge` reports: nothing, a new edge, or a price that changed much.
pub data Change : Type 0 where
  no_change new_edge significant_change : Change

pub data EdgeSource : Type 0 where
  mirrored reported inferred : EdgeSource

abbrev pub source_rank : EdgeSource → ℕ
source_rank inferred = 0
source_rank mirrored = 1
source_rank reported = 2

abbrev pub is_measured : EdgeSource → Bool
is_measured inferred = false
is_measured mirrored = true
is_measured reported = true

abbrev pub is_reported : EdgeSource → Bool
is_reported inferred = false
is_reported mirrored = false
is_reported reported = true

pub record Edge : Type 0 where
  pub to : ℕ
  pub etx_fixed : ℕ
  pub last_update_ms : ℕ
  pub etx_variance : ℕ
  pub source : EdgeSource
  pub hears_us : Bool
  pub heard_on : ℕ
  pub last_heard_ms : ℕ

module _ (fl : Float32) where
  open fl use {F32, add, mul, div, clamp, whole, half, ratio, to_u32, is_finite}

  unfoldable pub etx_to_fixed : F32 → ℕ
  etx_to_fixed etx =
      if not (is_finite etx)
      then 65_535
      else max (min (to_u32 (clamp (mul etx (whole 100)) (whole 1) (whole 65_535))) 65_535) 100

  abbrev pub fixed_to_etx : ℕ → F32
  fixed_to_etx fixed = div (whole fixed) (whole 100)

  abbrev pub edge_etx : Edge → F32
  edge_etx e = fixed_to_etx e.etx_fixed

  abbrev pub set_etx : Edge → F32 → Edge
  set_etx e etx = record e { etx_fixed = etx_to_fixed etx }

  abbrev pub etx_variance_f : Edge → F32
  etx_variance_f e = div (whole e.etx_variance) (whole 20)

  unfoldable pub update_etx_variance : Edge → F32 → Edge
  update_etx_variance e abs_change =
      let updated = add (mul (ratio 3 4) (etx_variance_f e)) (mul (ratio 1 4) abs_change) in
      let scaled = min (to_u32 (add (mul updated (whole 20)) half)) 65_535 in
      record e { etx_variance = min scaled 255 }

unfoldable pub silence_etx_fixed_from_age : ℕ → ℕ → ℕ
silence_etx_fixed_from_age age_ms period_ms =
    let half = period_ms / 2 in
    if ltb period_ms 2
    then 1275
    else if ltb age_ms half
    then 0
    else if ltb age_ms period_ms
    then ((age_ms - half) * 50 / half) % 2 ^ 16
    else if ltb age_ms (period_ms * 2)
    then (50 + (age_ms - period_ms) * 550 / period_ms) % 2 ^ 16
    else 1275

unfoldable pub silence_variance_byte_from_age : ℕ → ℕ → ℕ
unfolding silence_etx_fixed_from_age
silence_variance_byte_from_age age_ms period_ms =
    min ((silence_etx_fixed_from_age age_ms period_ms * 20 + 50) / 100) 255

unfoldable pub effective_variance_byte : Edge → ℕ → ℕ → Bool → ℕ
effective_variance_byte e now_ms period_ms our_rx =
    let silence = silence_variance_byte_from_age (wrapping_sub now_ms e.last_heard_ms) period_ms in
    if not our_rx || e.last_heard_ms == 0
    then e.etx_variance
    else saturating_add8 e.etx_variance silence

pub data NodeClass : Type 0 where
  unknown l1 l2 l3 : NodeClass

abbrev pub depth : NodeClass → ℕ
depth l1 = 1
depth l2 = 2
depth l3 = 3
depth unknown = 255

abbrev pub eviction_rank : NodeClass → ℕ
eviction_rank unknown = 3
eviction_rank l3 = 2
eviction_rank l2 = 1
eviction_rank l1 = 0

-- The derived equality: the depths differ.
abbrev pub same_class : NodeClass → NodeClass → Bool
same_class a b = depth a == depth b

abbrev pub class_within_depth : NodeClass → Bool
class_within_depth class = not (same_class class unknown) && leb (depth class) graph_max_depth

pub record NodeEdges : Type 0 where
  pub node_id : ℕ
  pub last_full_update_ms : ℕ
  pub class : NodeClass
  pub parent_hint : ℕ
  pub edges : List Edge

abbrev pub leads_to_node : ℕ → Edge → Bool
leads_to_node to e = e.to == to

abbrev pub find_edge : NodeEdges → ℕ → Option Edge
find_edge n to = find? (leads_to_node to) n.edges

-- The edge that `find_edge_mut` lends, changed.
abbrev pub find_edge_mut : NodeEdges → ℕ → (Edge → Edge) → NodeEdges
find_edge_mut n to change = record n { edges = update_first (leads_to_node to) change n.edges }

pub record PendingDemotion : Type 0 where
  pub victim : ℕ
  pub parent : ℕ
  pub cost_fixed : ℕ
