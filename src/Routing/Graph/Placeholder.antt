-- ===== src/Routing/Graph/Placeholder.antt =====
-- crates/mesh-routing/src/graph/placeholder.rs: ids that stand for a relay of which only the last
-- byte is known.
mod Tests
use Prim.Native.Nat.{bit_and, bit_or}
use meshrustic.Base.{
  ℕ, ◌+◌, ◌%◌, ◌<◌, ◌≡◌, refl, Bool, true, arith, ◌==◌, every_below, every_below_lem, ◌&&◌,
}

abbrev pub placeholder_node_prefix : ℕ
placeholder_node_prefix = 0xff00_0000

unfoldable pub placeholder_node_id : ℕ → ℕ
placeholder_node_id relay_byte = bit_or placeholder_node_prefix relay_byte

unfoldable pub get_placeholder_for_relay : ℕ → ℕ
unfolding placeholder_node_id
get_placeholder_for_relay relay_byte = placeholder_node_id relay_byte

unfoldable pub is_placeholder_node : ℕ → Bool
is_placeholder_node node_id = bit_and node_id 0xff00_0000 == placeholder_node_prefix

id_table :
    every_below 256 (λ b.
      (bit_or 0xff00_0000 b == 0xff00_0000 + b)
      && (bit_and (bit_or 0xff00_0000 b) 0xff00_0000 == 0xff00_0000))
    ≡ true
unfolding every_below
id_table = refl

-- The id made for a relay byte is a placeholder, and its last byte is that byte.
pub placeholder_node_id_lem :
    (b : ℕ)
    → b < 256
    → (is_placeholder_node (get_placeholder_for_relay b) ≡ true)
      × (get_placeholder_for_relay b % 256 ≡ b)
unfolding get_placeholder_for_relay is_placeholder_node
placeholder_node_id_lem b lt =
    let both = every_below_lem 256 _ b id_table lt in
    let sum : bit_or 0xff00_0000 b ≡ 0xff00_0000 + b = ground (arith, both) in
    (ground (arith, both), omega (arith, sum))
