-- ===== src/Routing/Graph/Placeholder/Tests.antt =====
-- Placeholders at concrete relay bytes.
use meshrustic.Base.{◌≡◌, refl, false}
use meshrustic.Routing.Graph.Placeholder.{is_placeholder_node}

-- An ordinary node is no placeholder.
ordinary : is_placeholder_node 0x1234_5678 ≡ false
unfolding is_placeholder_node
ordinary = refl
