-- ===== src/Routing/Graph.antt =====
-- The components of crates/mesh-routing/src/graph.
pub mod Downstream
pub mod Edge
pub mod Etx
pub mod Placeholder
pub mod Route
