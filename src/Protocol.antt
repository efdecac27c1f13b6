-- ===== src/Protocol.antt =====
-- The components of crates/mesh-protocol/src.
pub mod Header
pub mod Portnum
