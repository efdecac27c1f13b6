-- ===== src/Radio.antt =====
-- The components of crates/mesh-radio/src.
pub mod Frame
pub mod Queue
pub mod Timing
