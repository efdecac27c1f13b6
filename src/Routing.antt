-- ===== src/Routing.antt =====
-- The components of crates/mesh-routing/src.
pub mod Capability
pub mod Contention
pub mod ChannelAccess
pub mod Graph
pub mod History
pub mod HopHealth
pub mod Pool
pub mod Protobuf
pub mod Qos
pub mod RateLimit
pub mod RelayWindow
pub mod Reliable
pub mod Roles
