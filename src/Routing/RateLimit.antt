-- ===== src/Routing/RateLimit.antt =====
-- crates/mesh-routing/src/rate_limit.rs: the limiter that decides which packets the router drops to
-- keep single nodes from flooding the mesh. An array with a count of its used places is the list of
-- those places; the places behind the count are never read. The closure `proximity` is a function,
-- and a `Cell` is a field that a call gives back changed.
pub mod Types
pub mod Bucket
pub mod Young
pub mod Tables
pub mod Dests
pub mod Limiter
pub mod Queries
mod Tests
