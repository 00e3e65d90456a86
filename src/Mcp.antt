-- ===== src/Mcp.antt =====
-- How much of a server runs at a time (apps/server/src/domain/mcp-policy.ts): leases, the cache of
-- schema validators, and what a class of effects asks of a call. Moments are milliseconds.
pub mod Leases
pub mod Cache
pub mod Bounds
pub mod Recency
mod Tests
