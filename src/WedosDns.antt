-- ===== src/WedosDns.antt =====
-- The change of a TXT record at the DNS provider (apps/server/src/tls/wedos-dns-operation.ts).
pub mod Names
pub mod Store
pub mod Rows
pub mod Publish
pub mod Cleanup
pub mod Recovery
pub mod Creation
pub mod Lifecycle
pub mod Moves
pub mod Steps
pub mod Owned
pub mod Publications
pub mod Cleanups
pub mod Recoveries
pub mod Creations
pub mod Runs
pub mod Returns
pub mod Propagation
pub mod Waiting
pub mod Agreement
pub mod Comments
mod Tests
