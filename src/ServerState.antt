-- ===== src/ServerState.antt =====
-- apps/server/src/domain/server-state.ts: the registration and operational state of an MCP server.
pub mod Lifecycle
pub mod Store
pub mod Checks
pub mod Rows
pub mod Update
