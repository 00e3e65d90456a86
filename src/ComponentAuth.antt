-- ===== src/ComponentAuth.antt =====
-- The authorisation of calls between components (apps/server/src/domain/component-auth.ts).
pub mod Store
pub mod Route
pub mod Decide
pub mod Authorize
