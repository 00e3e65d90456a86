-- ===== src/Alerts.antt =====
-- The alerts of apps/server/src/domain/alerts.ts and the delivery of their webhooks.
pub mod Store
pub mod Raise
pub mod Deliver
pub mod Unique
pub mod Attempts
pub mod Choice
pub mod Order
mod Tests
