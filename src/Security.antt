-- ===== src/Security.antt =====
-- apps/server/src/security/secrets.ts: what is taken out of a value before it is stored or shown.
pub mod Text
pub mod Redact
