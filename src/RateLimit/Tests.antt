-- ===== src/RateLimit/Tests.antt =====
-- A few requests with one key (postgres-rate-limit-store.ts).
