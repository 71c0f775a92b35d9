-- ===== src/Gateway.antt =====
-- apps/api-gateway.
pub mod RateLimit
pub mod Idempotency
pub mod Pipeline
