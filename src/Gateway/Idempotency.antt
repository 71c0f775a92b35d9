-- ===== src/Gateway/Idempotency.antt =====
-- Idempotent requests of apps/api-gateway: the stored records, the guard, and what a retry meets.
pub mod Records
pub mod Guard
pub mod Exclusion
pub mod Replay
pub mod Tests
