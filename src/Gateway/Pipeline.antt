-- ===== src/Gateway/Pipeline.antt =====
-- The per-request checks of apps/api-gateway.
pub mod Request
pub mod Address
pub mod Authorize
pub mod Body
pub mod Tests
