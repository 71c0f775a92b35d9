-- ===== src/Worker.antt =====
-- apps/worker-runtime: what becomes of queued messages.
pub mod Dispatch
pub mod Delivery
pub mod Usage
pub mod Tests
