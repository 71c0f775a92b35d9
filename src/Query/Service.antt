-- ===== src/Query/Service.antt =====
-- application/services/query_service.py of apps/query-gateway: the pipeline of a query.
pub mod Request
pub mod Run
pub mod Outcome
pub mod Recorded
pub mod Lawful
pub mod Called
pub mod Sent
