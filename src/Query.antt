-- ===== src/Query.antt =====
-- apps/query-gateway: the limit on a tenant's concurrent queries, the SQL validator and the service
-- that runs validated queries.
pub mod Concurrency
pub mod Slots
pub mod Leases
pub mod Policy
pub mod Validator
pub mod Service
pub mod Tests
