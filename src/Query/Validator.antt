-- ===== src/Query/Validator.antt =====
-- domain/policies/sql_validator.py of apps/query-gateway: what SQL may reach a database.
pub mod Allowed
pub mod Sqlglot
pub mod Checks
pub mod Validate
pub mod Harmless
pub mod Vetted
pub mod Editor
pub mod Personal
pub mod Reads
pub mod Brief
