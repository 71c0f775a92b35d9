-- ===== src/Identity.antt =====
-- apps/identity-service: role rules, tenant policies, sessions, users and factors.
pub mod Roles
pub mod Policies
pub mod Db
pub mod Sessions
pub mod Users
pub mod Mfa
pub mod Tests
