-- ===== src/Auth.antt =====
-- packages/python/platform-auth: the permission matrix, the principal, and the checks that
-- every service applies to a request.
pub mod Permissions
pub mod Principal
pub mod Access
pub mod Tests
