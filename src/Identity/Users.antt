-- ===== src/Identity/Users.antt =====
-- application/services/user_service.py of apps/identity-service.
pub mod Service
pub mod Admins
pub mod Deletion
