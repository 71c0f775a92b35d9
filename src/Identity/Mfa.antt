-- ===== src/Identity/Mfa.antt =====
-- application/services/mfa_service.py of apps/identity-service: a user's second factors.
pub mod Factors
pub mod Service
pub mod Verifying
pub mod Keeping
pub mod Ids
pub mod Enabled
pub mod Enrolling
pub mod Flag
pub mod Guessing
pub mod Replay
pub mod Spending
pub mod Tests
