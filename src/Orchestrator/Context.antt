-- ===== src/Orchestrator/Context.antt =====
-- domain/policies/context_policy.py of apps/analytics-orchestrator: which tables and which data
-- source a question is about.
pub mod Ranking
pub mod Choice
pub mod Tests
