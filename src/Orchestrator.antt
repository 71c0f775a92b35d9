-- ===== src/Orchestrator.antt =====
-- apps/analytics-orchestrator: the model router and the execution of runs.
pub mod Failures
pub mod Router
pub mod Budget
pub mod Posting
pub mod Replaying
pub mod Context
pub mod Executor
pub mod Tests
