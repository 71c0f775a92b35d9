-- ===== src/Orchestrator/Executor.antt =====
-- The execution of one run: its steps, its events, interruptions and resumption.
pub mod Rows
pub mod Steps
pub mod Lifecycle
pub mod Keeping
pub mod Cancelling
pub mod Events
pub mod Flow
pub mod Failing
pub mod Terminal
pub mod Tests
pub mod Calm
