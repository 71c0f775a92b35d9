-- ===== src/Mcp.antt =====
-- apps/mcp-gateway: the tool policy, invocations, and the registry of servers and grants.
pub mod ToolPolicy
pub mod Invoking
pub mod Names
pub mod Invocation
pub mod Recording
pub mod Registry
pub mod Requests
pub mod Keeping
pub mod Registering
pub mod Offering
pub mod UnderWay
pub mod Approving
pub mod Granting
pub mod Tests
