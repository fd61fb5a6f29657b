-- ===== src/Gateway.antt =====
-- The security gateway for MCP of task2_mcp_gateway: who calls, what they may call, and what is
-- forwarded downstream.
pub mod Auth
pub mod Policy
pub mod Rpc
pub mod Authorize
pub mod Proxy
pub mod Batch
pub mod Guard
pub mod Sends
pub mod Sound
pub mod Forward
pub mod Spelling
pub mod Denials
pub mod Answers
pub mod Credentials
mod Tests
