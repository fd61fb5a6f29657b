-- ===== src/Tools.antt =====
-- The tools of the billing server of task1_mcp_server: what arguments they take, and how a call
-- ends.
pub mod Schemas
pub mod Server
pub mod Valid
pub mod Effects
mod Tests
