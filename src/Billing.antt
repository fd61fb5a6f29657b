-- ===== src/Billing.antt =====
-- The billing store behind the tools of task1_mcp_server. Amounts are in cents: the schema of the
-- tool admits two decimal places, and on such floats below 10 ^ 13 the comparison and the rounded
-- difference of the source are those of the cents.
pub mod Defs
pub mod Ledger
pub mod Replay
mod Tests
