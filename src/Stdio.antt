-- ===== src/Stdio.antt =====
-- The guard of standard output in task1_mcp_server/stdio_guard.py.
mod Defs
mod Writers
mod Purity
mod Reserved
mod Tests
