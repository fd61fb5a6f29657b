-- ===== src/Guardrail.antt =====
-- The guardrail of task3_streaming_guardrail/llm_gateway.py: server-sent events around the redactor.
pub mod Frames
pub mod Sse
pub mod Steps
pub mod Total
pub mod Texts
pub mod Spoken
pub mod Heard
pub mod Events
pub mod Keeps
pub mod Tells
pub mod Lines
pub mod Faithful
pub mod Endpoint
pub mod Broken
pub mod Paths
pub mod Alike
pub mod Replies
mod EndpointTests
mod Tests
