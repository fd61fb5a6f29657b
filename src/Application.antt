-- ===== src/Application.antt =====
-- The HTTP application of task4_router/app.py over the router.
mod Defs
pub mod Checks
pub mod Envelope
pub mod Ends
pub mod Waits
mod Tests
pub use Defs.{
  ParsedBody, parsed_as, unparsable, ClientRequest, Circumstances, Application, CompletionRequest,
  Answer,
}
