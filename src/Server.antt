-- ===== src/Server.antt =====
-- internal/mcp/server: the validation of a request, and the request loop.
pub mod Validation
pub mod Serving
pub mod Answers
pub mod Loop
pub mod Calls
pub mod Transcript
pub mod Replied
