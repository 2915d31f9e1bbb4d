-- ===== src/Tools.antt =====
-- internal/mcp/tools: the arguments of a call, the eight tools, their registry and the two handlers.
pub mod Arguments
pub mod Category
pub mod Execute
pub mod Registry
pub mod Handlers
pub mod Limits
pub mod Outcomes
