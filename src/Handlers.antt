-- ===== src/Handlers.antt =====
-- internal/adapters/mcp/handler.go: the tools of the MCP server.
pub mod Arguments
pub mod Answers
pub mod Lifecycle
pub mod Requests
pub mod Helm
pub mod Repositories
pub mod Inspection
pub mod Planning
pub mod Operators
pub mod Reports
pub mod Advice
pub mod Untouched
pub mod Tools
pub mod Declared
