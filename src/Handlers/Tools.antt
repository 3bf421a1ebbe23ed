-- ===== src/Handlers/Tools.antt =====
-- internal/adapters/mcp/server.go: the tools and their parameters.
pub mod Schema
pub mod Charts
pub mod Cluster
pub mod Inspection
pub mod Distribution
pub mod Registered
