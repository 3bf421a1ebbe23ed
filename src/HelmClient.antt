-- ===== src/HelmClient.antt =====
-- internal/adapters/helm/client.go: the Helm port over the Helm SDK.
pub mod Requests
pub mod Queries
pub mod Answers
pub mod Errors
pub mod Releases
pub mod Actions
pub mod Sdk
pub mod Calls
pub mod Repositories
pub mod Indexes
pub mod Charts
pub mod Parameters
pub mod Changes
pub mod DryRuns
pub mod Reading
pub mod Details
pub mod Testing
pub mod TestOutcomes
pub mod Registered
pub mod Timeouts
pub mod Packaging
