-- ===== src/Deployment.antt =====
-- internal/domain/deployment: the deployment aggregate and its value objects.
pub mod Status
pub mod Errors
pub mod Naming
pub mod Chart
pub mod Values
pub mod Events
pub mod Entity
pub mod Creation
pub mod Lifecycle
