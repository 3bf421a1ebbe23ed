-- ===== src/Plan.antt =====
-- internal/domain/plan: deployment plans.
pub mod Steps
pub mod Entity
pub mod Ready
pub mod Progress
pub mod Updates
pub mod Lifecycle
pub mod Execution
