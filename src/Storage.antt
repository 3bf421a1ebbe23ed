-- ===== src/Storage.antt =====
-- internal/adapters/storage/sqlite/repository.go: the repository of deployments.
pub mod Texts
pub mod Database
pub mod Repository
pub mod Saves
pub mod Changes
pub mod Queries
