-- ===== src/Application.antt =====
-- internal/application/deployment: the service that installs, upgrades, rolls back and uninstalls.
pub mod Commands
pub mod Ports
pub mod Service
pub mod Requests
pub mod Rules
pub mod Guards
pub mod WriteAhead
pub mod Outcomes
pub mod Reports
pub mod Removals
