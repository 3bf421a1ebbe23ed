-- ===== src/Planner.antt =====
-- internal/application/planner: plans from natural language.
pub mod Intent
pub mod Build
