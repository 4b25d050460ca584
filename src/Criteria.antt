-- ===== src/Criteria.antt =====
-- Models app/criteria.
pub mod Models
pub mod Evaluator
pub mod Diff
mod Tests
