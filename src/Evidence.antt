-- ===== src/Evidence.antt =====
-- Models app/evidence.
pub mod Budget
