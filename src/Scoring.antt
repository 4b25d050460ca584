-- ===== src/Scoring.antt =====
-- Models app/scoring.
pub mod Models
pub mod Leads
