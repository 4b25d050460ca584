-- ===== src/Rules.antt =====
-- Models app/rules.
pub mod Models
mod Tests
pub mod Values
pub mod Registry
pub mod Conflicts
pub mod Validator
pub mod Repository
