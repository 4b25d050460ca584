-- ===== src/Runtime.antt =====
-- app/runtime: execution runs and the leases that fence them.
pub mod Models
pub mod Coordinator
pub mod Leases
