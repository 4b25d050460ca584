-- ===== src/Mutation.antt =====
-- app/mutation: what a change of a task invalidates, and the plan of the
-- re-execution.
pub mod Models
pub mod Preview
pub mod Repository
pub mod Diff
pub mod Invalidation
pub mod Planner
pub mod Validation
pub mod Service
mod Tests
