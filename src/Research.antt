-- ===== src/Research.antt =====
-- app/research: the budget of a research run, and the calls of providers.
pub mod Models
pub mod Budget
pub mod Runtime
pub mod ToolRuns
