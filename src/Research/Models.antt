-- ===== src/Research/Models.antt =====
-- app/research/models.py: budgets and the results of tools. `D` is the type of the data that a
-- provider delivers. A time is a number of seconds.
use enterprise_sales_intelli.Prelude.{ℕ, String, Bool, true, false, Option}

-- The keys of `LIMIT_FIELDS`.
pub data ToolOperation : Type 0 where
  enterprise_search enterprise_profile map_search web_search web_fetch : ToolOperation

pub data ToolStatus : Type 0 where
  success empty failed budget_blocked url_blocked : ToolStatus

pub record ResearchBudget : Type 0 where
  pub max_tool_calls : ℕ
  pub max_enterprise_search_calls : ℕ
  pub max_enterprise_profile_calls : ℕ
  pub max_map_calls : ℕ
  pub max_web_search_calls : ℕ
  pub max_web_fetch_calls : ℕ
  pub max_web_pages : ℕ
  pub max_runtime_seconds : ℕ

pub record ToolResult (D : Type 0) : Type 0 where
  pub status : ToolStatus
  pub data_found : Option D
  pub provider : String
  pub retryable : Bool
  pub error_code : Option String

-- `status in {SUCCESS, EMPTY}`
unfoldable pub is_done : ToolStatus → Bool
is_done success = true
is_done empty = true
is_done _ = false
