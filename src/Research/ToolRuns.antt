-- ===== src/Research/ToolRuns.antt =====
-- app/research/repository.py, the stored tool runs: `save_tool_run` and `find_successful_tool_run`,
-- which answers a request from an earlier run. `now` is what `datetime.now` returns.
pub mod Expiry
mod Tests
use enterprise_sales_intelli.Prelude.{
  ℕ, ◌-◌, String, Bool, true, false, ◌&&◌, Option, none, some, List, [], ◌∷◌, ltb, ◌==◌, string_eq,
  if◌then◌else◌,
}
use enterprise_sales_intelli.Prelude.Dict.{Dict, insert, values}
use enterprise_sales_intelli.Research.Models.{ToolStatus, success, ToolResult}

-- `ToolRun`, without the fields that only describe the run.
pub record ToolRun (D : Type 0) : Type 0 where
  pub tool_run_id : String
  pub request_hash : String
  pub status : ToolStatus
  pub retry_count : ℕ
  pub result : Option (ToolResult D)
  pub finished_at : ℕ

unfoldable pub is_success : ToolStatus → Bool
is_success success = true
is_success _ = false

module _ {D : Type 0} where
  unfoldable pub save_tool_run : ToolRun D → Dict String (ToolRun D) → Dict String (ToolRun D)
  save_tool_run r d = insert r.tool_run_id r d

  -- `v.request_hash == request_hash and v.status == "SUCCESS"`
  abbrev pub answers_request : String → ToolRun D → Bool
  answers_request hash r = r.request_hash == hash && is_success r.status

  -- `next((v for v in … if …), None)`
  unfoldable pub first_success : String → List (ToolRun D) → Option (ToolRun D)
  first_success hash [] = none
  first_success hash (r ∷ rs) = if answers_request hash r then some r else first_success hash rs

  -- `max_age_seconds is not None and (now - match.finished_at).total_seconds() > max_age_seconds`
  abbrev pub is_expired : Option ℕ → ℕ → ToolRun D → Bool
  is_expired none now r = false
  is_expired (some age) now r = ltb age (now - r.finished_at)

  unfoldable pub find_successful_tool_run :
      String → Option ℕ → ℕ → Dict String (ToolRun D) → Option (ToolRun D)
  find_successful_tool_run hash age now d = elim (first_success hash (values d)) [
    | none ↦ none
    | some r ↦ if is_expired age now r then none else some r
  ]
