-- ===== src/Research/Runtime/Tests.antt =====
-- A search whose first call times out and whose second succeeds, on a budget of two calls.
use enterprise_sales_intelli.Prelude.{
  ℕ, zero, suc, ◌+◌, ◌≤◌, ◌≡◌, refl, String, false, none, some, [], arith, string_eq,
}
use enterprise_sales_intelli.Prelude.Dict.{lookup, insert}
use enterprise_sales_intelli.Infrastructure.CircuitBreaker.{
  CircuitBreaker, half_opened, admit, allow, success, failed, failure,
}
use enterprise_sales_intelli.Research.Models.{
  map_search, ResearchBudget, ToolResult, success as found_status, is_done,
}
use enterprise_sales_intelli.Research.Budget.{BudgetGuard, Used, limit, used_of, count, reserve}
use enterprise_sales_intelli.Research.Budget.Bounds.{IsWithin}
use enterprise_sales_intelli.Research.Runtime.{
  Attempt, operation_name, report, call_provider, ask_limiter, ask_circuit, attempt, attempts,
  execute_calls,
}
use enterprise_sales_intelli.Research.Runtime.Calls.{
  Answers, execute_calls-IsBounded, execute_calls-Answers,
}

program : Unit {0}
unfolding lookup insert half_opened admit allow success failed failure is_done limit used_of count
    reserve operation_name report call_provider ask_limiter ask_circuit attempt attempts
    execute_calls
program = tt

abbrev small : ResearchBudget
small = record {
  max_tool_calls = 2;
  max_enterprise_search_calls = 2;
  max_enterprise_profile_calls = 2;
  max_map_calls = 2;
  max_web_search_calls = 2;
  max_web_fetch_calls = 2;
  max_web_pages = 2;
  max_runtime_seconds = 600;
}

abbrev unused : Used
unused = record {
  tool_calls = 0;
  enterprise_searches = 0;
  enterprise_profiles = 0;
  maps = 0;
  web_searches = 0;
  web_fetches = 0;
  web_pages = 0;
}

abbrev guard : BudgetGuard
guard = record { budget = small; used = unused; started_at = 100 }

abbrev breaker : CircuitBreaker
breaker = record {
  failure_threshold = 5;
  open_seconds = 30;
  half_open_probe_count = 1;
  circuits = [];
}

abbrev found : ToolResult String
found = record {
  status = found_status;
  data_found = some "Acme";
  provider = "amap";
  retryable = false;
  error_code = none;
}

abbrev world : ℕ → Attempt String
world zero = record {
  reserved_at = 101;
  allowed_at = 101;
  limiter = none;
  reply = none;
  failed_at = 131;
}
world (suc n) = record {
  reserved_at = 132;
  allowed_at = 132;
  limiter = none;
  reply = some found;
  failed_at = 133;
}

guard-IsWithin : IsWithin guard
unfolding used_of limit
guard-IsWithin = record {
  calls = omega arith;
  operations = λ q. grind arith;
  pages = omega arith;
  total = refl;
}

second_found : (execute_calls 3 "amap" map_search world guard breaker).result ≡ some found
unfolding program
second_found = refl

two_calls : (execute_calls 3 "amap" map_search world guard breaker).calls ≡ 2
unfolding program
two_calls = refl

execute_calls-IsBounded_example :
    let last = execute_calls 3 "amap" map_search world guard breaker in
    (last.calls ≤ 3 + 1) × (last.calls + 0 ≤ 2) × IsWithin last.guard
execute_calls-IsBounded_example =
    execute_calls-IsBounded "amap" map_search 3 world guard breaker guard-IsWithin

execute_calls-Answers_example :
    Answers "amap" map_search 3 (execute_calls 3 "amap" map_search world guard breaker)
execute_calls-Answers_example = execute_calls-Answers "amap" map_search 3 world guard breaker
