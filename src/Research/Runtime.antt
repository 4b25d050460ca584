-- ===== src/Research/Runtime.antt =====
-- app/research/runtime.py, `BoundedProviderRuntime.execute`: the calls of one provider operation.
-- What the clocks, the rate limiter and the provider answer in each attempt is an argument.
pub mod Calls
mod Tests
use Prim.Native.String.{◌++◌ as str_append}
use enterprise_sales_intelli.Prelude.{
  ℕ, zero, suc, ◌+◌, String, Bool, true, false, not, ◌||◌, Option, none, some, if◌then◌else◌,
}
use enterprise_sales_intelli.Infrastructure.CircuitBreaker.{CircuitBreaker, allow, success, failure}
use enterprise_sales_intelli.Research.Models.{
  ToolOperation, enterprise_search, enterprise_profile, map_search, web_search, web_fetch, failed,
  budget_blocked, ToolResult, is_done,
}
use enterprise_sales_intelli.Infrastructure.RateLimit.{RateLimitDecision}
use enterprise_sales_intelli.Research.Budget.{BudgetGuard, reserve}

-- What one attempt meets: the times that are read, the decision of the rate limiter, if there is
-- one, and the provider's result, none on a timeout.
pub record Attempt (D : Type 0) : Type 0 where
  pub reserved_at : ℕ
  pub allowed_at : ℕ
  pub limiter : Option RateLimitDecision
  pub reply : Option (ToolResult D)
  pub failed_at : ℕ

-- What `execute` changes in its loop; `calls` is the metric `provider_calls_total`.
pub record Run (D : Type 0) : Type 0 where
  pub guard : BudgetGuard
  pub breaker : CircuitBreaker
  pub result : Option (ToolResult D)
  pub retry_count : ℕ
  pub rate_limit_wait_ms : ℕ
  pub calls : ℕ

-- The text of an operation.
unfoldable pub operation_name : ToolOperation → String
operation_name enterprise_search = "enterprise_search"
operation_name enterprise_profile = "enterprise_profile"
operation_name map_search = "map"
operation_name web_search = "web_search"
operation_name web_fetch = "web_fetch"

-- f"{provider}:{operation}"
abbrev pub circuit_key : String → ToolOperation → String
circuit_key provider o = str_append provider (str_append ":" (operation_name o))

module _ {D : Type 0} where
  -- The result that the runtime makes itself when an attempt is refused.
  abbrev pub refused : Bool → String → String → ToolResult D
  refused is_budget provider code = record {
    status = if is_budget then budget_blocked else failed;
    data_found = none;
    provider = provider;
    retryable = false;
    error_code = some code;
  }

  abbrev pub timed_out : String → ToolResult D
  timed_out provider = record {
    status = failed;
    data_found = none;
    provider = provider;
    retryable = true;
    error_code = some "PROVIDER_TIMEOUT";
  }

  abbrev pub reply_of : String → Attempt D → ToolResult D
  reply_of provider a = elim a.reply [ none ↦ timed_out provider | some r ↦ r ]

  -- `status in {SUCCESS, EMPTY} or not retryable`
  abbrev pub is_final : ToolResult D → Bool
  is_final r = is_done r.status || not r.retryable

  -- `success`, `failure` or nothing is reported to the circuit breaker.
  unfoldable pub report : String → ℕ → ToolResult D → CircuitBreaker → CircuitBreaker
  report key now r b =
      if is_done r.status then success key b else if r.retryable then failure key now b else b

  -- The provider is called in attempt `n`. The answer says whether the loop ends.
  unfoldable pub call_provider : String → ToolOperation → ℕ → Attempt D → Run D → Bool × Run D
  call_provider provider o n a run =
      let r = reply_of provider a in
      (
        is_final r,
        record run {
          breaker = report (circuit_key provider o) a.failed_at r run.breaker;
          result = some r;
          retry_count = n;
          calls = run.calls + 1;
        },
      )

  -- The rate limiter is asked, when there is one.
  unfoldable pub ask_limiter : String → ToolOperation → ℕ → Attempt D → Run D → Bool × Run D
  ask_limiter provider o n a run = elim a.limiter [
    | none ↦ call_provider provider o n a run
    | some d ↦
        let run' : Run D = record run {
          rate_limit_wait_ms = run.rate_limit_wait_ms + d.retry_after_ms;
        } in
        if not d.allowed
        then (true, record run' { result = some (refused false provider "PROVIDER_RATE_LIMITED") })
        else call_provider provider o n a run'
  ]

  unfoldable pub ask_circuit : String → ToolOperation → ℕ → Attempt D → Run D → Bool × Run D
  ask_circuit provider o n a run =
      let (allowed, breaker) = allow (circuit_key provider o) a.allowed_at run.breaker in
      let run' : Run D = record run { breaker = breaker } in
      if not allowed
      then (true, record run' { result = some (refused false provider "PROVIDER_CIRCUIT_OPEN") })
      else ask_limiter provider o n a run'

  -- The body of the loop.
  unfoldable pub attempt : String → ToolOperation → ℕ → Attempt D → Run D → Bool × Run D
  attempt provider o n a run =
      let (granted, guard) = reserve o 1 a.reserved_at run.guard in
      let run' : Run D = record run { guard = guard } in
      if not granted
      then (true, record run' { result = some (refused true provider "BUDGET_EXHAUSTED") })
      else ask_circuit provider o n a run'

  -- `for attempt in range(max_retries + 1)`: `left` attempts are left, and `n` were made.
  unfoldable pub attempts : ℕ → String → ToolOperation → ℕ → (ℕ → Attempt D) → Run D → Run D
  attempts zero provider o n world run = run
  attempts (suc left) provider o n world run =
      let (ended, run') = attempt provider o n (world n) run in
      let rest = attempts left provider o (n + 1) world run' in if ended then run' else rest

  abbrev pub start_run : BudgetGuard → CircuitBreaker → Run D
  start_run guard breaker = record {
    guard = guard;
    breaker = breaker;
    result = none;
    retry_count = 0;
    rate_limit_wait_ms = 0;
    calls = 0;
  }

  -- The loop of `execute` from its start_run.
  unfoldable pub execute_calls :
      ℕ → String → ToolOperation → (ℕ → Attempt D) → BudgetGuard → CircuitBreaker → Run D
  execute_calls max_retries provider o world guard breaker =
      attempts (max_retries + 1) provider o 0 world (start_run guard breaker)
