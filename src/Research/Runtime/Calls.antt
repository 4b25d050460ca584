-- ===== src/Research/Runtime/Calls.antt =====
-- How often a provider is called, and what comes back.
use enterprise_sales_intelli.Prelude.{
  ℕ, zero, suc, ◌+◌, ◌≤◌, ◌≡◌, refl, sym, ap, ◌∙◌, subst, inl, inr, ◌⊎◌, String, Bool, true, false,
  some, if◌then◌else◌, arith, Bool-cases, Option-cases,
}
use enterprise_sales_intelli.Infrastructure.CircuitBreaker.{CircuitBreaker, allow}
use enterprise_sales_intelli.Research.Models.{ToolOperation, ToolResult, is_done, ResearchBudget}
use enterprise_sales_intelli.Research.Budget.{BudgetGuard, reserve}
use enterprise_sales_intelli.Research.Budget.Bounds.{
  IsWithin, reserve_cases, reserve-IsWithin, count-tool_calls,
}
use enterprise_sales_intelli.Research.Runtime.{
  Attempt, Run, circuit_key, reply_of, is_final, call_provider, ask_limiter, ask_circuit, attempt,
  attempts, execute_calls, refused, start_run,
}

module _ {D : Type 0} (provider : String) (o : ToolOperation) where
  -- What one attempt does.
  pub record Made (n : ℕ) (run : Run D) (ended : Bool) (next : Run D) : Type 0 where
    pub called : next.calls ≤ run.calls + 1
    pub paid : next.calls + run.guard.used.tool_calls ≤ run.calls + next.guard.used.tool_calls
    pub within : IsWithin run.guard → IsWithin next.guard
    pub budgeted : next.guard.budget ≡ run.guard.budget
    -- The loop goes on only after a call whose result may be retried.
    pub goes_on :
        ended ≡ false
        → (r : ToolResult D) × (next.result ≡ some r)
          × (is_final r ≡ false)
          × (next.retry_count ≡ n)
    pub ends : ended ≡ true → (r : ToolResult D) × (next.result ≡ some r) × (is_final r ≡ true)

  -- What the part of an attempt after the reservation does.
  pub record Asked (n : ℕ) (run : Run D) (ended : Bool) (next : Run D) : Type 0 where
    pub called : next.calls ≤ run.calls + 1
    pub guarded : next.guard ≡ run.guard
    pub goes_on :
        ended ≡ false
        → (r : ToolResult D) × (next.result ≡ some r)
          × (is_final r ≡ false)
          × (next.retry_count ≡ n)
    pub ends : ended ≡ true → (r : ToolResult D) × (next.result ≡ some r) × (is_final r ≡ true)

  call_provider-Asked :
      (n : ℕ) (a : Attempt D) (run : Run D)
      → Asked n run (call_provider provider o n a run).0 (call_provider provider o n a run).1
  unfolding call_provider
  call_provider-Asked n a run = record {
    called = omega arith;
    guarded = refl;
    goes_on = λ e. (reply_of provider a, refl, e, refl);
    ends = λ e. (reply_of provider a, refl, e);
  }

  ask_limiter-Asked :
      (n : ℕ) (a : Attempt D) (run : Run D)
      → Asked n run (ask_limiter provider o n a run).0 (ask_limiter provider o n a run).1
  unfolding ask_limiter is_done
  ask_limiter-Asked n a run = elim (Option-cases a.limiter) [
    | inl free ↦ rw (free, ask_limiter) (call_provider-Asked n a run)
    | inr (d, asked) ↦
        let waited : Run D = record run {
          rate_limit_wait_ms = run.rate_limit_wait_ms + d.retry_after_ms;
        } in
        elim (Bool-cases d.allowed) [
          | inl go ↦
              let r = call_provider-Asked n a waited in
              rw (asked, go, ask_limiter)
                (record {
                  called = r.called;
                  guarded = r.guarded;
                  goes_on = r.goes_on;
                  ends = r.ends;
                })
          | inr stop ↦
              rw (asked, stop, ask_limiter)
                (record {
                  called = omega arith;
                  guarded = refl;
                  goes_on = λ e. absurd (cc);
                  ends = λ e. (refused false provider "PROVIDER_RATE_LIMITED", refl, refl);
                })
        ]
  ]

  ask_circuit-Asked :
      (n : ℕ) (a : Attempt D) (run : Run D)
      → Asked n run (ask_circuit provider o n a run).0 (ask_circuit provider o n a run).1
  unfolding ask_circuit is_done
  ask_circuit-Asked n a run =
      let b = allow (circuit_key provider o) a.allowed_at run.breaker in
      elim (Bool-cases b.0) [
        | inl go ↦
            let r = ask_limiter-Asked n a (record run { breaker = b.1 }) in
            rw (go, ask_circuit)
              (record {
                called = r.called;
                guarded = r.guarded;
                goes_on = r.goes_on;
                ends = r.ends;
              })
        | inr stop ↦
            rw (stop, ask_circuit)
              (record {
                called = omega arith;
                guarded = refl;
                goes_on = λ e. absurd (cc);
                ends = λ e. (refused false provider "PROVIDER_CIRCUIT_OPEN", refl, refl);
              })
      ]

  attempt-Made :
      (n : ℕ) (a : Attempt D) (run : Run D)
      → Made n run (attempt provider o n a run).0 (attempt provider o n a run).1
  unfolding attempt is_done
  attempt-Made n a run = elim (reserve_cases o 1 a.reserved_at run.guard) [
    | inl blocked ↦
        rw (blocked, attempt)
          (record {
            called = omega arith;
            paid = omega arith;
            within = λ w. w;
            budgeted = refl;
            goes_on = λ e. absurd (cc);
            ends = λ e. (refused true provider "BUDGET_EXHAUSTED", refl, refl);
          })
    | inr (granted, g) ↦
        let h = (reserve o 1 a.reserved_at run.guard).1 in
        let r = ask_circuit-Asked n a (record run { guard = h }) in
        let after = (ask_circuit provider o n a (record run { guard = h })).1 in
        let counted : h.used.tool_calls ≡ run.guard.used.tool_calls + 1 =
          ap (λ (k : BudgetGuard). k.used.tool_calls) g.counted
          ∙ count-tool_calls o 1 run.guard.used in
        let same : after.guard.used.tool_calls ≡ h.used.tool_calls =
          ap (λ (k : BudgetGuard). k.used.tool_calls) r.guarded in
        rw (granted, attempt)
          (record {
            called = r.called;
            paid = omega (arith, counted, same, r.called);
            within = λ w.
                subst IsWithin (sym r.guarded) (reserve-IsWithin o 1 a.reserved_at run.guard w);
            budgeted =
                ap (λ (k : BudgetGuard). k.budget) r.guarded
                ∙ ap (λ (k : BudgetGuard). k.budget) g.counted;
            goes_on = r.goes_on;
            ends = r.ends;
          })
  ]

  -- What the loop does from attempt `n` on, when `left` attempts are left.
  record Looped (left : ℕ) (run last : Run D) : Type 0 where
    called : last.calls ≤ run.calls + left
    paid : last.calls + run.guard.used.tool_calls ≤ run.calls + last.guard.used.tool_calls
    within : IsWithin run.guard → IsWithin last.guard
    budgeted : last.guard.budget ≡ run.guard.budget

  attempts-Looped :
      (left n : ℕ) (world : ℕ → Attempt D) (run : Run D)
      → Looped left run (attempts left provider o n world run)
  unfolding attempts
  attempts-Looped zero n world run = record {
    called = omega arith;
    paid = omega arith;
    within = λ w. w;
    budgeted = refl;
  }
  attempts-Looped (suc left) n world run =
      let m = attempt-Made n (world n) run in
      let next = (attempt provider o n (world n) run).1 in
      elim (Bool-cases (attempt provider o n (world n) run).0) [
        | inl ended ↦
            rw (ended, attempts)
              (record {
                called = omega (arith, m.called);
                paid = m.paid;
                within = m.within;
                budgeted = m.budgeted;
              })
        | inr going ↦
            let l = attempts-Looped left (n + 1) world next in
            rw (going, attempts)
              (record {
                called = omega (arith, m.called, l.called);
                paid = omega (arith, m.paid, l.paid);
                within = λ w. l.within (m.within w);
                budgeted = l.budgeted ∙ m.budgeted;
              })
      ]

  -- There is a result, and one that may be retried is from the last attempt `last`.
  abbrev pub Answers : ℕ → Run D → Type 0
  Answers last run =
      (r : ToolResult D) × (run.result ≡ some r) × ((is_final r ≡ true) ⊎ (run.retry_count ≡ last))

  attempts-suc :
      (left n : ℕ) (world : ℕ → Attempt D) (run : Run D)
      → attempts (suc left) provider o n world run ≡ (
          if (attempt provider o n (world n) run).0
          then (attempt provider o n (world n) run).1
          else attempts left provider o (n + 1) world (attempt provider o n (world n) run).1)
  unfolding attempts
  attempts-suc left n world run = refl

  attempts-zero :
      (n : ℕ) (world : ℕ → Attempt D) (run : Run D) → attempts zero provider o n world run ≡ run
  unfolding attempts
  attempts-zero n world run = refl

  ended-Answers :
      (left n : ℕ) (world : ℕ → Attempt D) (run : Run D)
      → (attempt provider o n (world n) run).0 ≡ true
      → Answers (n + left) (attempts (suc left) provider o n world run)
  ended-Answers left n world run ended =
      let m = attempt-Made n (world n) run in
      let (r, found, final) = m.ends ended in
      rw (attempts-suc left n world run, ended) (r, found, inl final)

  attempts-Answers :
      (left n : ℕ) (world : ℕ → Attempt D) (run : Run D)
      → Answers (n + left) (attempts (suc left) provider o n world run)
  attempts-Answers zero n world run = elim (Bool-cases (attempt provider o n (world n) run).0) [
    | inl ended ↦ ended-Answers zero n world run ended
    | inr going ↦
        let m = attempt-Made n (world n) run in
        let (r, found, again, last) = m.goes_on going in
        let next = (attempt provider o n (world n) run).1 in
        rw (attempts-suc zero n world run, going, attempts-zero (n + 1) world next)
          (r, found, inr (omega (arith, last)))
  ]
  attempts-Answers (suc left) n world run =
      elim (Bool-cases (attempt provider o n (world n) run).0) [
        | inl ended ↦ ended-Answers (suc left) n world run ended
        | inr going ↦
            let next = (attempt provider o n (world n) run).1 in
            let rest = attempts-Answers left (n + 1) world next in
            let same : n + 1 + left ≡ n + suc left = omega arith in
            rw (attempts-suc (suc left) n world run, going)
              (subst (λ k. Answers k (attempts (suc left) provider o (n + 1) world next)) same rest)
      ]

  module _ (m : ℕ) (world : ℕ → Attempt D) (guard : BudgetGuard) (breaker : CircuitBreaker) where
    -- From a guard within its budget, and for whatever the clocks, the limiter and the provider
    -- answer: the provider is called at most `max_retries + 1` times, each call is paid from the
    -- budget, the total of calls stays within `max_tool_calls`, and the guard stays within its
    -- budget.
    pub execute_calls-IsBounded :
        IsWithin guard
        → let last = execute_calls m provider o world guard breaker in
          (last.calls ≤ m + 1)
          × (last.calls + guard.used.tool_calls ≤ guard.budget.max_tool_calls)
          × IsWithin last.guard
    unfolding execute_calls
    execute_calls-IsBounded w =
        let l = attempts-Looped (m + 1) 0 world (start_run guard breaker) in
        let last = execute_calls m provider o world guard breaker in
        let kept : last.guard.budget.max_tool_calls ≡ guard.budget.max_tool_calls =
          ap (λ (b : ResearchBudget). b.max_tool_calls) l.budgeted in
        let v : IsWithin last.guard = l.within w in
        (omega (arith, l.called), omega (arith, l.paid, v.calls, kept), v)

    -- The loop always has a result, and a result that may be retried is only returned from the last
    -- attempt.
    pub execute_calls-Answers : Answers m (execute_calls m provider o world guard breaker)
    unfolding execute_calls
    execute_calls-Answers =
        let same : m + 1 ≡ suc m = omega arith in
        subst (λ k. Answers m (attempts k provider o 0 world (start_run guard breaker))) (sym same)
          (subst (λ k. Answers k (attempts (suc m) provider o 0 world (start_run guard breaker)))
            (omega arith) (attempts-Answers m 0 world (start_run guard breaker)))
