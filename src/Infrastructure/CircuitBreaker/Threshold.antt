-- ===== src/Infrastructure/CircuitBreaker/Threshold.antt =====
-- When a circuit opens, how long it stays open, and the invariant of every history of calls.
use enterprise_sales_intelli.Prelude.{
  ℕ, ◌+◌, ◌≤◌, ◌<◌, String, ◌≡◌, refl, sym, ◌∙◌, ap, subst, ◌⊎◌, inl, List, [], ◌∷◌, arith, length,
  All, string_eq, leb, if◌then◌else◌, false,
}
use enterprise_sales_intelli.Infrastructure.CircuitBreaker.{
  closed, open_state, half_open, Circuit, CircuitBreaker, new_circuit, circuit_of, store,
  half_opened, admit, allow, failed, failure,
}
use enterprise_sales_intelli.Infrastructure.CircuitBreaker.Probes.{
  admitted, probe, circuit_of-store,
}

-- Failures of one key at the given times, with nothing in between.
unfoldable pub fail_all : String → List ℕ → CircuitBreaker → CircuitBreaker
fail_all key [] b = b
fail_all key (now ∷ times) b = fail_all key times (failure key now b)

failure-circuit :
    (key : String) (now : ℕ) (b : CircuitBreaker)
    → circuit_of key (failure key now b) ≡ failed b now (circuit_of key b)
unfolding failure
failure-circuit key now b = circuit_of-store key (failed b now (circuit_of key b)) b

failure-threshold :
    (key : String) (now : ℕ) (b : CircuitBreaker)
    → (failure key now b).failure_threshold ≡ b.failure_threshold
unfolding failure
failure-threshold key now b = refl

-- A circuit that has counted `n` failures in a row since it was closed.
abbrev Counts : ℕ → CircuitBreaker → Circuit → Type 0
Counts n b c =
    (c.failures ≡ n)
    × ((c.state ≡ closed) × (n < b.failure_threshold)
        ⊎ (c.state ≡ open_state) × (b.failure_threshold ≤ n))

failed-Counts :
    (n now : ℕ) (b : CircuitBreaker) (c : Circuit)
    → Counts n b c
    → Counts (n + 1) b (failed b now c)
unfolding failed
failed-Counts n now b c h = ground arith

fail_all-Counts :
    (key : String) (n : ℕ) (times : List ℕ) (b : CircuitBreaker)
    → Counts n b (circuit_of key b)
    → Counts (n + length times) b (circuit_of key (fail_all key times b))
unfolding fail_all failure
fail_all-Counts key n [] b h = ground arith
fail_all-Counts key n (now ∷ times) b h =
    let counted = failed-Counts n now b (circuit_of key b) h in
    let step = subst (Counts (n + 1) b) (sym (failure-circuit key now b)) counted in
    let rest = fail_all-Counts key (n + 1) times (failure key now b) step in
    subst (λ k. Counts k b (circuit_of key (fail_all key times (failure key now b)))) (omega arith)
      rest

-- From a closed circuit without failures, and a positive threshold: after any number of failures in
-- a row the circuit is open if there were at least `failure_threshold` of them, and closed
-- otherwise.
pub fail_all-opens :
    (key : String) (times : List ℕ) (b : CircuitBreaker)
    → 0 < b.failure_threshold
    → circuit_of key b ≡ new_circuit
    → (circuit_of key (fail_all key times b)).state
      ≡ (if leb b.failure_threshold (length times) then open_state else closed)
fail_all-opens key times b pos fresh =
    let c =
      fail_all-Counts key 0 times b (subst (Counts 0 b) (sym fresh) (refl, inl (refl, pos))) in
    ground arith

probe_open :
    (b : CircuitBreaker) (now : ℕ) (c : Circuit)
    → c.state ≡ open_state
    → now < c.opened_at + b.open_seconds
    → probe b now c ≡ (false, c)
unfolding admit half_opened
probe_open b now c h before = ground arith

allow_open :
    (key : String) (now : ℕ) (b : CircuitBreaker)
    → (circuit_of key b).state ≡ open_state
    → now < (circuit_of key b).opened_at + b.open_seconds
    → allow key now b ≡ (false, store key (circuit_of key b) b)
unfolding allow
allow_open key now b h before = rw (probe_open b now (circuit_of key b) h before)

open_refuses :
    (key : String) (opened : ℕ) (times : List ℕ) (b : CircuitBreaker)
    → (circuit_of key b).state ≡ open_state
    → (circuit_of key b).opened_at ≡ opened
    → All (λ now. now < opened + b.open_seconds) times
    → (admitted key times b).0 ≡ 0
unfolding admitted
open_refuses key opened [] b h at before = refl
open_refuses key opened (now ∷ times) b h at before =
    let b' = store key (circuit_of key b) b in
    let same = circuit_of-store key (circuit_of key b) b in
    let rest =
      open_refuses key opened times b' (ap (λ (c : Circuit). c.state) same ∙ h)
        (ap (λ (c : Circuit). c.opened_at) same ∙ at) before.1 in
    rw (allow_open key now b h (omega (arith, at, before.0))) rest

failed_trips :
    (b : CircuitBreaker) (now : ℕ) (c : Circuit)
    → (c.state ≡ half_open) ⊎ (b.failure_threshold ≤ c.failures + 1)
    → ((failed b now c).state ≡ open_state) × ((failed b now c).opened_at ≡ now)
unfolding failed
failed_trips b now c h = ground arith

failure-open_seconds :
    (key : String) (now : ℕ) (b : CircuitBreaker)
    → (failure key now b).open_seconds ≡ b.open_seconds
unfolding failure
failure-open_seconds key now b = refl

-- A failure of a half-open circuit, or one that reaches the threshold, shuts the circuit: no call
-- that comes less than `open_seconds` after it is let through.
pub failure-refuses :
    (key : String) (now : ℕ) (times : List ℕ) (b : CircuitBreaker)
    → ((circuit_of key b).state ≡ half_open)
      ⊎ (b.failure_threshold ≤ (circuit_of key b).failures + 1)
    → All (λ t. t < now + b.open_seconds) times
    → (admitted key times (failure key now b)).0 ≡ 0
failure-refuses key now times b trips before =
    let (shut, stamped) = failed_trips b now (circuit_of key b) trips in
    let e = failure-circuit key now b in
    open_refuses key now times (failure key now b) (ap (λ (c : Circuit). c.state) e ∙ shut)
      (ap (λ (c : Circuit). c.opened_at) e ∙ stamped)
      (subst (λ n. All (λ t. t < now + n) times) (sym (failure-open_seconds key now b)) before)
