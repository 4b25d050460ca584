-- ===== src/Infrastructure/CircuitBreaker/Tests.antt =====
-- The circuit breaker with its default settings, in milliseconds.
use enterprise_sales_intelli.Prelude.{ℕ, ◌≤◌, ◌≡◌, refl, [], ◌∷◌, List, arith, string_eq}
use enterprise_sales_intelli.Prelude.Dict.{lookup, insert}
use enterprise_sales_intelli.Infrastructure.CircuitBreaker.{
  open_state, half_open, CircuitBreaker, circuit_of, half_opened, admit, allow, failed, failure,
}
use enterprise_sales_intelli.Infrastructure.CircuitBreaker.Probes.{
  admitted, admitted-le_probe_count, half_open-never-recovers,
}
use enterprise_sales_intelli.Infrastructure.CircuitBreaker.Threshold.{fail_all, fail_all-opens}

abbrev defaults : CircuitBreaker
defaults = record {
  failure_threshold = 5;
  open_seconds = 30000;
  half_open_probe_count = 1;
  circuits = [];
}

abbrev five : List ℕ
five = 1 ∷ 2 ∷ 3 ∷ 4 ∷ 5 ∷ []

abbrev tripped : CircuitBreaker
tripped = fail_all "map" five defaults

-- After thirty seconds one probe is let through; its caller reports nothing.
abbrev probing : CircuitBreaker
probing = (allow "map" 30005 tripped).1

program : Unit {0}
unfolding fail_all failure failed allow admit half_opened admitted lookup insert
program = tt

probing-state : (circuit_of "map" probing).state ≡ half_open
unfolding program
probing-state = refl

admitted-le_probe_count_example : (admitted "map" (6 ∷ 30005 ∷ 30006 ∷ []) tripped).0 ≤ 1
unfolding program
admitted-le_probe_count_example =
    admitted-le_probe_count "map" (6 ∷ 30005 ∷ 30006 ∷ []) tripped (λ e. cc)

half_open-never-recovers_example :
    let (n, b) = admitted "map" (30006 ∷ 99999999 ∷ []) probing in
    (n ≡ 0) × ((circuit_of "map" b).state ≡ half_open)
unfolding program
half_open-never-recovers_example =
    half_open-never-recovers "map" (30006 ∷ 99999999 ∷ []) probing refl (omega arith)

fail_all-opens_example : (circuit_of "map" (fail_all "map" five defaults)).state ≡ open_state
unfolding program
fail_all-opens_example = fail_all-opens "map" five defaults (omega arith) refl
