-- ===== src/Infrastructure/CircuitBreaker.antt =====
-- app/infrastructure/circuit_breaker.py. Every method runs under one lock. `now` is what
-- `monotonic` returns, in the unit of `open_seconds`; both are whole numbers here.
pub mod Probes
pub mod Threshold
mod Tests
use enterprise_sales_intelli.Prelude.{
  ℕ, ◌+◌, ◌-◌, String, Bool, true, false, ◌&&◌, ◌||◌, leb, if◌then◌else◌, get_or, string_eq,
}
use enterprise_sales_intelli.Prelude.Dict.{Dict, lookup, insert}

pub data CircuitState : Type 0 where
  closed open_state half_open : CircuitState

pub record Circuit : Type 0 where
  pub state : CircuitState
  pub failures : ℕ
  pub opened_at : ℕ
  pub half_open_inflight : ℕ

pub record CircuitBreaker : Type 0 where
  pub failure_threshold : ℕ
  pub open_seconds : ℕ
  pub half_open_probe_count : ℕ
  pub circuits : Dict String Circuit

-- `_Circuit()`
abbrev pub new_circuit : Circuit
new_circuit = record { state = closed; failures = 0; opened_at = 0; half_open_inflight = 0 }

abbrev pub is_open : CircuitState → Bool
is_open open_state = true
is_open _ = false

abbrev pub is_half_open : CircuitState → Bool
is_half_open half_open = true
is_half_open _ = false

-- `self._circuits.setdefault(key, _Circuit())`, and `.get(key, _Circuit())`
abbrev pub circuit_of : String → CircuitBreaker → Circuit
circuit_of key b = get_or (lookup key b.circuits) new_circuit

abbrev pub store : String → Circuit → CircuitBreaker → CircuitBreaker
store key c b = record b { circuits = insert key c b.circuits }

-- The first test of `allow`: an open circuit whose time is over turns half open.
unfoldable pub half_opened : CircuitBreaker → ℕ → Circuit → Circuit
half_opened b now c =
    if is_open c.state && leb (c.opened_at + b.open_seconds) now
    then record c { state = half_open; half_open_inflight = 0 }
    else c

-- The other tests: the answer, and the circuit as it is left.
unfoldable pub admit : CircuitBreaker → Circuit → Bool × Circuit
admit b c =
    if is_open c.state
    then (false, c)
    else if is_half_open c.state
    then (if leb b.half_open_probe_count c.half_open_inflight
        then (false, c)
        else (true, record c { half_open_inflight = c.half_open_inflight + 1 }))
    else (true, c)

unfoldable pub allow : String → ℕ → CircuitBreaker → Bool × CircuitBreaker
allow key now b =
    let (answer, c) = admit b (half_opened b now (circuit_of key b)) in (answer, store key c b)

unfoldable pub success : String → CircuitBreaker → CircuitBreaker
success key b = store key new_circuit b

-- One failure of a circuit.
unfoldable pub failed : CircuitBreaker → ℕ → Circuit → Circuit
failed b now c =
    let c' = record c {
      failures = c.failures + 1;
      half_open_inflight = c.half_open_inflight - 1;
    } in
    if is_half_open c'.state || leb b.failure_threshold c'.failures
    then record c' { state = open_state; opened_at = now }
    else c'

unfoldable pub failure : String → ℕ → CircuitBreaker → CircuitBreaker
failure key now b = store key (failed b now (circuit_of key b)) b

unfoldable pub state : String → CircuitBreaker → CircuitState
state key b = (circuit_of key b).state
