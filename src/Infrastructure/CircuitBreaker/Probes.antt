-- ===== src/Infrastructure/CircuitBreaker/Probes.antt =====
-- How many calls a circuit lets through while it is not closed.
use enterprise_sales_intelli.Prelude.{
  ℕ, ◌+◌, ◌-◌, ◌≤◌, String, ◌≡◌, refl, sym, ◌∙◌, ap, subst, ◌≢◌, Bool, false, List, [], ◌∷◌, arith,
  string_eq, get_or, if◌then◌else◌,
}
use enterprise_sales_intelli.Prelude.Dict.{lookup-insert_self, lookup-insert_ne}
use enterprise_sales_intelli.Infrastructure.CircuitBreaker.{
  closed, open_state, half_open, Circuit, CircuitBreaker, new_circuit, circuit_of, store,
  half_opened, admit, allow,
}

-- The answers of `allow` to calls of one key at the given times: how many were let through.
unfoldable pub admitted : String → List ℕ → CircuitBreaker → ℕ × CircuitBreaker
admitted key [] b = (0, b)
admitted key (now ∷ times) b =
    let (answer, b') = allow key now b in
    let (n, b'') = admitted key times b' in ((if answer then n + 1 else n), b'')

pub circuit_of-store :
    (key : String) (c : Circuit) (b : CircuitBreaker) → circuit_of key (store key c b) ≡ c
circuit_of-store key c b = ap (λ o. get_or o new_circuit) (lookup-insert_self key c b.circuits)

-- A call on one key leaves the circuits of the others alone.
pub circuit_of-store_ne :
    (key other : String) (c : Circuit) (b : CircuitBreaker)
    → key ≢ other
    → circuit_of other (store key c b) ≡ circuit_of other b
circuit_of-store_ne key other c b h =
    ap (λ o. get_or o new_circuit) (lookup-insert_ne other key c b.circuits h)

-- The probes that a circuit may still let through before it hears of a result.
abbrev pub budget : CircuitBreaker → Circuit → ℕ
budget b c = elim c.state [
  | closed ↦ 0
  | open_state ↦ b.half_open_probe_count
  | half_open ↦ b.half_open_probe_count - c.half_open_inflight
]

abbrev IsTripped : Circuit → Type 0
IsTripped c = c.state ≢ closed

-- The circuit as one call of `allow` leaves it, with the answer.
abbrev pub probe : CircuitBreaker → ℕ → Circuit → Bool × Circuit
probe b now c = admit b (half_opened b now c)

-- A circuit that is not closed stays so, and each call let through uses up one probe.
probe-budget :
    (b : CircuitBreaker) (now : ℕ) (c : Circuit)
    → IsTripped c
    → IsTripped (probe b now c).1
      × ((if (probe b now c).0 then 1 else 0) + budget b (probe b now c).1 ≤ budget b c)
unfolding admit half_opened
probe-budget b now c h = ground arith

allow-circuit :
    (key : String) (now : ℕ) (b : CircuitBreaker)
    → circuit_of key (allow key now b).1 ≡ (probe b now (circuit_of key b)).1
unfolding allow
allow-circuit key now b = circuit_of-store key (probe b now (circuit_of key b)).1 b

allow-answer :
    (key : String) (now : ℕ) (b : CircuitBreaker)
    → ((allow key now b).0 ≡ (probe b now (circuit_of key b)).0)
      × ((allow key now b).1.half_open_probe_count ≡ b.half_open_probe_count)
unfolding allow
allow-answer key now b = (refl, refl)

allow-budget :
    (key : String) (now : ℕ) (b : CircuitBreaker)
    → IsTripped (circuit_of key b)
    → IsTripped (circuit_of key (allow key now b).1)
      × ((if (allow key now b).0 then 1 else 0)
            + budget (allow key now b).1 (circuit_of key (allow key now b).1)
          ≤ budget b (circuit_of key b))
unfolding allow
allow-budget key now b h =
    let c = (probe b now (circuit_of key b)).1 in
    subst
      (λ d.
        IsTripped d
        × ((if (probe b now (circuit_of key b)).0 then 1 else 0) + budget b d
            ≤ budget b (circuit_of key b)))
      (sym (circuit_of-store key c b)) (probe-budget b now (circuit_of key b) h)

admitted-le_budget :
    (key : String) (times : List ℕ) (b : CircuitBreaker)
    → IsTripped (circuit_of key b)
    → (admitted key times b).0 ≤ budget b (circuit_of key b)
unfolding admitted
admitted-le_budget key [] b h = omega arith
admitted-le_budget key (now ∷ times) b h =
    let (tripped, spent) = allow-budget key now b h in
    let rest = admitted-le_budget key times (allow key now b).1 tripped in ground arith

budget-le : (b : CircuitBreaker) (c : Circuit) → budget b c ≤ b.half_open_probe_count
budget-le b c = ground arith

-- While no result is reported, a circuit that is open or half open lets through at most
-- `half_open_probe_count` calls, whenever and however often it is asked.
pub admitted-le_probe_count :
    (key : String) (times : List ℕ) (b : CircuitBreaker)
    → (circuit_of key b).state ≢ closed
    → (admitted key times b).0 ≤ b.half_open_probe_count
admitted-le_probe_count key times b h =
    omega (arith, admitted-le_budget key times b h, budget-le b (circuit_of key b))

probe_exhausted :
    (b : CircuitBreaker) (now : ℕ) (c : Circuit)
    → c.state ≡ half_open
    → b.half_open_probe_count ≤ c.half_open_inflight
    → probe b now c ≡ (false, c)
unfolding admit half_opened
probe_exhausted b now c h full = ground arith

allow_exhausted :
    (key : String) (now : ℕ) (b : CircuitBreaker)
    → (circuit_of key b).state ≡ half_open
    → b.half_open_probe_count ≤ (circuit_of key b).half_open_inflight
    → allow key now b ≡ (false, store key (circuit_of key b) b)
unfolding allow
allow_exhausted key now b h full = rw (probe_exhausted b now (circuit_of key b) h full)

-- A half-open circuit whose probes are all taken, and whose callers report neither a success nor a
-- failure, never lets a call through again: it is half open for ever, at whatever times it is
-- asked.
pub half_open-never-recovers :
    (key : String) (times : List ℕ) (b : CircuitBreaker)
    → (circuit_of key b).state ≡ half_open
    → b.half_open_probe_count ≤ (circuit_of key b).half_open_inflight
    → let (n, b') = admitted key times b in (n ≡ 0) × ((circuit_of key b').state ≡ half_open)
unfolding admitted
half_open-never-recovers key [] b h full = (refl, h)
half_open-never-recovers key (now ∷ times) b h full =
    let b' = store key (circuit_of key b) b in
    let same = circuit_of-store key (circuit_of key b) b in
    let rest =
      half_open-never-recovers key times b' (ap (λ (c : Circuit). c.state) same ∙ h)
        (subst (λ c. b.half_open_probe_count ≤ c.half_open_inflight) (sym same) full) in
    rw (allow_exhausted key now b h full) rest
