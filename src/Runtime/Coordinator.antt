-- ===== src/Runtime/Coordinator.antt =====
-- app/runtime/leases.py: the state of `InMemoryExecutionCoordinator`, what its calls read, and how
-- they find a run.
use mathlib.Core.List.{[]}
use enterprise_sales_intelli.Prelude.{
  ℕ, ◌*◌, String, Bool, false, Option, none, some, ◌==◌, get_or, string_eq, pair_eq,
}
use enterprise_sales_intelli.Prelude.Dict.{Dict, lookup}
use enterprise_sales_intelli.Runtime.Models.{ExecutionRun, ClaimError}

-- (workspace_id, thread_id), or (workspace_id, request_id)
abbrev pub Key : Type 0
Key = String × String

pub record Coordinator (P : Type 0) : Type 0 where
  pub runs : Dict String (ExecutionRun P)
  pub requests : Dict Key String
  pub active : Dict Key String
  pub fences : Dict Key ℕ

-- The arguments of `claim`.
pub record ClaimRequest : Type 0 where
  pub request_id : String
  pub thread_id : String
  pub workspace_id : String
  pub user_id : String
  pub owner : String
  pub lease_seconds : ℕ
  pub trace_id : String

-- What one call of `claim` reads of the clock, and the identifier that a new run gets.
pub record ClaimEnv : Type 0 where
  pub now : ℕ
  pub started_at : ℕ
  pub new_run_id : String

pub data Result (A : Type 0) : Type 0 where
  ok : A → Result A
  err : ClaimError → Result A

-- `timedelta(seconds=n)`
abbrev pub seconds : ℕ → ℕ
seconds n = n * 1000000

abbrev pub claim_key : ClaimRequest → Key
claim_key a = (a.workspace_id, a.thread_id)

abbrev pub request_key : ClaimRequest → Key
request_key a = (a.workspace_id, a.request_id)

abbrev pub opt_eq : Option String → String → Bool
opt_eq none r = false
opt_eq (some q) r = q == r

module _ {P : Type 0} where
  abbrev pub empty : Coordinator P
  empty = record { runs = []; requests = []; active = []; fences = [] }

  abbrev pub thread_of : ExecutionRun P → Key
  thread_of run = (run.workspace_id, run.thread_id)

  abbrev pub fence_of : Key → Coordinator P → ℕ
  fence_of key s = get_or (lookup key s.fences) 0

  -- `self._runs.get(found or "")`
  abbrev pub find_run : Option String → Coordinator P → Option (ExecutionRun P)
  find_run found s = lookup (get_or found "") s.runs

  abbrev pub prior_run : Key → Coordinator P → Option (ExecutionRun P)
  prior_run request s = find_run (lookup request s.requests) s

  abbrev pub active_run : Key → Coordinator P → Option (ExecutionRun P)
  active_run key s = find_run (lookup key s.active) s
