-- ===== src/Runtime/Leases.antt =====
-- app/runtime/leases.py, `InMemoryExecutionCoordinator`. Every method runs under one lock, so it is
-- a function of the state; what `datetime.now` and `uuid4` return is an argument.
pub mod Invariant
pub mod Install
pub mod Outcome
pub mod Growth
pub mod Steps
pub mod Histories
pub mod Fencing
pub mod Claims
pub mod Exclusion
pub mod Settled
pub mod Answering
pub mod Replays
pub mod Eviction
mod Tests
use mathlib.Core.List.{[]}
use enterprise_sales_intelli.Prelude.{
  ℕ, ◌+◌, ◌*◌, String, Bool, true, false, not, ◌&&◌, ◌||◌, Option, none, some, ◌==◌, ltb, eqb,
  if◌then◌else◌, is_some, get_or, string_eq, pair_eq,
}
use enterprise_sales_intelli.Prelude.Dict.{Dict, lookup, insert, erase}
pub use enterprise_sales_intelli.Runtime.Coordinator.{
  Key, Coordinator, ClaimRequest, ClaimEnv, Result, ok, err, seconds, claim_key, request_key,
  opt_eq, empty, thread_of, fence_of, find_run, prior_run, active_run,
}
use enterprise_sales_intelli.Runtime.Models.{
  ExecutionRunStatus, running, recoverable, ExecutionRun, ClaimError, run_already_claimed,
  is_active, is_reclaimable, is_paused,
}

module _ {P : Type 0} where
  -- An active run whose lease has not run out.
  unfoldable pub is_leased : ℕ → Option (ExecutionRun P) → Bool
  is_leased now none = false
  is_leased now (some run) =
      is_active run.status
      && elim run.lease_expires_at [ none ↦ false | some expires ↦ ltb now expires ]

  -- An active run that is not leased loses its claim on the thread.
  unfoldable pub release_expired : Option (ExecutionRun P) → Coordinator P → Coordinator P
  release_expired none s = s
  release_expired (some run) s =
      if is_active run.status
      then record s { runs = insert run.run_id (record run { status = recoverable }) s.runs }
      else s

  -- The run takes the thread over, with the next fence token.
  unfoldable pub install : Key → ExecutionRun P → Coordinator P → Coordinator P
  install key run s = record s {
    runs = insert run.run_id run s.runs;
    active = insert key run.run_id s.active;
    fences = insert key run.fence_token s.fences;
  }

  abbrev pub reclaimed : ClaimRequest → ClaimEnv → ℕ → ExecutionRun P → ExecutionRun P
  reclaimed a env fence prior = record prior {
    status = running;
    lease_owner = some a.owner;
    lease_expires_at = some (env.now + seconds a.lease_seconds);
    heartbeat_at = some env.now;
    fence_token = fence;
    trace_id = some a.trace_id;
    response_data = none;
    error_code = none;
    started_at = env.now;
    finished_at = none;
  }

  abbrev pub new_run : ClaimRequest → ClaimEnv → ℕ → ExecutionRun P
  new_run a env fence = record {
    run_id = env.new_run_id;
    request_id = a.request_id;
    thread_id = a.thread_id;
    workspace_id = a.workspace_id;
    user_id = a.user_id;
    task_id = none;
    task_version = none;
    status = running;
    lease_owner = some a.owner;
    lease_expires_at = some (env.now + seconds a.lease_seconds);
    fence_token = fence;
    trace_id = some a.trace_id;
    response_data = none;
    error_code = none;
    started_at = env.started_at;
    heartbeat_at = some env.now;
    finished_at = none;
  }

  abbrev pub refuse : ClaimRequest → Coordinator P → Result (ExecutionRun P) × Coordinator P
  refuse a s = (err (run_already_claimed a.thread_id), s)

  -- The fence token that the claim would get; `s` is the state after `release_expired`.
  abbrev pub next_fence : ClaimRequest → Coordinator P → ℕ
  next_fence a s = fence_of (claim_key a) s + 1

  unfoldable pub resume :
      ClaimRequest
      → ClaimEnv
      → ExecutionRun P
      → Coordinator P
      → Result (ExecutionRun P) × Coordinator P
  resume a env prior s =
      if not (prior.thread_id == a.thread_id) || not (is_reclaimable prior.status)
      then refuse a s
      else (let run = reclaimed a env (next_fence a s) prior in
          (ok run, install (claim_key a) run s))

  unfoldable pub start :
      ClaimRequest → ClaimEnv → Coordinator P → Result (ExecutionRun P) × Coordinator P
  start a env s =
      let run = new_run a env (next_fence a s) in
      let s' = install (claim_key a) run s in
      (ok run, record s' { requests = insert (request_key a) run.run_id s'.requests })

  -- The rest of `claim`, once the prior run of the request was looked up and has no response.
  unfoldable pub claim_thread :
      Option (ExecutionRun P)
      → ClaimRequest
      → ClaimEnv
      → Coordinator P
      → Result (ExecutionRun P) × Coordinator P
  claim_thread prior a env s =
      let active = active_run (claim_key a) s in
      if is_leased env.now active
      then refuse a s
      else (let s' = release_expired active s in
          elim prior [ none ↦ start a env s' | some run ↦ resume a env run s' ])

  abbrev pub has_response : Option (ExecutionRun P) → Bool
  has_response none = false
  has_response (some run) = is_some run.response_data

  unfoldable pub claim :
      ClaimRequest → ClaimEnv → Coordinator P → Result (ExecutionRun P) × Coordinator P
  claim a env s =
      let prior = prior_run (request_key a) s in
      elim prior [
        | none ↦ claim_thread none a env s
        | some run ↦
            if is_some run.response_data then (ok run, s) else claim_thread (some run) a env s
      ]

  -- A run that exists and carries the fence token.
  abbrev pub holds_fence : ℕ → Option (ExecutionRun P) → Bool
  holds_fence fence none = false
  holds_fence fence (some run) = eqb run.fence_token fence

  unfoldable pub heartbeat : String → ℕ → ℕ → ℕ → Coordinator P → Bool × Coordinator P
  heartbeat run_id fence lease_seconds now s = elim (lookup run_id s.runs) [
    | none ↦ (false, s)
    | some run ↦
        if not (eqb run.fence_token fence) || not (is_active run.status)
        then (false, s)
        else (let run' = record run {
          heartbeat_at = some now;
          lease_expires_at = some (now + seconds lease_seconds);
        } in
            (true, record s { runs = insert run_id run' s.runs }))
  ]

  unfoldable pub can_promote : String → ℕ → Coordinator P → Bool
  can_promote run_id fence s = elim (lookup run_id s.runs) [
    | none ↦ false
    | some run ↦
        opt_eq (lookup (thread_of run) s.active) run_id
        && (eqb run.fence_token fence && is_active run.status)
  ]

  -- The same test without the lock, written as one chain of `and`.
  unfoldable pub can_promote_cached : String → ℕ → Coordinator P → Bool
  can_promote_cached run_id fence s = elim (lookup run_id s.runs) [
    | none ↦ false
    | some run ↦
        opt_eq (lookup (thread_of run) s.active) run_id
        && eqb run.fence_token fence
        && is_active run.status
  ]

  abbrev pub finished :
      ExecutionRunStatus → Option P → Option String → ℕ → ExecutionRun P → ExecutionRun P
  finished status response error now run = record run {
    status = status;
    lease_owner = none;
    lease_expires_at = none;
    finished_at = if is_paused status then none else some now;
    response_data = response;
    error_code = error;
  }

  unfoldable pub finish :
      String
      → ℕ
      → ExecutionRunStatus
      → Option P
      → Option String
      → ℕ
      → Coordinator P
      → Bool × Coordinator P
  finish run_id fence status response error now s = elim (lookup run_id s.runs) [
    | none ↦ (false, s)
    | some run ↦ if not (eqb run.fence_token fence) then (false, s) else (
      true,
      record s {
        runs = insert run_id (finished status response error now run) s.runs;
        active = erase (thread_of run) s.active;
      },
    )
  ]

  unfoldable pub get : String → Coordinator P → Option (ExecutionRun P)
  get run_id s = lookup run_id s.runs
