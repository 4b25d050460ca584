-- ===== src/Runtime/Leases/Outcome.antt =====
-- The five ways in which a call of `claim` ends.
use enterprise_sales_intelli.Prelude.{
  ◌≡◌, refl, ◌⊎◌, inl, inr, true, false, Option, none, some, is_some, if◌then◌else◌, string_eq,
  pair_eq, arith, Bool-cases,
}
use enterprise_sales_intelli.Prelude.Dict.{insert}
use enterprise_sales_intelli.Runtime.Models.{ExecutionRun}
use enterprise_sales_intelli.Runtime.Leases.{
  Coordinator, ClaimRequest, ClaimEnv, Result, ok, claim_key, request_key, prior_run, active_run,
  is_leased, release_expired, install, reclaimed, new_run, next_fence, refuse, resume, start,
  claim_thread, claim,
}

module _ {P : Type 0} (a : ClaimRequest) (env : ClaimEnv) (s : Coordinator P) where
  -- The state once an expired active run of the thread is given up.
  abbrev pub released : Coordinator P
  released = release_expired (active_run (claim_key a) s) s

  abbrev pub resumed_run : ExecutionRun P → ExecutionRun P
  resumed_run prior = reclaimed a env (next_fence a released) prior

  abbrev pub started_run : ExecutionRun P
  started_run = new_run a env (next_fence a released)

  abbrev pub resumed_state : ExecutionRun P → Coordinator P
  resumed_state prior = install (claim_key a) (resumed_run prior) released

  abbrev pub started_state : Coordinator P
  started_state =
      let t = install (claim_key a) started_run released in
      record t { requests = insert (request_key a) env.new_run_id t.requests }

module _ {P : Type 0} (a : ClaimRequest) (env : ClaimEnv) (s : Coordinator P) where
  abbrev IsFree : Type 0
  IsFree = is_leased env.now (active_run (claim_key a) s) ≡ false

  pub data Outcome (out : Result (ExecutionRun P) × Coordinator P) : Type 0 where
    replayed :
        (x : ExecutionRun P)
        → prior_run (request_key a) s ≡ some x
        → is_some x.response_data ≡ true
        → out ≡ (ok x, s)
        → Outcome out
    refused : is_leased env.now (active_run (claim_key a) s) ≡ true → out ≡ refuse a s → Outcome out
    unclaimable :
        (x : ExecutionRun P)
        → prior_run (request_key a) s ≡ some x
        → IsFree
        → out ≡ refuse a (released a env s)
        → Outcome out
    resumed :
        (x : ExecutionRun P)
        → prior_run (request_key a) s ≡ some x
        → x.thread_id ≡ a.thread_id
        → IsFree
        → out ≡ (ok (resumed_run a env s x), resumed_state a env s x)
        → Outcome out
    started :
        prior_run (request_key a) s ≡ none
        → IsFree
        → out ≡ (ok (started_run a env s), started_state a env s)
        → Outcome out

  resume_cases :
      (x : ExecutionRun P)
      → (resume a env x (released a env s) ≡ refuse a (released a env s))
        ⊎ ((x.thread_id ≡ a.thread_id)
            × (resume a env x (released a env s)
                ≡ (ok (resumed_run a env s x), resumed_state a env s x)))
  unfolding resume
  resume_cases x = ground (arith, string_eq.equals_iff x.thread_id a.thread_id)

  claim_thread-Outcome :
      (prior : Option (ExecutionRun P))
      → prior_run (request_key a) s ≡ prior
      → Outcome (claim_thread prior a env s)
  unfolding claim_thread start
  claim_thread-Outcome prior p =
      elim (Bool-cases (is_leased env.now (active_run (claim_key a) s))) [
        | inl leased ↦ refused leased (rw leased)
        | inr free ↦ rw free (go prior p free)
      ]
    where
      go :
          (o : Option (ExecutionRun P))
          → prior_run (request_key a) s ≡ o
          → IsFree
          → Outcome (elim o [
            | none ↦ start a env (released a env s)
            | some run ↦ resume a env run (released a env s)
          ])
      go none e free = started e free refl
      go (some x) e free = elim (resume_cases x) [
        | inl no_claim ↦ unclaimable x e free no_claim
        | inr (thread, done) ↦ resumed x e thread free done
      ]

  pub claim-Outcome : Outcome (claim a env s)
  unfolding claim
  claim-Outcome = go (prior_run (request_key a) s) refl
    where
      go :
          (o : Option (ExecutionRun P))
          → prior_run (request_key a) s ≡ o
          → Outcome (elim o [
            | none ↦ claim_thread none a env s
            | some run ↦
                if is_some run.response_data then (ok run, s) else claim_thread (some run) a env s
          ])
      go none e = claim_thread-Outcome none e
      go (some x) e = elim (Bool-cases (is_some x.response_data)) [
        | inl done ↦ rw done (replayed x e done refl)
        | inr open_run ↦ rw open_run (claim_thread-Outcome (some x) e)
      ]
