-- ===== src/Runtime/Leases/Replays.antt =====
-- What a finished run answers to its request, after any later calls.
use enterprise_sales_intelli.Prelude.{
  ℕ, String, ◌≡◌, refl, sym, ◌∙◌, ap, subst, Option, some, is_some, string_eq, pair_eq, some_inj,
}
use enterprise_sales_intelli.Prelude.Dict.{lookup, lookup-insert_self, lookup-erase_cases}
use enterprise_sales_intelli.Runtime.Models.{ExecutionRun, ExecutionRunStatus}
use enterprise_sales_intelli.Runtime.Leases.{
  Key, Coordinator, ClaimRequest, ClaimEnv, ok, thread_of, request_key, claim, finish, finished,
}
use enterprise_sales_intelli.Runtime.Leases.Invariant.{IsValid, put, vacate}
use enterprise_sales_intelli.Runtime.Leases.Histories.{finish-Advances}
use enterprise_sales_intelli.Runtime.Leases.Exclusion.{response-replays, finish-found}
use enterprise_sales_intelli.Runtime.Leases.Settled.{
  claims, beats, ends, Later, at_once, after, Settled, beats-Settled, ends-Settled,
}
use enterprise_sales_intelli.Runtime.Leases.Answering.{claims-Settled, prior_run-Settled}

module _ {P : Type 0} where
  module _ (r : String) (k : Key) (p : P) (st : ExecutionRunStatus) where
    Later-Settled : {s t : Coordinator P} → Later r s t → Settled r k p st s → Settled r k p st t
    Later-Settled at_once h = h
    Later-Settled (after {t} l (claims a env fresh e)) h =
        subst (Settled r k p st) (sym e) (claims-Settled r k p st a env t fresh (Later-Settled l h))
    Later-Settled (after {t} l (beats q f lease now e)) h =
        subst (Settled r k p st) (sym e)
          (beats-Settled r k p st q f lease now t (Later-Settled l h))
    Later-Settled (after {t} l (ends q f st' o x now other e)) h =
        subst (Settled r k p st) (sym e)
          (ends-Settled r k p st q f st' o x now t other (Later-Settled l h))

  -- In a valid state, when the run of a request is finished with a response: after any later calls
  -- of claim, heartbeat and finish, of which none finishes that run again and each new run gets an
  -- unused identifier, a claim of the request returns the run with that response and the status
  -- that it was finished with, and changes nothing, whatever thread it names.
  pub finish-claim_replays :
      (r : String) (f : ℕ) (st : ExecutionRunStatus) (p : P) (e : Option String) (now : ℕ)
      (s u : Coordinator P) (x : ExecutionRun P) (a : ClaimRequest) (env : ClaimEnv)
      → IsValid s
      → lookup (request_key a) s.requests ≡ some r
      → lookup r s.runs ≡ some x
      → x.fence_token ≡ f
      → Later r (finish r f st (some p) e now s).1 u
      → (y : ExecutionRun P) × (claim a env u ≡ (ok y, u))
        × (y.run_id ≡ r)
        × (y.response_data ≡ some p)
        × (y.status ≡ st)
  finish-claim_replays r f st p e now s u x a env v requested found same later =
      let done = finish-found r f st (some p) e now s x found same in
      let z = finished st (some p) e now x in
      let first : Settled r (request_key a) p st (vacate (thread_of x) (put r z s)) = record {
        run = z;
        valid = subst IsValid (ap (λ o. o.1) done) (finish-Advances r f st (some p) e now s v).0;
        stored = lookup-insert_self r z s.runs;
        answer = refl;
        ended_as = refl;
        idle = λ key at.
            let (differ, old) = lookup-erase_cases key (thread_of x) s.active at in
            let o = v.owned key r old in
            differ (ap thread_of (some_inj (sym found ∙ o.found)) ∙ o.threaded);
        requested = requested;
      } in
      let h =
        Later-Settled r (request_key a) p st later
          (subst (Settled r (request_key a) p st) (sym (ap (λ o. o.1) done)) first) in
      let prior = prior_run-Settled r (request_key a) p st u h in
      (
        h.run,
        response-replays a env u h.run prior (ap is_some h.answer),
        h.valid.named r h.run h.stored,
        h.answer,
        h.ended_as,
      )
