-- ===== src/Runtime/Leases/Exclusion.antt =====
-- Who is refused while a lease runs, and what a stored response and a late `finish` do.
use enterprise_sales_intelli.Prelude.{
  ℕ, ◌<◌, ◌+◌, String, ◌≡◌, refl, sym, ◌∙◌, ap, true, false, Option, none, some, List, [], ◌∷◌, All,
  string_eq, pair_eq, arith, is_some, lt→ltb,
}
use enterprise_sales_intelli.Prelude.Dict.{lookup}
use enterprise_sales_intelli.Runtime.Models.{ExecutionRun, ExecutionRunStatus, is_active}
use enterprise_sales_intelli.Runtime.Leases.{
  Key, Coordinator, ClaimRequest, ClaimEnv, Result, ok, thread_of, claim_key, request_key, claim,
  is_leased, active_run, prior_run, has_response, refuse, finish, finished, seconds,
}
use enterprise_sales_intelli.Runtime.Leases.Invariant.{IsValid, put, vacate}
use enterprise_sales_intelli.Runtime.Leases.Outcome.{
  Outcome, replayed, refused, unclaimable, resumed, started, claim-Outcome, started_run,
}
use enterprise_sales_intelli.Runtime.Leases.Steps.{IsFresh}
use enterprise_sales_intelli.Runtime.Leases.Claims.{claim-Granted}

module _ {P : Type 0} where
  -- A leased thread refuses every claim whose request has no response, and nothing changes.
  leased-refuses :
      (a : ClaimRequest) (env : ClaimEnv) (s : Coordinator P)
      → is_leased env.now (active_run (claim_key a) s) ≡ true
      → has_response (prior_run (request_key a) s) ≡ false
      → claim a env s ≡ refuse a s
  leased-refuses a env s leased open_run = by_outcome (claim a env s) (claim-Outcome a env s)
    where
      by_outcome :
          (out : Result (ExecutionRun P) × Coordinator P) → Outcome a env s out → out ≡ refuse a s
      by_outcome out (replayed x p r e) =
          let none_left : is_some x.response_data ≡ false = ap has_response (sym p) ∙ open_run in
          absurd (cc (r, none_left))
      by_outcome out (refused l e) = e
      by_outcome out (unclaimable x p l e) = absurd (cc (leased, l))
      by_outcome out (resumed x p t l e) = absurd (cc (leased, l))
      by_outcome out (started p l e) = absurd (cc (leased, l))

  running_lease :
      (y : ExecutionRun P) (now expires : ℕ)
      → is_active y.status ≡ true
      → y.lease_expires_at ≡ some expires
      → now < expires
      → is_leased now (some y) ≡ true
  unfolding is_leased
  running_lease y now expires on lease before = rw (on, lease) (lt→ltb now expires before)

  -- The state after some claims, one after the other.
  unfoldable pub claim_each : List (ClaimRequest × ClaimEnv) → Coordinator P → Coordinator P
  claim_each [] s = s
  claim_each ((b, later) ∷ rest) s = claim_each rest (claim b later s).1

  -- A claim of a thread before a time, by a request that has no response.
  pub record IsRival (key : Key) (limit : ℕ) (s : Coordinator P) (q : ClaimRequest × ClaimEnv)
      : Type 0 where
    pub same : claim_key q.0 ≡ key
    pub before : q.1.now < limit
    pub unanswered : has_response (prior_run (request_key q.0) s) ≡ false

  module _ (key : Key) (limit : ℕ) (s : Coordinator P) (y : ExecutionRun P)
      (active : active_run key s ≡ some y) (on : is_active y.status ≡ true)
      (lease : y.lease_expires_at ≡ some limit) where
    rival-refused :
        (q : ClaimRequest × ClaimEnv) → IsRival key limit s q → claim q.0 q.1 s ≡ refuse q.0 s
    rival-refused (b, later) rival =
        let held : active_run (claim_key b) s ≡ some y =
          ap (λ k. active_run k s) rival.same ∙ active in
        leased-refuses b later s
          (ap (is_leased later.now) held ∙ running_lease y later.now limit on lease rival.before)
          rival.unanswered

    rivals-change_nothing :
        (rivals : List (ClaimRequest × ClaimEnv))
        → All (IsRival key limit s) rivals
        → claim_each rivals s ≡ s
    unfolding claim_each
    rivals-change_nothing [] h = refl
    rivals-change_nothing (q ∷ rivals) h =
        ap (λ (o : Result (ExecutionRun P) × Coordinator P). claim_each rivals o.1)
          (rival-refused q h.0)
        ∙ rivals-change_nothing rivals h.1

  -- From a valid state, if a new run gets an unused identifier: after a claim was granted other
  -- than from a stored response, and then any number of claims of the same thread by requests
  -- without a response, all before its lease runs out, one more such claim is refused with the
  -- thread's error and changes nothing, as did those before it.
  pub claim_excludes :
      (a b : ClaimRequest) (env later : ClaimEnv) (s : Coordinator P) (y : ExecutionRun P)
      (rivals : List (ClaimRequest × ClaimEnv))
      → IsValid s
      → IsFresh env s
      → (claim a env s).0 ≡ ok y
      → y.response_data ≡ none
      → let t = (claim a env s).1 in
        let limit = env.now + seconds a.lease_seconds in
        All (IsRival (claim_key a) limit t) rivals
        → IsRival (claim_key a) limit t (b, later)
        → claim b later (claim_each rivals t) ≡ refuse b t
  claim_excludes a b env later s y rivals v fresh granted open_run others rival =
      let t = (claim a env s).1 in
      let g = (claim-Granted a env s y v fresh granted open_run).held in
      ap (claim b later)
        (rivals-change_nothing (claim_key a) _ t y g.active g.running_now g.leased rivals others)
      ∙ rival-refused (claim_key a) _ t y g.active g.running_now g.leased (b, later) rival

  pub response-replays :
      (a : ClaimRequest) (env : ClaimEnv) (t : Coordinator P) (y : ExecutionRun P)
      → prior_run (request_key a) t ≡ some y
      → is_some y.response_data ≡ true
      → claim a env t ≡ (ok y, t)
  unfolding claim
  response-replays a env t y prior done = rw (prior, claim) (rw done)

  pub finish-found :
      (r : String) (f : ℕ) (st : ExecutionRunStatus) (p : Option P) (e : Option String) (now : ℕ)
      (s : Coordinator P) (x : ExecutionRun P)
      → lookup r s.runs ≡ some x
      → x.fence_token ≡ f
      → finish r f st p e now s ≡ (true, vacate (thread_of x) (put r (finished st p e now x) s))
  unfolding finish
  finish-found r f st p e now s x found same = rw (found, finish) (ground arith)

  pub started_when_free :
      (a : ClaimRequest) (env : ClaimEnv) (s : Coordinator P)
      → prior_run (request_key a) s ≡ none
      → is_leased env.now (active_run (claim_key a) s) ≡ false
      → (claim a env s).0 ≡ ok (started_run a env s)
  started_when_free a env s unknown free = by_outcome (claim a env s) (claim-Outcome a env s)
    where
      by_outcome :
          (out : Result (ExecutionRun P) × Coordinator P)
          → Outcome a env s out
          → out.0 ≡ ok (started_run a env s)
      by_outcome out (replayed x p r e) = absurd (cc (unknown, p))
      by_outcome out (refused l e) = absurd (cc (l, free))
      by_outcome out (unclaimable x p l e) = absurd (cc (unknown, p))
      by_outcome out (resumed x p t l e) = absurd (cc (unknown, p))
      by_outcome out (started p l e) = ap (λ o. o.0) e
