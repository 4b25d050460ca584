-- ===== src/Runtime/Leases/Claims.antt =====
-- What a claim gives to the worker, what it denies to the others, and what `finish` does to it.
use enterprise_sales_intelli.Prelude.{
  ◌+◌, String, ◌≡◌, refl, sym, ◌∙◌, ap, subst, true, false, Option, none, some, get_or, Bool-cases,
  inl, inr, string_eq, pair_eq, is_some,
}
use enterprise_sales_intelli.Prelude.Dict.{Dict, lookup, insert, lookup-insert_self}
use enterprise_sales_intelli.Runtime.Models.{ExecutionRun, is_active, running}
use enterprise_sales_intelli.Runtime.Leases.{
  Key, Coordinator, ClaimRequest, ClaimEnv, Result, ok, thread_of, fence_of, claim_key, request_key,
  claim, install, release_expired, prior_run, active_run, find_run, can_promote, seconds,
}
use enterprise_sales_intelli.Runtime.Leases.Invariant.{IsValid}
use enterprise_sales_intelli.Runtime.Leases.Install.{Installable, found_self, fence_of-install_self}
use enterprise_sales_intelli.Runtime.Leases.Outcome.{
  Outcome, replayed, refused, unclaimable, resumed, started, claim-Outcome, released, resumed_run,
  started_run, started_state,
}
use enterprise_sales_intelli.Runtime.Leases.Steps.{
  IsFresh, fence_of-released, resumed-Installable, started-Installable,
}
use enterprise_sales_intelli.Runtime.Leases.Fencing.{promote_all}

module _ {P : Type 0} where
  -- What the worker holds after its claim was granted: the run is the active one of its thread, its
  -- fence token is one above the thread's last, its lease runs from now, and it may promote.
  pub record Held (a : ClaimRequest) (env : ClaimEnv) (s : Coordinator P) (y : ExecutionRun P)
      (t : Coordinator P) : Type 0 where
    pub threaded : thread_of y ≡ claim_key a
    pub next : y.fence_token ≡ fence_of (claim_key a) s + 1
    pub newest : fence_of (claim_key a) t ≡ y.fence_token
    pub active : active_run (claim_key a) t ≡ some y
    pub running_now : is_active y.status ≡ true
    pub leased : y.lease_expires_at ≡ some (env.now + seconds a.lease_seconds)
    pub owned : y.lease_owner ≡ some a.owner
    pub promotes : can_promote y.run_id y.fence_token t ≡ true

  installed_active :
      (key : Key) (y : ExecutionRun P) (s : Coordinator P)
      → lookup key (install key y s).active ≡ some y.run_id
  unfolding install
  installed_active key y s = lookup-insert_self key y.run_id s.active

  installed-promotes :
      (key : Key) (y : ExecutionRun P) (s : Coordinator P)
      → thread_of y ≡ key
      → is_active y.status ≡ true
      → can_promote y.run_id y.fence_token (install key y s) ≡ true
  unfolding can_promote
  installed-promotes key y s threaded on =
      rw (found_self key y s, can_promote)
        (promote_all _ y.run_id _ _ _
          (ap (λ k. lookup k (install key y s).active) threaded ∙ installed_active key y s) refl on)

  ok_inj : {x y : ExecutionRun P} → ok x ≡ ok y → x ≡ y
  ok_inj h = cc

  installed-Held :
      (a : ClaimRequest) (env : ClaimEnv) (s : Coordinator P) (y : ExecutionRun P)
      → IsValid s
      → Installable (claim_key a) y (released a env s)
      → y.status ≡ running
      → y.lease_expires_at ≡ some (env.now + seconds a.lease_seconds)
      → y.lease_owner ≡ some a.owner
      → Held a env s y (install (claim_key a) y (released a env s))
  unfolding is_active
  installed-Held a env s y v i on leased owned =
      let u = released a env s in
      let act : is_active y.status ≡ true = rw on in
      record {
        threaded = i.threaded;
        next = i.fenced ∙ ap (λ n. n + 1) (fence_of-released a env s v);
        newest = fence_of-install_self (claim_key a) y u;
        active =
            ap (λ o. find_run o (install (claim_key a) y u)) (installed_active (claim_key a) y u)
            ∙ found_self (claim_key a) y u;
        running_now = act;
        leased = leased;
        owned = owned;
        promotes = installed-promotes (claim_key a) y u i.threaded act;
      }

  -- Entering the request changes nothing of this.
  entered-Held :
      (a : ClaimRequest) (env : ClaimEnv) (s : Coordinator P) (y : ExecutionRun P)
      (t : Coordinator P) (q : Dict Key String)
      → Held a env s y t
      → Held a env s y (record t { requests = q })
  unfolding can_promote
  entered-Held a env s y t q g = record {
    threaded = g.threaded;
    next = g.next;
    newest = g.newest;
    active = g.active;
    running_now = g.running_now;
    leased = g.leased;
    owned = g.owned;
    promotes = g.promotes;
  }

  -- A claim that is granted, and not answered from a stored response, gives all of this.
  pub claim-Held :
      (a : ClaimRequest) (env : ClaimEnv) (s : Coordinator P) (y : ExecutionRun P)
      → IsValid s
      → IsFresh env s
      → (claim a env s).0 ≡ ok y
      → y.response_data ≡ none
      → Held a env s y (claim a env s).1
  claim-Held a env s y v fresh granted open_run =
      by_outcome (claim a env s) (claim-Outcome a env s) granted
    where
      by_outcome :
          (out : Result (ExecutionRun P) × Coordinator P)
          → Outcome a env s out
          → out.0 ≡ ok y
          → Held a env s y out.1
      by_outcome out (replayed x p r e) g =
          let same : x ≡ y = ok_inj (sym (ap (λ o. o.0) e) ∙ g) in
          let absent : x.response_data ≡ none =
            ap (λ (z : ExecutionRun P). z.response_data) same ∙ open_run in
          let no_response : is_some x.response_data ≡ false = ap is_some absent in
          absurd (cc (r, no_response))
      by_outcome out (refused l e) g = absurd (cc (ap (λ o. o.0) e, g))
      by_outcome out (unclaimable x p l e) g = absurd (cc (ap (λ o. o.0) e, g))
      by_outcome out (resumed x p t l e) g =
          let same : resumed_run a env s x ≡ y = ok_inj (sym (ap (λ o. o.0) e) ∙ g) in
          subst (λ o. Held a env s y o) (sym (ap (λ o. o.1) e))
            (subst
              (λ z.
                Held a env s z (install (claim_key a) (resumed_run a env s x) (released a env s)))
              same
              (installed-Held a env s (resumed_run a env s x) v
                (resumed-Installable a env s v x p t) refl refl refl))
      by_outcome out (started p l e) g =
          let same : started_run a env s ≡ y = ok_inj (sym (ap (λ o. o.0) e) ∙ g) in
          let made =
            installed-Held a env s (started_run a env s) v (started-Installable a env s v fresh)
              refl refl refl in
          let t = install (claim_key a) (started_run a env s) (released a env s) in
          subst (λ o. Held a env s y o) (sym (ap (λ o. o.1) e))
            (subst (λ z. Held a env s z (started_state a env s)) same
              (entered-Held a env s (started_run a env s) t
                (insert (request_key a) env.new_run_id t.requests) made))

  pub release_expired-requests :
      (o : Option (ExecutionRun P)) (s : Coordinator P)
      → (release_expired o s).requests ≡ s.requests
  unfolding release_expired
  release_expired-requests none s = refl
  release_expired-requests (some run) s = elim (Bool-cases (is_active run.status)) [
    | inl on ↦ rw on refl
    | inr off ↦ rw off refl
  ]

  -- A request that is resumed still leads to its run, and one that is new leads to the new one.
  resumed-requested :
      (a : ClaimRequest) (env : ClaimEnv) (s : Coordinator P) (x : ExecutionRun P)
      → IsValid s
      → prior_run (request_key a) s ≡ some x
      → prior_run (request_key a) (install (claim_key a) (resumed_run a env s x) (released a env s))
        ≡ some (resumed_run a env s x)
  unfolding install
  resumed-requested a env s x v prior =
      let run = resumed_run a env s x in
      let runs = insert x.run_id run (released a env s).runs in
      ap (λ d. lookup (get_or (lookup (request_key a) d) "") runs)
        (release_expired-requests (active_run (claim_key a) s) s)
      ∙ ap (λ r. lookup r runs) (sym (v.named _ x prior))
      ∙ lookup-insert_self x.run_id run (released a env s).runs

  started-requested :
      (a : ClaimRequest) (env : ClaimEnv) (s : Coordinator P)
      → prior_run (request_key a) (started_state a env s) ≡ some (started_run a env s)
  started-requested a env s =
      let t = install (claim_key a) (started_run a env s) (released a env s) in
      ap (λ o. lookup (get_or o "") t.runs)
        (lookup-insert_self (request_key a) env.new_run_id t.requests)
      ∙ found_self (claim_key a) (started_run a env s) (released a env s)

  claim-requested :
      (a : ClaimRequest) (env : ClaimEnv) (s : Coordinator P) (y : ExecutionRun P)
      → IsValid s
      → (claim a env s).0 ≡ ok y
      → prior_run (request_key a) (claim a env s).1 ≡ some y
  claim-requested a env s y v granted = by_outcome (claim a env s) (claim-Outcome a env s) granted
    where
      by_outcome :
          (out : Result (ExecutionRun P) × Coordinator P)
          → Outcome a env s out
          → out.0 ≡ ok y
          → prior_run (request_key a) out.1 ≡ some y
      by_outcome out (replayed x p r e) g =
          ap (λ o. prior_run (request_key a) o.1) e
          ∙ p
          ∙ ap some (ok_inj (sym (ap (λ o. o.0) e) ∙ g))
      by_outcome out (refused l e) g = absurd (cc (ap (λ o. o.0) e, g))
      by_outcome out (unclaimable x p l e) g = absurd (cc (ap (λ o. o.0) e, g))
      by_outcome out (resumed x p t l e) g =
          ap (λ o. prior_run (request_key a) o.1) e
          ∙ resumed-requested a env s x v p
          ∙ ap some (ok_inj (sym (ap (λ o. o.0) e) ∙ g))
      by_outcome out (started p l e) g =
          ap (λ o. prior_run (request_key a) o.1) e
          ∙ started-requested a env s
          ∙ ap some (ok_inj (sym (ap (λ o. o.0) e) ∙ g))

  -- What a granted claim leaves: its run holds the thread, and the request leads to it.
  pub record Granted (a : ClaimRequest) (env : ClaimEnv) (s : Coordinator P) (y : ExecutionRun P)
      (t : Coordinator P) : Type 0 where
    pub held : Held a env s y t
    pub requested : prior_run (request_key a) t ≡ some y

  -- In a valid state, and if a new run gets an unused identifier: a claim that is granted, and not
  -- answered from a stored response, makes its run the one active run of the thread, with the next
  -- fence token, the full lease and the right to promote, and its request leads to that run.
  pub claim-Granted :
      (a : ClaimRequest) (env : ClaimEnv) (s : Coordinator P) (y : ExecutionRun P)
      → IsValid s
      → IsFresh env s
      → (claim a env s).0 ≡ ok y
      → y.response_data ≡ none
      → Granted a env s y (claim a env s).1
  claim-Granted a env s y v fresh granted open_run = record {
    held = claim-Held a env s y v fresh granted open_run;
    requested = claim-requested a env s y v granted;
  }
