-- ===== src/Runtime/Leases/Steps.antt =====
-- Each method keeps the invariant and only raises fence tokens; so does every history of calls.
use enterprise_sales_intelli.Prelude.{
  String, ◌≡◌, refl, sym, ◌∙◌, ap, ap₂, subst, ◌≢◌, inl, inr, none, some, string_eq, pair_eq,
  Option-cases, some_inj,
}
use enterprise_sales_intelli.Prelude.Dict.{lookup, lookup-insert_cases}
use enterprise_sales_intelli.Runtime.Models.{ExecutionRun}
use enterprise_sales_intelli.Runtime.Leases.{
  Key, Coordinator, ClaimRequest, ClaimEnv, thread_of, fence_of, find_run, claim_key, request_key,
  prior_run, active_run, install, claim,
}
use enterprise_sales_intelli.Runtime.Leases.Invariant.{IsValid, Requested, Similar}
use enterprise_sales_intelli.Runtime.Leases.Install.{Installable, install-IsValid, found_self}
use enterprise_sales_intelli.Runtime.Leases.Outcome.{
  Outcome, replayed, refused, unclaimable, resumed, started, claim-Outcome, released, resumed_run,
  started_run, started_state,
}
use enterprise_sales_intelli.Runtime.Leases.Growth.{
  Grows, Grows-refl, Grows-trans, install-Grows, find_run-IsStored, release_expired-IsValid,
  release_expired_back, release_expired-fence_of,
}

module _ {P : Type 0} where
  -- `uuid4` returned an identifier that is not in use.
  pub record IsFresh (env : ClaimEnv) (s : Coordinator P) : Type 0 where
    pub named : env.new_run_id ≢ ""
    pub unused : lookup env.new_run_id s.runs ≡ none

  -- A prior run of a request is a run of the caller's workspace.
  prior_run-workspace :
      (k : Key) (s : Coordinator P) (x : ExecutionRun P)
      → IsValid s
      → prior_run k s ≡ some x
      → x.workspace_id ≡ k.0
  prior_run-workspace k s x v h = elim (Option-cases (lookup k s.requests)) [
    | inl absent ↦
        let e : none ≡ some x = sym v.unnamed ∙ sym (ap (λ o. find_run o s) absent) ∙ h in cc
    | inr (r, e) ↦
        let q = v.requested k r e in
        let same : q.run ≡ x = some_inj (sym q.found ∙ sym (ap (λ o. find_run o s) e) ∙ h) in
        ap (λ (y : ExecutionRun P). y.workspace_id) (sym same) ∙ q.workspace
  ]

  abbrev pub Advances : Coordinator P → Coordinator P → Type 0
  Advances s t = IsValid t × Grows s t

  module _ (a : ClaimRequest) (env : ClaimEnv) (s : Coordinator P) (v : IsValid s) where
    released-Advances : Advances s (released a env s)
    released-Advances =
        release_expired-IsValid (active_run (claim_key a) s) s
          (find_run-IsStored (lookup (claim_key a) s.active) s v) v

    pub fence_of-released : fence_of (claim_key a) (released a env s) ≡ fence_of (claim_key a) s
    fence_of-released = release_expired-fence_of (active_run (claim_key a) s) s (claim_key a)

    released_back :
        (q : String) (z : ExecutionRun P)
        → lookup q (released a env s).runs ≡ some z
        → (w : ExecutionRun P) × (lookup q s.runs ≡ some w) × Similar w z
    released_back =
        release_expired_back (active_run (claim_key a) s) s
          (find_run-IsStored (lookup (claim_key a) s.active) s v)

    install-Advances :
        (run : ExecutionRun P)
        → Installable (claim_key a) run (released a env s)
        → Advances s (install (claim_key a) run (released a env s))
    install-Advances run i =
        let (valid, grows) = released-Advances in
        (
          install-IsValid (claim_key a) run (released a env s) i valid,
          Grows-trans grows (install-Grows (claim_key a) run (released a env s) valid i),
        )

    pub resumed-Installable :
        (x : ExecutionRun P)
        → prior_run (request_key a) s ≡ some x
        → x.thread_id ≡ a.thread_id
        → Installable (claim_key a) (resumed_run a env s x) (released a env s)
    resumed-Installable x prior thread = record {
      named = λ e.
          let there = (find_run-IsStored (lookup (request_key a) s.requests) s v).stored x prior in
          let absent : lookup x.run_id s.runs ≡ none = ap (λ r. lookup r s.runs) e ∙ v.unnamed in
          cc;
      threaded = here;
      fenced = refl;
      slot = λ y h.
          let (w, old, sim) = released_back x.run_id y h in
          let stored = (find_run-IsStored (lookup (request_key a) s.requests) s v).stored x prior in
          let same : w ≡ x = some_inj (sym old ∙ stored) in
          sym sim.threaded ∙ ap thread_of same ∙ here;
    }
      where
        here : thread_of x ≡ claim_key a
        here =
            ap₂ (λ (p q : String). (p, q)) (prior_run-workspace (request_key a) s x v prior) thread

    pub started-Installable :
        IsFresh env s → Installable (claim_key a) (started_run a env s) (released a env s)
    started-Installable f = record {
      named = f.named;
      threaded = refl;
      fenced = refl;
      slot = λ y h.
          let (w, old, sim) = released_back env.new_run_id y h in let absent = f.unused in cc;
    }

    -- The new request is entered too.
    started_state-IsValid : IsFresh env s → IsValid (started_state a env s)
    started_state-IsValid f = record {
      named = g.named;
      unnamed = g.unnamed;
      bounded = g.bounded;
      distinct = g.distinct;
      owned = λ k r h.
          let o = g.owned k r h in
          record { run = o.run; found = o.found; threaded = o.threaded; fenced = o.fenced };
      requested = enter;
    }
      where
        t : Coordinator P
        t = install (claim_key a) (started_run a env s) (released a env s)

        g : IsValid t
        g = (install-Advances (started_run a env s) (started-Installable f)).0

        enter :
            (k : Key) (r : String)
            → lookup k (started_state a env s).requests ≡ some r
            → Requested (started_state a env s) k r
        enter k r h = elim (lookup-insert_cases k (request_key a) env.new_run_id t.requests h) [
          | inl (same, new) ↦ record {
            run = started_run a env s;
            found =
                subst (λ q. lookup q t.runs ≡ some (started_run a env s)) new
                  (found_self (claim_key a) (started_run a env s) (released a env s));
            workspace = ap (λ p. p.0) same;
          }
          | inr (other, old) ↦
              let o = g.requested k r old in
              record { run = o.run; found = o.found; workspace = o.workspace }
        ]

    started_state-Grows : IsFresh env s → Grows s (started_state a env s)
    started_state-Grows f =
        let grows = (install-Advances (started_run a env s) (started-Installable f)).1 in
        record {
          kept = λ r x h.
              let k = grows.kept r x h in
              record { run = k.run; found = k.found; threaded = k.threaded; risen = k.risen };
          raised = grows.raised;
        }

    pub claim-Advances : IsFresh env s → Advances s (claim a env s).1
    claim-Advances f = by_outcome (claim a env s) (claim-Outcome a env s)
      where
        by_outcome : (out : _ × Coordinator P) → Outcome a env s out → Advances s out.1
        by_outcome out (replayed x p r e) =
            subst (Advances s) (sym (ap (λ o. o.1) e)) (v, Grows-refl s)
        by_outcome out (refused l e) = subst (Advances s) (sym (ap (λ o. o.1) e)) (v, Grows-refl s)
        by_outcome out (unclaimable x p l e) =
            subst (Advances s) (sym (ap (λ o. o.1) e)) released-Advances
        by_outcome out (resumed x p t l e) =
            subst (Advances s) (sym (ap (λ o. o.1) e))
              (install-Advances (resumed_run a env s x) (resumed-Installable x p t))
        by_outcome out (started p l e) =
            subst (Advances s) (sym (ap (λ o. o.1) e))
              (started_state-IsValid f, started_state-Grows f)
