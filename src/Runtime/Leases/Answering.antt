-- ===== src/Runtime/Leases/Answering.antt =====
-- A finished run that answers its request, under the calls of `claim`.
use enterprise_sales_intelli.Prelude.{
  String, ◌≡◌, ◌≢◌, refl, sym, ◌∙◌, ap, subst, inl, inr, true, false, Option, none, some, is_some,
  string_eq, pair_eq, some_inj, Option-cases, Bool-cases,
}
use enterprise_sales_intelli.Prelude.Dict.{lookup, lookup-insert_ne, lookup-insert_cases}
use enterprise_sales_intelli.Runtime.Models.{ExecutionRun, ExecutionRunStatus, is_active}
use enterprise_sales_intelli.Runtime.Leases.{
  Key, Coordinator, ClaimRequest, ClaimEnv, Result, claim_key, request_key, claim, install,
  release_expired, find_run, prior_run, active_run,
}
use enterprise_sales_intelli.Runtime.Leases.Invariant.{IsValid}
use enterprise_sales_intelli.Runtime.Leases.Growth.{find_run-IsStored}
use enterprise_sales_intelli.Runtime.Leases.Outcome.{
  Outcome, replayed, refused, unclaimable, resumed, started, claim-Outcome, released, resumed_run,
  started_run, started_state,
}
use enterprise_sales_intelli.Runtime.Leases.Steps.{IsFresh, claim-Advances}
use enterprise_sales_intelli.Runtime.Leases.Claims.{release_expired-requests}
use enterprise_sales_intelli.Runtime.Leases.Exclusion.{response-replays}
use enterprise_sales_intelli.Runtime.Leases.Settled.{Settled}

module _ {P : Type 0} (r : String) (k : Key) (p : P) (st : ExecutionRunStatus) where
  -- The active run of a thread is another one.
  active-other :
      (key : Key) (s : Coordinator P) (w : ExecutionRun P)
      → Settled r k p st s
      → active_run key s ≡ some w
      → w.run_id ≢ r
  active-other key s w h at mine = elim (Option-cases (lookup key s.active)) [
    | inl absent ↦
        let lost : none ≡ some w = sym h.valid.unnamed ∙ sym (ap (λ o. find_run o s) absent) ∙ at in
        cc
    | inr (q, there) ↦
        let named = h.valid.named q w (sym (ap (λ o. find_run o s) there) ∙ at) in
        h.idle key (there ∙ ap some (sym named ∙ mine))
  ]

  released-stored :
      (a : ClaimRequest) (env : ClaimEnv) (s : Coordinator P) (h : Settled r k p st s)
      → lookup r (released a env s).runs ≡ some h.run
  unfolding release_expired
  released-stored a env s h = go (active_run (claim_key a) s) refl
    where
      go :
          (o : Option (ExecutionRun P))
          → active_run (claim_key a) s ≡ o
          → lookup r (release_expired o s).runs ≡ some h.run
      go none e = h.stored
      go (some w) e = elim (Bool-cases (is_active w.status)) [
        | inl on ↦
            rw on
              (lookup-insert_ne r w.run_id _ s.runs (active-other (claim_key a) s w h e) ∙ h.stored)
        | inr off ↦ rw off h.stored
      ]

  release_expired-active :
      (o : Option (ExecutionRun P)) (s : Coordinator P) → (release_expired o s).active ≡ s.active
  unfolding release_expired
  release_expired-active none s = refl
  release_expired-active (some run) s = elim (Bool-cases (is_active run.status)) [
    | inl on ↦ rw on refl
    | inr off ↦ rw off refl
  ]

  -- Another run takes a thread over.
  installed-stored :
      (a : ClaimRequest) (env : ClaimEnv) (s : Coordinator P) (run : ExecutionRun P)
      → run.run_id ≢ r
      → (h : Settled r k p st s)
      → lookup r (install (claim_key a) run (released a env s)).runs ≡ some h.run
  unfolding install
  installed-stored a env s run other h =
      lookup-insert_ne r run.run_id run (released a env s).runs other ∙ released-stored a env s h

  installed-idle :
      (a : ClaimRequest) (env : ClaimEnv) (s : Coordinator P) (run : ExecutionRun P)
      → run.run_id ≢ r
      → Settled r k p st s
      → (key : Key) → lookup key (install (claim_key a) run (released a env s)).active ≢ some r
  unfolding install
  installed-idle a env s run other h key at =
      let u = released a env s in
      let o = active_run (claim_key a) s in
      elim (lookup-insert_cases key (claim_key a) run.run_id u.active at) [
        | inl (mine, same) ↦ other same
        | inr (differ, old) ↦
            h.idle key (sym (ap (λ d. lookup key d) (release_expired-active o s)) ∙ old)
      ]

  installed-Settled :
      (a : ClaimRequest) (env : ClaimEnv) (s : Coordinator P) (run : ExecutionRun P)
      → run.run_id ≢ r
      → IsValid (install (claim_key a) run (released a env s))
      → Settled r k p st s
      → Settled r k p st (install (claim_key a) run (released a env s))
  unfolding install
  installed-Settled a env s run other v h = record {
    run = h.run;
    valid = v;
    stored = installed-stored a env s run other h;
    answer = h.answer;
    ended_as = h.ended_as;
    idle = installed-idle a env s run other h;
    requested =
        ap (λ d. lookup k d) (release_expired-requests (active_run (claim_key a) s) s)
        ∙ h.requested;
  }

  released-Settled :
      (a : ClaimRequest) (env : ClaimEnv) (s : Coordinator P)
      → IsValid (released a env s)
      → Settled r k p st s
      → Settled r k p st (released a env s)
  released-Settled a env s v h =
      let o = active_run (claim_key a) s in
      record {
        run = h.run;
        valid = v;
        stored = released-stored a env s h;
        answer = h.answer;
        ended_as = h.ended_as;
        idle =
            λ key at. h.idle key (sym (ap (λ d. lookup key d) (release_expired-active o s)) ∙ at);
        requested = ap (λ d. lookup k d) (release_expired-requests o s) ∙ h.requested;
      }

  -- The run answers its request.
  pub prior_run-Settled : (s : Coordinator P) (h : Settled r k p st s) → prior_run k s ≡ some h.run
  prior_run-Settled s h = ap (λ o. find_run o s) h.requested ∙ h.stored

  -- A new run of another request.
  entered-Settled :
      (a : ClaimRequest) (env : ClaimEnv) (s : Coordinator P)
      → env.new_run_id ≢ r
      → prior_run (request_key a) s ≡ none
      → IsValid (started_state a env s)
      → Settled r k p st s
      → Settled r k p st (started_state a env s)
  unfolding install
  entered-Settled a env s other unknown v h =
      let differ : request_key a ≢ k = λ same.
        let lost : none ≡ some h.run =
          sym unknown ∙ ap (λ q. prior_run q s) same ∙ prior_run-Settled s h in
        cc in
      record {
        run = h.run;
        valid = v;
        stored = installed-stored a env s (started_run a env s) other h;
        answer = h.answer;
        ended_as = h.ended_as;
        idle = installed-idle a env s (started_run a env s) other h;
        requested =
            lookup-insert_ne k (request_key a) env.new_run_id (released a env s).requests differ
            ∙ ap (λ d. lookup k d) (release_expired-requests (active_run (claim_key a) s) s)
            ∙ h.requested;
      }

  -- A claim of any request leaves it so.
  pub claims-Settled :
      (a : ClaimRequest) (env : ClaimEnv) (s : Coordinator P)
      → IsFresh env s
      → Settled r k p st s
      → Settled r k p st (claim a env s).1
  claims-Settled a env s fresh h = elim (Option-cases (prior_run (request_key a) s)) [
    | inl unknown ↦
        by_outcome (λ x at. absurd (cc (unknown, at))) (claim a env s) (claim-Outcome a env s) valid
    | inr (x, prior) ↦ elim (Bool-cases (is_some x.response_data)) [
      | inl done ↦
          subst (λ (o : Result (ExecutionRun P) × Coordinator P). Settled r k p st o.1)
            (sym (response-replays a env s x prior done)) h
      | inr open_run ↦
          by_outcome
            (λ y at.
              let same : x ≡ y = some_inj (sym prior ∙ at) in
              ap (λ (z : ExecutionRun P). is_some z.response_data) (sym same) ∙ open_run)
            (claim a env s) (claim-Outcome a env s) valid
    ]
  ]
    where
      valid : IsValid (claim a env s).1
      valid = (claim-Advances a env s h.valid fresh).0

      new_one : env.new_run_id ≢ r
      new_one mine =
          let lost : none ≡ some h.run =
            sym fresh.unused ∙ ap (λ i. lookup i s.runs) mine ∙ h.stored in
          cc

      by_outcome :
          ((x : ExecutionRun P)
            → prior_run (request_key a) s ≡ some x
            → is_some x.response_data ≡ false)
          → (out : Result (ExecutionRun P) × Coordinator P) → Outcome a env s out
          → IsValid out.1
          → Settled r k p st out.1
      by_outcome unanswered out (replayed x q d e) v =
          subst (Settled r k p st) (sym (ap (λ o. o.1) e)) h
      by_outcome unanswered out (refused l e) v = subst (Settled r k p st) (sym (ap (λ o. o.1) e)) h
      by_outcome unanswered out (unclaimable x q l e) v =
          subst (Settled r k p st) (sym (ap (λ o. o.1) e))
            (released-Settled a env s (subst IsValid (ap (λ o. o.1) e) v) h)
      by_outcome unanswered out (resumed x q t l e) v =
          let another : x.run_id ≢ r = λ mine.
            let there =
              (find_run-IsStored (lookup (request_key a) s.requests) s h.valid).stored x q in
            let same : x ≡ h.run =
              some_inj (sym there ∙ ap (λ i. lookup i s.runs) mine ∙ h.stored) in
            let given : is_some x.response_data ≡ true =
              ap (λ (z : ExecutionRun P). is_some z.response_data) same ∙ ap is_some h.answer in
            cc (given, unanswered x q) in
          subst (Settled r k p st) (sym (ap (λ o. o.1) e)) (
            installed-Settled a env s (resumed_run a env s x) another
              (subst IsValid (ap (λ o. o.1) e) v) h)
      by_outcome unanswered out (started q l e) v =
          let w : IsValid (started_state a env s) = subst IsValid (ap (λ o. o.1) e) v in
          subst (Settled r k p st) (sym (ap (λ o. o.1) e)) (entered-Settled a env s new_one q w h)
