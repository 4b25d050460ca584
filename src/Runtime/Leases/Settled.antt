-- ===== src/Runtime/Leases/Settled.antt =====
-- A finished run that answers its request, under the calls of `heartbeat` and `finish`.
use enterprise_sales_intelli.Prelude.{
  ℕ, String, ◌≡◌, ◌≢◌, sym, ◌∙◌, ap, subst, inl, inr, Option, some, string_eq, pair_eq, some_inj,
  beq-cases,
}
use enterprise_sales_intelli.Prelude.Dict.{
  lookup, lookup-insert_self, lookup-insert_ne, lookup-erase_cases,
}
use enterprise_sales_intelli.Runtime.Models.{ExecutionRun, ExecutionRunStatus}
use enterprise_sales_intelli.Runtime.Leases.{
  Key, Coordinator, ClaimRequest, ClaimEnv, thread_of, claim, heartbeat, finish, finished,
}
use enterprise_sales_intelli.Runtime.Leases.Invariant.{IsValid, put}
use enterprise_sales_intelli.Runtime.Leases.Steps.{IsFresh}
use enterprise_sales_intelli.Runtime.Leases.Histories.{
  beaten, Beat, missed, taken, heartbeat-Beat, heartbeat-Advances, Finish, ignored, ended,
  finish-Finish, finish-Advances,
}

module _ {P : Type 0} where
  -- One call other than a `finish` of the run `r`.
  pub data LaterStep (r : String) (s t : Coordinator P) : Type 0 where
    claims :
        (a : ClaimRequest) (env : ClaimEnv)
        → IsFresh env s
        → t ≡ (claim a env s).1
        → LaterStep r s t
    beats : (q : String) (f lease now : ℕ) → t ≡ (heartbeat q f lease now s).1 → LaterStep r s t
    ends :
        (q : String) (f : ℕ) (st : ExecutionRunStatus) (p : Option P) (e : Option String) (now : ℕ)
        → q ≢ r
        → t ≡ (finish q f st p e now s).1
        → LaterStep r s t

  pub data Later (r : String) (s : Coordinator P) : Coordinator P → Type 0 where
    at_once : Later r s s
    after : {t u : Coordinator P} → Later r s t → LaterStep r t u → Later r s u

  -- The run `r` answers the request `k`, and no thread has it as its active run.
  pub record Settled (r : String) (k : Key) (p : P) (st : ExecutionRunStatus) (s : Coordinator P)
      : Type 0 where
    pub run : ExecutionRun P
    pub valid : IsValid s
    pub stored : lookup r s.runs ≡ some run
    pub answer : run.response_data ≡ some p
    pub ended_as : run.status ≡ st
    pub idle : (key : Key) → lookup key s.active ≢ some r
    pub requested : lookup k s.requests ≡ some r

  module _ (r : String) (k : Key) (p : P) (st : ExecutionRunStatus) where
    pub beats-Settled :
        (q : String) (f lease now : ℕ) (s : Coordinator P)
        → Settled r k p st s
        → Settled r k p st (heartbeat q f lease now s).1
    beats-Settled q f lease now s h =
        by_case (heartbeat q f lease now s) (heartbeat-Beat q f lease now s)
          (heartbeat-Advances q f lease now s h.valid).0
      where
        by_case :
            (out : _ × Coordinator P)
            → Beat q f lease now s out
            → IsValid out.1
            → Settled r k p st out.1
        by_case out (missed e) v = subst (Settled r k p st) (sym (ap (λ o. o.1) e)) h
        by_case out (taken run found same on e) v =
            let t = put q (beaten lease now run) s in
            let valid : IsValid t = subst IsValid (ap (λ o. o.1) e) v in
            subst (Settled r k p st) (sym (ap (λ o. o.1) e)) (elim (beq-cases q r) [
              | inl (is, mine) ↦
                  let one : run ≡ h.run =
                    some_inj (sym found ∙ ap (λ i. lookup i s.runs) mine ∙ h.stored) in
                  record {
                    run = beaten lease now run;
                    valid = valid;
                    stored =
                        ap (λ i. lookup i t.runs) (sym mine)
                        ∙ lookup-insert_self q (beaten lease now run) s.runs;
                    answer = ap (λ (x : ExecutionRun P). x.response_data) one ∙ h.answer;
                    ended_as = ap (λ (x : ExecutionRun P). x.status) one ∙ h.ended_as;
                    idle = h.idle;
                    requested = h.requested;
                  }
              | inr (is, other) ↦ record {
                run = h.run;
                valid = valid;
                stored = lookup-insert_ne r q (beaten lease now run) s.runs other ∙ h.stored;
                answer = h.answer;
                ended_as = h.ended_as;
                idle = h.idle;
                requested = h.requested;
              }
            ])

    pub ends-Settled :
        (q : String) (f : ℕ) (st' : ExecutionRunStatus) (o : Option P) (e : Option String) (now : ℕ)
        (s : Coordinator P)
        → q ≢ r
        → Settled r k p st s
        → Settled r k p st (finish q f st' o e now s).1
    ends-Settled q f st' o e now s other h =
        by_case (finish q f st' o e now s) (finish-Finish q f st' o e now s)
          (finish-Advances q f st' o e now s h.valid).0
      where
        by_case :
            (out : _ × Coordinator P)
            → Finish q f st' o e now s out
            → IsValid out.1
            → Settled r k p st out.1
        by_case out (ignored c) v = subst (Settled r k p st) (sym (ap (λ o. o.1) c)) h
        by_case out (ended run found same c) v =
            subst (Settled r k p st) (sym (ap (λ o. o.1) c)) (record {
              run = h.run;
              valid = subst IsValid (ap (λ o. o.1) c) v;
              stored = lookup-insert_ne r q (finished st' o e now run) s.runs other ∙ h.stored;
              answer = h.answer;
              ended_as = h.ended_as;
              idle = λ key at. h.idle key (lookup-erase_cases key (thread_of run) s.active at).1;
              requested = h.requested;
            })
