-- ===== src/Runtime/Leases/Histories.antt =====
-- Histories: the calls of several workers, in any order. The lock makes each call one step.
use enterprise_sales_intelli.Prelude.{
  ℕ, ◌+◌, String, ◌≡◌, refl, sym, ap, subst, ◌⊎◌, inl, inr, Bool, true, false, Option, some,
  string_eq, pair_eq, arith, Option-cases, eqb, not, ◌||◌,
}
use enterprise_sales_intelli.Prelude.Dict.{lookup}
use enterprise_sales_intelli.Runtime.Models.{ExecutionRun, ExecutionRunStatus, is_active}
use enterprise_sales_intelli.Runtime.Leases.{
  Coordinator, ClaimRequest, ClaimEnv, thread_of, claim, heartbeat, finish, finished, seconds,
}
use enterprise_sales_intelli.Runtime.Leases.Invariant.{
  IsValid, Similar, put, put-IsValid, vacate, vacate-IsValid,
}
use enterprise_sales_intelli.Runtime.Leases.Growth.{
  Grows-refl, Grows-trans, put-Grows, vacate-Grows,
}
use enterprise_sales_intelli.Runtime.Leases.Steps.{IsFresh, Advances, claim-Advances}

module _ {P : Type 0} where
  abbrev pub beaten : ℕ → ℕ → ExecutionRun P → ExecutionRun P
  beaten lease now run = record run {
    heartbeat_at = some now;
    lease_expires_at = some (now + seconds lease);
  }

  -- A refused heartbeat changes nothing, and one that is taken extends the lease of an active run.
  pub data Beat (r : String) (f lease now : ℕ) (s : Coordinator P) (out : Bool × Coordinator P)
      : Type 0 where
    missed : out ≡ (false, s) → Beat r f lease now s out
    taken :
        (run : ExecutionRun P)
        → lookup r s.runs ≡ some run
        → run.fence_token ≡ f
        → is_active run.status ≡ true
        → out ≡ (true, put r (beaten lease now run) s)
        → Beat r f lease now s out

  pub heartbeat-Beat :
      (r : String) (f lease now : ℕ) (s : Coordinator P)
      → Beat r f lease now s (heartbeat r f lease now s)
  unfolding heartbeat
  heartbeat-Beat r f lease now s = elim (Option-cases (lookup r s.runs)) [
    | inl absent ↦ missed (rw (absent, heartbeat))
    | inr (run, found) ↦ elim (cases run) [
      | inl (same, on) ↦ taken run found same on (rw (found, heartbeat) (ground arith))
      | inr off ↦ missed (rw (found, heartbeat) (ground arith))
    ]
  ]
    where
      cases :
          (run : ExecutionRun P)
          → (run.fence_token ≡ f) × (is_active run.status ≡ true)
            ⊎ ((not (eqb run.fence_token f) || not (is_active run.status)) ≡ true)
      cases run = ground arith

  -- A call of `finish` with another fence token changes nothing.
  pub data Finish (r : String) (f : ℕ) (st : ExecutionRunStatus) (p : Option P) (e : Option String)
      (now : ℕ) (s : Coordinator P) (out : Bool × Coordinator P) : Type 0 where
    ignored : out ≡ (false, s) → Finish r f st p e now s out
    ended :
        (run : ExecutionRun P)
        → lookup r s.runs ≡ some run
        → run.fence_token ≡ f
        → out ≡ (true, vacate (thread_of run) (put r (finished st p e now run) s))
        → Finish r f st p e now s out

  pub finish-Finish :
      (r : String) (f : ℕ) (st : ExecutionRunStatus) (p : Option P) (e : Option String) (now : ℕ)
      (s : Coordinator P)
      → Finish r f st p e now s (finish r f st p e now s)
  unfolding finish
  finish-Finish r f st p e now s = elim (Option-cases (lookup r s.runs)) [
    | inl absent ↦ ignored (rw (absent, finish))
    | inr (run, found) ↦ elim (cases run) [
      | inl same ↦ ended run found same (rw (found, finish) (ground arith))
      | inr off ↦ ignored (rw (found, finish) (ground arith))
    ]
  ]
    where
      cases : (run : ExecutionRun P) → (run.fence_token ≡ f) ⊎ (eqb run.fence_token f ≡ false)
      cases run = ground arith

  pub heartbeat-Advances :
      (r : String) (f lease now : ℕ) (s : Coordinator P)
      → IsValid s
      → Advances s (heartbeat r f lease now s).1
  heartbeat-Advances r f lease now s v =
      by_case (heartbeat r f lease now s) (heartbeat-Beat r f lease now s)
    where
      by_case : (out : Bool × Coordinator P) → Beat r f lease now s out → Advances s out.1
      by_case out (missed e) = subst (Advances s) (sym (ap (λ o. o.1) e)) (v, Grows-refl s)
      by_case out (taken run found same on e) =
          let similar : Similar run (beaten lease now run) = record {
            named = refl;
            threaded = refl;
            fenced = refl;
          } in
          subst (Advances s) (sym (ap (λ o. o.1) e)) (
            put-IsValid s r run (beaten lease now run) found similar v,
            put-Grows s r run (beaten lease now run) found similar,
          )

  pub finish-Advances :
      (r : String) (f : ℕ) (st : ExecutionRunStatus) (p : Option P) (e : Option String) (now : ℕ)
      (s : Coordinator P)
      → IsValid s
      → Advances s (finish r f st p e now s).1
  finish-Advances r f st p e now s v =
      by_case (finish r f st p e now s) (finish-Finish r f st p e now s)
    where
      by_case : (out : Bool × Coordinator P) → Finish r f st p e now s out → Advances s out.1
      by_case out (ignored q) = subst (Advances s) (sym (ap (λ o. o.1) q)) (v, Grows-refl s)
      by_case out (ended run found same q) =
          let x = finished st p e now run in
          let similar : Similar run x = record { named = refl; threaded = refl; fenced = refl } in
          subst (Advances s) (sym (ap (λ o. o.1) q)) (
            vacate-IsValid (thread_of run) (put r x s) (put-IsValid s r run x found similar v),
            Grows-trans (put-Grows s r run x found similar)
                (vacate-Grows (thread_of run) (put r x s)),
          )

  -- One call, with any arguments and any reading of the clock.
  pub data Step (s t : Coordinator P) : Type 0 where
    claims : (a : ClaimRequest) (env : ClaimEnv) → IsFresh env s → t ≡ (claim a env s).1 → Step s t
    beats : (r : String) (f lease now : ℕ) → t ≡ (heartbeat r f lease now s).1 → Step s t
    ends :
        (r : String) (f : ℕ) (st : ExecutionRunStatus) (p : Option P) (e : Option String) (now : ℕ)
        → t ≡ (finish r f st p e now s).1
        → Step s t

  pub data Reach (s : Coordinator P) : Coordinator P → Type 0 where
    here : Reach s s
    next : {t u : Coordinator P} → Reach s t → Step t u → Reach s u

  Step-Advances : {s t : Coordinator P} → IsValid s → Step s t → Advances s t
  Step-Advances {s} v (claims a env f e) = subst (Advances s) (sym e) (claim-Advances a env s v f)
  Step-Advances {s} v (beats r f lease now e) =
      subst (Advances s) (sym e) (heartbeat-Advances r f lease now s v)
  Step-Advances {s} v (ends r f st p x now e) =
      subst (Advances s) (sym e) (finish-Advances r f st p x now s v)

  pub Reach-Advances : {s t : Coordinator P} → IsValid s → Reach s t → Advances s t
  Reach-Advances {s} v here = (v, Grows-refl s)
  Reach-Advances v (next r st) =
      let (w, g) = Reach-Advances v r in let (u, h) = Step-Advances w st in (u, Grows-trans g h)
