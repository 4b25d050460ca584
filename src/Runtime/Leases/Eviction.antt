-- ===== src/Runtime/Leases/Eviction.antt =====
-- The late `finish` of a worker that lost its thread to another.
use enterprise_sales_intelli.Prelude.{
  ℕ, String, ◌≡◌, refl, sym, ◌∙◌, ap, ◌≢◌, true, false, Option, none, some, string_eq, pair_eq,
  some_inj,
}
use enterprise_sales_intelli.Prelude.Dict.{lookup, erase, lookup-insert_ne, lookup-erase_self}
use enterprise_sales_intelli.Runtime.Models.{ExecutionRun, ExecutionRunStatus}
use enterprise_sales_intelli.Runtime.Leases.{
  Key, Coordinator, ClaimRequest, ClaimEnv, ok, thread_of, claim_key, request_key, claim, is_leased,
  active_run, find_run, can_promote, finish, finished,
}
use enterprise_sales_intelli.Runtime.Leases.Invariant.{IsValid, put, vacate}
use enterprise_sales_intelli.Runtime.Leases.Outcome.{started_run}
use enterprise_sales_intelli.Runtime.Leases.Histories.{finish-Advances}
use enterprise_sales_intelli.Runtime.Leases.Exclusion.{finish-found, started_when_free}

module _ {P : Type 0} where
  abbrev ended : String → ExecutionRun P → ExecutionRun P → Coordinator P → Coordinator P
  ended r x z s = vacate (thread_of x) (put r z s)

  vacant :
      (r : String) (x z : ExecutionRun P) (s : Coordinator P) (k : Key)
      → thread_of x ≡ k
      → lookup k (ended r x z s).active ≡ none
  vacant r x z s k thread =
      ap (λ j. lookup k (erase j s.active)) thread ∙ lookup-erase_self k s.active

  not_promoted :
      (q : String) (f : ℕ) (y : ExecutionRun P) (t : Coordinator P)
      → lookup q t.runs ≡ some y
      → lookup (thread_of y) t.active ≡ none
      → can_promote q f t ≡ false
  unfolding can_promote
  not_promoted q f y t found empty = rw (found, can_promote) (rw empty)

  free_when_vacant :
      (k : Key) (now : ℕ) (t : Coordinator P)
      → IsValid t
      → lookup k t.active ≡ none
      → is_leased now (active_run k t) ≡ false
  unfolding is_leased
  free_when_vacant k now t v empty = ap (is_leased now) (ap (λ o. find_run o t) empty ∙ v.unnamed)

  -- In a valid state run `r` has lost its thread: `q` is the thread's active run, under a lease
  -- that has not run out. A late `finish` of `r` with the fence token that `r` still carries
  -- succeeds and removes the entry of `q`. Then `q` is stored as before and its lease runs, but it
  -- may not promote, and a claim of the thread by an unknown request is granted at once.
  pub late_finish-evicts :
      (r q : String) (f : ℕ) (st : ExecutionRunStatus) (p : Option P) (e : Option String) (now : ℕ)
      (s : Coordinator P) (x y : ExecutionRun P) (a : ClaimRequest) (env : ClaimEnv)
      → IsValid s
      → r ≢ q
      → lookup r s.runs ≡ some x
      → x.fence_token ≡ f
      → thread_of x ≡ claim_key a
      → lookup (claim_key a) s.active ≡ some q
      → lookup q s.runs ≡ some y
      → is_leased env.now (some y) ≡ true
      → lookup (request_key a) s.requests ≡ none
      → let (done, t) = finish r f st p e now s in
        (done ≡ true)
        × (lookup q t.runs ≡ some y)
        × (can_promote q y.fence_token t ≡ false)
        × ((claim a env t).0 ≡ ok (started_run a env t))
  late_finish-evicts r q f st p e now s x y a env v other found same thread held stored leased new =
      let z = finished st p e now x in
      let t = ended r x z s in
      let valid = (finish-Advances r f st p e now s v).0 in
      let done = finish-found r f st p e now s x found same in
      let t-valid : IsValid t = rw (ap (λ o. o.1) done) at valid in
      let o = v.owned (claim_key a) q held in
      let same_run : o.run ≡ y = some_inj (sym o.found ∙ stored) in
      let y_thread : thread_of y ≡ claim_key a = ap thread_of (sym same_run) ∙ o.threaded in
      let kept : lookup q t.runs ≡ some y = lookup-insert_ne q r z s.runs other ∙ stored in
      let empty : lookup (claim_key a) t.active ≡ none = vacant r x z s (claim_key a) thread in
      rw done (
        refl,
        kept,
        not_promoted q y.fence_token y t kept (ap (λ k. lookup k t.active) y_thread ∙ empty),
        started_when_free a env t (ap (λ o. find_run o t) new ∙ t-valid.unnamed)
            (free_when_vacant (claim_key a) env.now t t-valid empty),
      )
