-- ===== src/Runtime/Leases/Tests.antt =====
-- Two workers on one thread, and the theorems at these inputs.
use enterprise_sales_intelli.Prelude.{
  ℕ, String, ◌<◌, [], ◌∷◌, ◌≡◌, refl, true, false, none, some, arith, string_eq, pair_eq,
}
use text.Mathlib.TextEquality.{eq_iff}
use enterprise_sales_intelli.Prelude.Dict.{lookup, insert, erase}
use enterprise_sales_intelli.Runtime.Models.{
  ExecutionRun, completed, is_active, is_reclaimable, is_paused,
}
use enterprise_sales_intelli.Runtime.Leases.{
  Coordinator, ClaimRequest, ClaimEnv, ok, fence_of, claim, claim_thread, start, resume, install,
  release_expired, is_leased, refuse, can_promote, finish, heartbeat, empty,
}
use enterprise_sales_intelli.Runtime.Leases.Invariant.{IsValid}
use enterprise_sales_intelli.Runtime.Leases.Outcome.{started_run}
use enterprise_sales_intelli.Runtime.Leases.Steps.{IsFresh}
use enterprise_sales_intelli.Runtime.Leases.Histories.{Reach, here, next, claims}
use enterprise_sales_intelli.Runtime.Leases.Fencing.{
  history-IsValid, can_promote_unique, stale_fence-never-promotes,
}
use enterprise_sales_intelli.Runtime.Leases.Claims.{Granted, claim-Granted}
use enterprise_sales_intelli.Runtime.Leases.Exclusion.{claim_each, IsRival, claim_excludes}
use enterprise_sales_intelli.Runtime.Leases.Settled.{at_once, after, beats}
use enterprise_sales_intelli.Runtime.Leases.Replays.{finish-claim_replays}
use enterprise_sales_intelli.Runtime.Leases.Eviction.{late_finish-evicts}

abbrev request : String → String → ClaimRequest
request id owner = record {
  request_id = id;
  thread_id = "thread";
  workspace_id = "local";
  user_id = "user";
  owner = owner;
  lease_seconds = 10;
  trace_id = "trace";
}

abbrev at_time : ℕ → String → ClaimEnv
at_time t id = record { now = t; started_at = t; new_run_id = id }

abbrev fresh_state : Coordinator String
fresh_state = empty

abbrev first : ClaimRequest
first = request "q1" "alice"

abbrev second : ClaimRequest
second = request "q2" "bob"

abbrev third : ClaimRequest
third = request "q3" "carol"

abbrev after_first : Coordinator String
after_first = (claim first (at_time 0 "r1") fresh_state).1

abbrev after_second : Coordinator String
after_second = (claim second (at_time 20000000 "r2") after_first).1

abbrev run1 : ExecutionRun String
run1 = started_run first (at_time 0 "r1") fresh_state

abbrev run2 : ExecutionRun String
run2 = started_run second (at_time 20000000 "r2") after_first

program : Unit {0}
unfolding claim claim_thread start resume install release_expired is_leased can_promote finish
    lookup insert erase is_active is_reclaimable is_paused
program = tt

-- The lease of the first run has run out after twenty seconds, and the second worker takes over.
takeover : fence_of ("local", "thread") after_second ≡ 2
unfolding program
takeover = refl

second_granted : (claim second (at_time 20000000 "r2") after_first).0 ≡ ok run2
unfolding program
second_granted = refl

r1-IsFresh : IsFresh {P = String} (at_time 0 "r1") fresh_state
unfolding program
r1-IsFresh = record { named = ground (arith, eq_iff "r1" ""); unused = refl }

r2-IsFresh : IsFresh (at_time 20000000 "r2") after_first
unfolding program
r2-IsFresh = record { named = ground (arith, eq_iff "r2" ""); unused = refl }

after_second-Reach : Reach fresh_state after_second
after_second-Reach =
    next (next here (claims first (at_time 0 "r1") r1-IsFresh refl))
      (claims second (at_time 20000000 "r2") r2-IsFresh refl)

first-IsValid : IsValid after_first
first-IsValid = history-IsValid (next here (claims first (at_time 0 "r1") r1-IsFresh refl))

second-IsValid : IsValid after_second
second-IsValid = history-IsValid after_second-Reach

history-IsValid_example : IsValid after_second
history-IsValid_example = history-IsValid after_second-Reach

can_promote_unique_example : (run2.run_id ≡ "r2") × (run2.fence_token ≡ 2)
unfolding program
can_promote_unique_example =
    can_promote_unique "r2" "r2" 2 2 run2 run2 after_second second-IsValid refl refl refl refl refl

stale_fence-never-promotes_example : can_promote "r1" 1 after_second ≡ false
unfolding program
stale_fence-never-promotes_example =
    stale_fence-never-promotes "r1" 1 _ after_second after_second second-IsValid refl (omega arith)
      here

claim-Granted_example : Granted second (at_time 20000000 "r2") after_first run2 after_second
claim-Granted_example =
    claim-Granted second (at_time 20000000 "r2") after_first run2 first-IsValid r2-IsFresh
      second_granted refl

-- A claim of the thread by the third worker, while the lease of the second one runs.
third-IsRival :
    (now : ℕ)
    → now < 30000000
    → IsRival ("local", "thread") 30000000 after_second (third, at_time now "r3")
unfolding program
third-IsRival now before = record { same = refl; before = before; unanswered = refl }

claim_excludes_example :
    claim third
      (at_time 29999999 "r3")
      (claim_each ((third, at_time 20000001 "r3") ∷ []) after_second)
    ≡ refuse third after_second
unfolding program
claim_excludes_example =
    claim_excludes second third (at_time 20000000 "r2") (at_time 29999999 "r3") after_first run2
      ((third, at_time 20000001 "r3") ∷ []) first-IsValid r2-IsFresh refl refl
      (third-IsRival 20000001 (omega arith), tt) (third-IsRival 29999999 (omega arith))

-- The second run is finished, and the first one beats once more, in vain.
abbrev answered : Coordinator String
answered = (finish "r2" 2 completed (some "done") none 21000000 after_second).1

abbrev beaten_late : Coordinator String
beaten_late = (heartbeat "r1" 1 10 21500000 answered).1

finish-claim_replays_example :
    (y : ExecutionRun String) × (claim second (at_time 22000000 "r4") beaten_late
      ≡ (ok y, beaten_late))
    × (y.run_id ≡ "r2")
    × (y.response_data ≡ some "done")
    × (y.status ≡ completed)
unfolding program
finish-claim_replays_example =
    finish-claim_replays "r2" 2 completed "done" none 21000000 after_second beaten_late run2 second
      (at_time 22000000 "r4") second-IsValid refl refl refl
      (after at_once (beats "r1" 1 10 21500000 refl))

late_finish-evicts_example :
    let (done, t) = finish "r1" 1 completed none none 22000000 after_second in
    (done ≡ true)
    × (lookup "r2" t.runs ≡ some run2)
    × (can_promote "r2" 2 t ≡ false)
    × ((claim third (at_time 23000000 "r3") t).0 ≡ ok (started_run third (at_time 23000000 "r3") t))
unfolding program
late_finish-evicts_example =
    late_finish-evicts "r1" "r2" 1 completed none none 22000000 after_second _ run2 third
      (at_time 23000000 "r3") second-IsValid (ground (arith, eq_iff "r1" "r2")) refl refl refl refl
      refl refl refl
