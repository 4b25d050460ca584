-- ===== src/Execution/Snapshots/Tests.antt =====
-- A task at version 2, whose snapshots are promoted one after the other.
use enterprise_sales_intelli.Prelude.{◌≡◌, refl, true, false, none, some, [], arith, string_eq}
use text.Mathlib.TextEquality.{eq_iff}
use enterprise_sales_intelli.Prelude.Dict.{lookup, insert}
use enterprise_sales_intelli.Execution.Snapshots.{
  TaskExecutionSnapshot, SnapshotRepository, reusable, current_one, save, get, current, demote,
  install, promote, marked,
}
use enterprise_sales_intelli.Execution.Snapshots.Promotion.{
  IsSingle, promote-IsSingle, promote-current,
}

program : Unit {0}
unfolding lookup insert save get current demote install promote
program = tt

abbrev blank : SnapshotRepository
blank = record { snapshots = []; current_ids = [] }

abbrev first : TaskExecutionSnapshot
first = record {
  snapshot_id = "e1";
  task_id = "t1";
  task_version = 1;
  criteria_snapshot_id = some "c1";
  search_plan_id = none;
  raw_candidate_set_id = none;
  filtered_candidate_set_id = none;
  researched_candidate_set_id = none;
  verified_lead_set_id = none;
  scoring_profile_id = none;
  lead_score_set_id = none;
  is_current = false;
  validity = reusable;
  created_at = 1;
}

abbrev second : TaskExecutionSnapshot
second = record first { snapshot_id = "e2"; task_version = 2 }

abbrev promoted_once : SnapshotRepository
promoted_once = (promote first 1 blank).1

blank-IsSingle : IsSingle blank
unfolding lookup
blank-IsSingle = record { named = λ id x h. absurd (cc); single = λ id x h on. absurd (cc) }

first_demoted :
    get (some "e1") (promote second 2 promoted_once).1 ≡ some (marked false reusable first)
unfolding program
first_demoted = refl

promote-IsSingle_example : IsSingle (promote second 2 promoted_once).1
promote-IsSingle_example =
    promote-IsSingle second 2 promoted_once (promote-IsSingle first 1 blank blank-IsSingle)

promote-current_example :
    let (done, t) = promote second 2 promoted_once in
    (done ≡ true) × (current "t1" t ≡ some (marked true current_one second))
unfolding program
promote-current_example =
    promote-current second 2 "t1" promoted_once (ground (arith, eq_iff "e1" "e2"))
