-- ===== src/Execution/Snapshots.antt =====
-- app/execution/models.py and `InMemoryExecutionSnapshotRepository` of app/execution/repository.py.
-- Values are copied in and out by `deepcopy`, so nothing is shared.
pub mod Promotion
mod Tests
use enterprise_sales_intelli.Prelude.{
  ℕ, String, Bool, true, false, not, ◌&&◌, Option, none, some, List, [], ◌∷◌, keep, eqb, get_or,
  ◌==◌, string_eq, if◌then◌else◌,
}
use enterprise_sales_intelli.Prelude.Dict.{Dict, lookup, insert, values}

pub data ArtifactValidity : Type 0 where
  current_one reusable superseded invalidated : ArtifactValidity

pub record TaskExecutionSnapshot : Type 0 where
  pub snapshot_id : String
  pub task_id : String
  pub task_version : ℕ
  pub criteria_snapshot_id : Option String
  pub search_plan_id : Option String
  pub raw_candidate_set_id : Option String
  pub filtered_candidate_set_id : Option String
  pub researched_candidate_set_id : Option String
  pub verified_lead_set_id : Option String
  pub scoring_profile_id : Option String
  pub lead_score_set_id : Option String
  pub is_current : Bool
  pub validity : ArtifactValidity
  pub created_at : ℕ

pub record SnapshotRepository : Type 0 where
  pub snapshots : Dict String TaskExecutionSnapshot
  pub current_ids : Dict String String

unfoldable pub save : TaskExecutionSnapshot → SnapshotRepository → SnapshotRepository
save x s = record s { snapshots = insert x.snapshot_id x s.snapshots }

unfoldable pub get : Option String → SnapshotRepository → Option TaskExecutionSnapshot
get id s = lookup (get_or id "") s.snapshots

unfoldable pub current : String → SnapshotRepository → Option TaskExecutionSnapshot
current task s = get (lookup task s.current_ids) s

abbrev pub last_of : List TaskExecutionSnapshot → Option TaskExecutionSnapshot
last_of [] = none
last_of (x ∷ xs) = elim (last_of xs) [ none ↦ some x | some y ↦ some y ]

unfoldable pub for_version : String → ℕ → SnapshotRepository → Option TaskExecutionSnapshot
for_version task version s = last_of (
    keep (λ (x : TaskExecutionSnapshot). x.task_id == task && eqb x.task_version version)
      (values s.snapshots))

unfoldable pub list_for_task : String → SnapshotRepository → List TaskExecutionSnapshot
list_for_task task s = keep (λ (x : TaskExecutionSnapshot). x.task_id == task) (values s.snapshots)

abbrev pub marked : Bool → ArtifactValidity → TaskExecutionSnapshot → TaskExecutionSnapshot
marked is_current validity x = record x { is_current = is_current; validity = validity }

-- The task's present snapshot, if it has one, is kept for reuse.
unfoldable pub demote : Option TaskExecutionSnapshot → SnapshotRepository → SnapshotRepository
demote none s = s
demote (some previous) s = save (marked false reusable previous) s

-- `promote`, when the snapshot is of the task's present version.
unfoldable pub install : TaskExecutionSnapshot → SnapshotRepository → SnapshotRepository
install x s =
    let s' = save (marked true current_one x) (demote (current x.task_id s) s) in
    record s' { current_ids = insert x.task_id x.snapshot_id s'.current_ids }

unfoldable pub promote : TaskExecutionSnapshot → ℕ → SnapshotRepository → Bool × SnapshotRepository
promote x version s =
    if not (eqb x.task_version version)
    then (false, save (marked false superseded x) s)
    else (true, install x s)
