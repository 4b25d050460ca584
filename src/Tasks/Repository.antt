-- ===== src/Tasks/Repository.antt =====
-- app/repositories/mock_task_repository.py: the versioned task repository. `workspace` is what
-- `_workspace_id` reads of the request context, and a `Stamp` what a call takes from the clock and
-- from `uuid4`. Values are copied in and out by `deepcopy`, so nothing is shared.
pub mod Versions
pub mod Saves
pub mod Steps
pub mod Patches
pub mod Commits
pub mod Histories
pub mod Answers
pub mod Patching
pub mod Isolation
mod Tests
use enterprise_sales_intelli.Prelude.{
  ℕ, String, Bool, true, false, not, Option, none, some, List, [], ◌∷◌, keep, leb, eqb, get_or,
  ◌==◌, string_eq, pair_eq, if◌then◌else◌,
}
use enterprise_sales_intelli.Prelude.Dict.{lookup, insert, values}
use enterprise_sales_intelli.Prelude.Sort.{sort}
use enterprise_sales_intelli.Tasks.Models.{TaskStage, TaskStatus, TaskPatch, LeadTask, TaskVersion}
pub use enterprise_sales_intelli.Tasks.Store.{
  Repository, Stamp, TaskError, task_not_found, version_conflict, version_missing, Result, ok, err,
  session_key, given, Provenance, no_provenance, remember, recall, empty, from_task, versions_of,
  put_active,
}
unfoldable pub use enterprise_sales_intelli.Tasks.Store.{find_version, record_version, new_task}
use enterprise_sales_intelli.Mutation.Preview.{apply_patch_pure, patched}

module _ {V : Type 0} where
  unfoldable pub get_task :
      String → Option String → Option String → Repository V → Option (LeadTask V)
  get_task workspace id scope s = elim (lookup (get_or id "") s.tasks) [
    | none ↦ none
    | some task ↦ if task.workspace_id == get_or (given scope) workspace then some task else none
  ]

  unfoldable pub get_active_task : String → String → Repository V → Option (LeadTask V)
  get_active_task workspace session s =
      get_task workspace (lookup (session_key workspace session) s.active_by_session)
        (some workspace) s

  -- The writes of `create_task`.
  unfoldable pub add_task : LeadTask V → Stamp → Repository V → Repository V
  add_task task stamp s =
      let s' = put_active task s in
      let key = session_key task.workspace_id task.session_id in
      record s' {
        versions = insert task.task_id (from_task task no_provenance stamp ∷ []) s'.versions;
        create_requests = remember key task.source_message_id task.task_id s'.create_requests;
      }

  unfoldable pub create_task :
      String → String → Option String → Stamp → Repository V → Option (LeadTask V) × Repository V
  create_task workspace session message stamp s =
      let key = session_key workspace session in
      elim (given (recall key message s.create_requests)) [
        | some existing ↦ (get_task workspace (some existing) none s, s)
        | none ↦
            let task = new_task workspace session message stamp in
            (some task, add_task task stamp s)
      ]

  unfoldable pub list_tasks : String → Option String → Repository V → List (LeadTask V)
  list_tasks workspace session s =
      let here = keep (λ (t : LeadTask V). t.workspace_id == workspace) (values s.tasks) in
      let chosen : List (LeadTask V) = elim session [
        | none ↦ here
        | some name ↦ keep (λ (t : LeadTask V). t.session_id == name) here
      ] in
      sort (λ (t u : LeadTask V). leb t.created_at u.created_at) chosen

  unfoldable pub activate_task :
      String → String → String → Repository V → Result (LeadTask V) × Repository V
  activate_task workspace session id s = elim (get_task workspace (some id) none s) [
    | none ↦ (err (task_not_found id), s)
    | some task ↦ if not (task.session_id == session) then (err (task_not_found id), s) else (
      ok task,
      record s {
        active_by_session = insert (session_key task.workspace_id session) id s.active_by_session;
      },
    )
  ]

  unfoldable pub update_task :
      LeadTask V → Bool → Provenance → Stamp → Repository V → LeadTask V × Repository V
  update_task given_task recorded p stamp s =
      let task = record given_task { updated_at = stamp.now } in
      let s' = put_active task s in
      (
        task,
        if recorded
            then record s' {
              versions =
                  insert task.task_id (record_version task p stamp (versions_of task.task_id s'))
                    s'.versions;
            }
            else s',
      )

  -- None if the task is current, and otherwise what is raised.
  unfoldable pub assert_current : String → String → ℕ → Repository V → Option TaskError
  assert_current workspace id expected s = elim (get_task workspace (some id) none s) [
    | none ↦ some (task_not_found id)
    | some task ↦
        if eqb task.version expected then none else some (version_conflict id expected task.version)
  ]

  unfoldable pub get_version : String → ℕ → Repository V → Option (TaskVersion V)
  get_version id n s = find_version n (versions_of id s)

  -- `_task_from_version`
  abbrev pub task_from_version : LeadTask V → TaskVersion V → LeadTask V
  task_from_version head v = record head { version = v.version; requirements = v.requirements }

  -- The end of `apply_patch`: the patched task is saved, and the request remembered.
  unfoldable pub commit_patch :
      String
      → LeadTask V
      → TaskPatch V
      → Option String
      → Option String
      → Stamp
      → Repository V
      → LeadTask V × Repository V
  commit_patch id task patch mutation message stamp s =
      let p : Provenance = record {
        parent_version = some task.version;
        mutation_id = mutation;
        source_message_id = message;
      } in
      let (saved, s') = update_task (apply_patch_pure task patch) true p stamp s in
      (
        saved,
        record s' { mutation_requests = remember id message saved.version s'.mutation_requests },
      )

  unfoldable pub apply_patch :
      String
      → String
      → TaskPatch V
      → Option ℕ
      → Option String
      → Option String
      → Stamp
      → Repository V
      → Result (LeadTask V) × Repository V
  apply_patch workspace id patch base mutation message stamp s =
      elim (get_task workspace (some id) none s) [
        | none ↦ (err (task_not_found id), s)
        | some task ↦ elim (recall id message s.mutation_requests) [
          | some prior ↦ (
            elim (get_version id prior s) [
              | none ↦ err version_missing
              | some v ↦ ok (task_from_version task v)
            ],
            s,
          )
          | none ↦ elim (assert_current workspace id (get_or base task.version) s) [
            | some e ↦ (err e, s)
            | none ↦
                let (saved, s') = commit_patch id task patch mutation message stamp s in
                (ok saved, s')
          ]
        ]
      ]

  unfoldable pub set_status :
      String
      → String
      → Option TaskStage
      → Option TaskStatus
      → Stamp
      → Repository V
      → Result (LeadTask V) × Repository V
  set_status workspace id stage status stamp s = elim (get_task workspace (some id) none s) [
    | none ↦ (err (task_not_found id), s)
    | some task ↦
        let task' = record task {
          stage = patched stage task.stage;
          status = patched status task.status;
        } in
        let (saved, s') = update_task task' false no_provenance stamp s in (ok saved, s')
  ]

  unfoldable pub list_versions : String → Repository V → List (TaskVersion V)
  list_versions id s = versions_of id s

  unfoldable pub restore_task :
      LeadTask V → Option (List (TaskVersion V)) → Stamp → Repository V → LeadTask V × Repository V
  restore_task task history stamp s =
      let s' = put_active task s in
      let key = session_key task.workspace_id task.session_id in
      let first = from_task task no_provenance stamp ∷ [] in
      (
        task,
        record s' {
          versions =
              insert task.task_id (elim (get_or history []) [ [] ↦ first | v ∷ vs ↦ v ∷ vs ])
                s'.versions;
          create_requests = remember key task.source_message_id task.task_id s'.create_requests;
        },
      )
