-- ===== src/Tasks/Repository/Isolation.antt =====
-- The workspaces do not see each other's tasks.
use enterprise_sales_intelli.Prelude.{
  ℕ, ◌≡◌, ◌≢◌, refl, String, true, Option, none, some, All, keep-All, keep-All_kept, ◌==◌,
  string_eq, arith, leb,
}
use enterprise_sales_intelli.Prelude.Dict.{lookup, values}
use enterprise_sales_intelli.Prelude.Sort.{sort-All}
use enterprise_sales_intelli.Tasks.Models.{LeadTask, TaskPatch, TaskStage, TaskStatus}
use enterprise_sales_intelli.Tasks.Repository.{
  Repository, Stamp, get_task, list_tasks, apply_patch, set_status, activate_task, err,
  task_not_found, assert_current,
}

module _ {V : Type 0} where
  foreign-get_task :
      (w id : String) (s : Repository V) (x : LeadTask V)
      → lookup id s.tasks ≡ some x
      → x.workspace_id ≢ w
      → get_task w (some id) none s ≡ none
  unfolding get_task
  foreign-get_task w id s x found away = ground (arith, string_eq.equals_iff x.workspace_id w)

  -- The operations on a task of another workspace report that there is none, and change nothing.
  pub foreign_task-refused :
      (w id session : String) (patch : TaskPatch V) (base : Option ℕ)
      (mutation message : Option String) (stage : Option TaskStage) (status : Option TaskStatus)
      (n : ℕ) (stamp : Stamp) (s : Repository V) (x : LeadTask V)
      → lookup id s.tasks ≡ some x
      → x.workspace_id ≢ w
      → (get_task w (some id) none s ≡ none)
        × (assert_current w id n s ≡ some (task_not_found id))
        × (apply_patch w id patch base mutation message stamp s ≡ (err (task_not_found id), s))
        × (set_status w id stage status stamp s ≡ (err (task_not_found id), s))
        × (activate_task w session id s ≡ (err (task_not_found id), s))
  unfolding apply_patch set_status activate_task assert_current
  foreign_task-refused w id session patch base mutation message stage status n stamp s x found
        away =
      let gone = foreign-get_task w id s x found away in
      (
        gone,
        rw (gone, assert_current) refl,
        rw (gone, apply_patch) refl,
        rw (gone, set_status) refl,
        rw (gone, activate_task) refl,
      )

  abbrev pub IsIn : String → LeadTask V → Type 0
  IsIn w x = (x.workspace_id == w) ≡ true

  -- Every task that `list_tasks` returns is of the workspace that asks.
  pub list_tasks-All-IsIn :
      (w : String) (session : Option String) (s : Repository V)
      → All (IsIn w) (list_tasks w session s)
  unfolding list_tasks
  list_tasks-All-IsIn w none s =
      sort-All (λ (t u : LeadTask V). leb t.created_at u.created_at) (IsIn w) _
        (keep-All (IsIn w) _ (λ x h. h) (values s.tasks))
  list_tasks-All-IsIn w (some name) s =
      sort-All (λ (t u : LeadTask V). leb t.created_at u.created_at) (IsIn w) _
        (keep-All_kept (IsIn w) _ _ (keep-All (IsIn w) _ (λ x h. h) (values s.tasks)))
