-- ===== src/Mutation/Service.antt =====
-- app/mutation/service.py: `MutationService.mutate`. The reuse analyzer is a parameter.
pub mod Outcomes
pub mod Effects
pub mod Repeats
mod Tests
use enterprise_sales_intelli.Prelude.{
  ◌⊎◌, inl, inr, ℕ, String, Bool, true, false, not, Option, none, some, List, [], keep, get_or,
  ◌==◌, string_eq, if◌then◌else◌, Eq,
}
use enterprise_sales_intelli.Prelude.Dict.{Dict}
use enterprise_sales_intelli.Prelude.Sort.{contains}
use enterprise_sales_intelli.Tasks.Models.{TaskPatch, LeadTask}
use enterprise_sales_intelli.Tasks.Repository.{
  Repository, task_not_found, Result, ok, err, get_task, assert_current, apply_patch,
}
use enterprise_sales_intelli.Rules.Models.{BusinessRule}
use enterprise_sales_intelli.Rules.Values.{Values}
use enterprise_sales_intelli.Mutation.Models.{
  ArtifactReuseContext, MutationScope, no_effect, TaskDiff, CriteriaDiff,
}
use enterprise_sales_intelli.Mutation.Preview.{apply_patch_pure, build_preview, calculate_task_diff}
use enterprise_sales_intelli.Mutation.Diff.{calculate_criteria_diff}
use enterprise_sales_intelli.Mutation.Planner.{ReexecutionPlan, plan}
use enterprise_sales_intelli.Mutation.Repository.{
  TaskMutation, MutationRepository, find_mutation, save_mutation, save_plan,
}
use enterprise_sales_intelli.Mutation.Validation.{
  MutationError, task_error, stored_operator_unknown, request_index_broken, Fresh, validate_patch,
}

pub record ServiceState (V : Type 0) : Type 0 where
  pub tasks : Repository V
  pub requests : MutationRepository V

abbrev pub is_none_scope : MutationScope → Bool
is_none_scope no_effect = true
is_none_scope _ = false

-- What `mutate` returns: the mutation and the task, which may be gone when the request is known.
abbrev pub Answer : Type 0 → Type 0
Answer V = MutationError ⊎ (TaskMutation V × Option (LeadTask V))

module _ {V : Type 0} where
  -- `set(prospective.required_fields) - set(task.required_fields)`, when the fields changed.
  unfoldable pub newly_required : TaskDiff → LeadTask V → LeadTask V → List String
  newly_required d task prospective =
      if d.required_fields_changed
      then keep (λ field. not (contains field task.requirements.required_fields))
          prospective.requirements.required_fields
      else []

  -- The plan for a patched task, from the differences.
  unfoldable pub plan_for :
      ⦃e : Eq V⦄
      → LeadTask V
      → ℕ
      → TaskPatch V
      → CriteriaDiff V
      → ArtifactReuseContext
      → Fresh
      → ReexecutionPlan
  plan_for task base patch criteria_diff reuse fresh =
      let preview = build_preview task patch in
      let prospective = apply_patch_pure task patch in
      let task_diff = calculate_task_diff preview in
      plan task_diff criteria_diff reuse base preview.next_version task.requirements.target_count
        prospective.requirements.target_count (some (newly_required task_diff task prospective))
        fresh.plan_id fresh.stamp.now

  unfoldable pub mutation_of :
      ⦃e : Eq V⦄
      → String
      → LeadTask V
      → ℕ
      → String
      → TaskPatch V
      → CriteriaDiff V
      → MutationScope
      → Fresh
      → TaskMutation V
  mutation_of task_id task base message patch criteria_diff scope fresh =
      let preview = build_preview task patch in
      record {
        mutation_id = fresh.mutation_id;
        task_id = task_id;
        source_message_id = message;
        base_version = base;
        target_version = if is_none_scope scope then base else preview.next_version;
        patch = patch;
        preview = preview;
        task_diff = calculate_task_diff preview;
        criteria_diff = criteria_diff;
        scope = scope;
        reexecution_plan_id = fresh.plan_id;
        created_at = fresh.stamp.now;
      }

  -- The mutation is saved, and the task goes with it.
  unfoldable pub finish : TaskMutation V → LeadTask V → ServiceState V → Answer V × ServiceState V
  finish m task s =
      let (saved, requests) = save_mutation m s.requests in
      let s' : ServiceState V = record s { requests = requests } in
      elim saved [ none ↦ (inl request_index_broken, s') | some m' ↦ (inr (m, some task), s') ]

  -- The end of `mutate`, from the plan on.
  unfoldable pub commit :
      String
      → String
      → TaskMutation V
      → LeadTask V
      → ReexecutionPlan
      → Fresh
      → ServiceState V
      → Answer V × ServiceState V
  commit workspace task_id m task found fresh s =
      let s' : ServiceState V = record s { requests = save_plan found s.requests } in
      if is_none_scope found.final_scope
      then finish m task s'
      else (let (result, tasks) =
            apply_patch workspace task_id m.patch (some m.base_version) (some m.mutation_id)
              (some m.source_message_id) fresh.stamp s'.tasks in
          let s'' : ServiceState V = record s' { tasks = tasks } in
          elim result [ err why ↦ (inl (task_error why), s'') | ok updated ↦ finish m updated s'' ])

module _ {V N : Type 0} ⦃e : Eq V⦄ (p : Values V N) (repr : V → String) (workspace : String)
    (rules : Option (Dict String (BusinessRule V)))
    (analyze : String → ℕ → Repository V → ArtifactReuseContext) where
  -- `mutate` on a task that has the base version.
  unfoldable pub mutate_task :
      LeadTask V
      → String
      → ℕ
      → String
      → TaskPatch V
      → Option ArtifactReuseContext
      → Fresh
      → ServiceState V
      → Answer V × ServiceState V
  mutate_task task task_id base message patch reuse_context fresh s =
      elim (calculate_criteria_diff repr fresh.criteria_id fresh.stamp.now task
        (apply_patch_pure task patch)) [
          | none ↦ (inl stored_operator_unknown, s)
          | some diff ↦
              let reuse = get_or reuse_context (analyze task_id base s.tasks) in
              let found = plan_for task base patch diff reuse fresh in
              let m = mutation_of task_id task base message patch diff found.final_scope fresh in
              commit workspace task_id m task found fresh s
        ]

  unfoldable pub mutate :
      String
      → ℕ
      → String
      → TaskPatch V
      → Option ArtifactReuseContext
      → Fresh
      → ServiceState V
      → Answer V × ServiceState V
  mutate task_id base message patch reuse_context fresh s =
      elim (find_mutation task_id message s.requests) [
        | some existing ↦ (inr (existing, get_task workspace (some task_id) none s.tasks), s)
        | none ↦ elim (validate_patch p workspace rules fresh patch task_id s.tasks) [
          | some why ↦ (inl why, s)
          | none ↦ elim (get_task workspace (some task_id) none s.tasks) [
            | none ↦ (inl (task_error (task_not_found task_id)), s)
            | some task ↦ elim (assert_current workspace task_id base s.tasks) [
              | some why ↦ (inl (task_error why), s)
              | none ↦ mutate_task task task_id base message patch reuse_context fresh s
            ]
          ]
        ]
      ]
