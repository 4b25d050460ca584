-- ===== src/Mutation/Service/Effects.antt =====
-- A mutation happens once, through the task repository, or changes no task.
use enterprise_sales_intelli.Prelude.{
  ℕ, ◌+◌, String, Option, none, some, get_or, ◌≡◌, inl, inr, refl, sym, ap, ◌∙◌, subst, Eq,
  Option-cases, Bool-cases, string_eq,
}
use enterprise_sales_intelli.Prelude.Dict.{Dict}
use enterprise_sales_intelli.Tasks.Models.{TaskPatch, LeadTask}
use enterprise_sales_intelli.Tasks.Repository.{Repository, get_task, assert_current, task_not_found}
use enterprise_sales_intelli.Tasks.Repository.Patches.{apply_patch-Outcome}
use enterprise_sales_intelli.Rules.Models.{BusinessRule}
use enterprise_sales_intelli.Rules.Values.{Values}
use enterprise_sales_intelli.Mutation.Models.{ArtifactReuseContext, CriteriaDiff}
use enterprise_sales_intelli.Mutation.Preview.{apply_patch_pure, build_preview}
use enterprise_sales_intelli.Mutation.Diff.{calculate_criteria_diff}
use enterprise_sales_intelli.Mutation.Planner.{ReexecutionPlan}
use enterprise_sales_intelli.Mutation.Repository.{find_mutation, get_mutation, save_plan}
use enterprise_sales_intelli.Mutation.Validation.{
  task_error, stored_operator_unknown, Fresh, validate_patch,
}
use enterprise_sales_intelli.Mutation.Service.{
  ServiceState, is_none_scope, plan_for, mutation_of, commit, mutate_task, mutate,
}
use enterprise_sales_intelli.Mutation.Service.Outcomes.{
  IsLinked, Effect, repeated, refused, unchanged, updated, Result-cases, stored, stored-found,
  stored-IsLinked, apply_patch-refused, current_version, finish-known, planned, applied,
  commit-nothing, commit-failed, commit-done,
}

module _ {V : Type 0} ⦃e : Eq V⦄ (w task_id message : String) (base : ℕ) (fresh : Fresh)
    (s : ServiceState V) where
  -- The end of `mutate` for the mutation that it makes.
  commit-Effect :
      (task : LeadTask V) (patch : TaskPatch V) (diff : CriteriaDiff V) (plan : ReexecutionPlan)
      → IsLinked s.requests
      → find_mutation task_id message s.requests ≡ none
      → get_task w (some task_id) none s.tasks ≡ some task
      → task.version ≡ base
      → Effect w task_id message base fresh s (
          commit w task_id
            (mutation_of task_id task base message patch diff plan.final_scope fresh)
            task
            plan
            fresh
            s)
  unfolding save_plan mutation_of find_mutation get_mutation build_preview apply_patch_pure
  commit-Effect task patch diff plan linked absent found current =
      let m = mutation_of task_id task base message patch diff plan.final_scope fresh in
      let t = planned w task_id message base fresh s m task plan in
      let a = applied w task_id message base fresh s m task plan in
      let with_tasks : ServiceState V = record t { tasks = a.1 } in
      let E = Effect w task_id message base fresh s in
      elim (Bool-cases (is_none_scope plan.final_scope)) [
        | inl nothing ↦
            subst E
              (sym (
                commit-nothing w task_id message base fresh s m task plan nothing
                ∙ finish-known w task_id message base fresh s m task t linked absent))
              (unchanged task m (record t { requests = stored m t.requests }) absent found current
                (rw nothing refl) refl
                (stored-IsLinked m t.requests linked, stored-found m t.requests))
        | inr something ↦ elim (Result-cases a.0) [
          | inl (why, failed) ↦
              subst E
                (sym
                  (commit-failed w task_id message base fresh s m task plan why something failed))
                (refused (task_error why) with_tasks absent
                  (apply_patch-refused w task_id message base fresh s patch (some base)
                    (some m.mutation_id) (some message) a why
                    (apply_patch-Outcome w task_id patch (some base) (some m.mutation_id)
                      (some message) fresh.stamp s.tasks)
                    failed)
                  (refl, refl))
          | inr (up, done) ↦
              subst E
                (sym (
                  commit-done w task_id message base fresh s m task plan up something done
                  ∙ finish-known w task_id message base fresh s m up with_tasks linked absent))
                (updated task up m (record with_tasks { requests = stored m t.requests }) absent
                  found current (rw something (ap (λ k. k + 1) current)) (ap (λ r. (r, a.1)) done)
                  (stored-IsLinked m t.requests linked, stored-found m t.requests))
        ]
      ]

module _ {V N : Type 0} ⦃e : Eq V⦄ (p : Values V N) (repr : V → String) (w : String)
    (rules : Option (Dict String (BusinessRule V)))
    (analyze : String → ℕ → Repository V → ArtifactReuseContext) where
  -- What `mutate` does where every known request leads to a mutation. A request that is known is
  -- answered by its mutation, and nothing changes. Otherwise the call is refused, and neither a
  -- task nor a known request changes; or the mutation has no effect, and the task stays at the base
  -- version; or the task has the base version and goes through `apply_patch` of the task
  -- repository, to a target version that is the next one. In the last two cases the request is
  -- known from then on.
  pub mutate-Effect :
      (task_id message : String) (base : ℕ) (patch : TaskPatch V)
      (reuse : Option ArtifactReuseContext) (fresh : Fresh) (s : ServiceState V)
      → IsLinked s.requests
      → Effect w task_id message base fresh s
          (mutate p repr w rules analyze task_id base message patch reuse fresh s)
  unfolding mutate mutate_task
  mutate-Effect task_id message base patch reuse fresh s linked =
      elim (Option-cases (find_mutation task_id message s.requests)) [
        | inr (m, known) ↦ rw (known, mutate) (repeated m known)
        | inl absent ↦ elim (Option-cases (validate_patch p w rules fresh patch task_id s.tasks)) [
          | inr (why, bad) ↦ rw (absent, bad, mutate) (refused why s absent refl (refl, refl))
          | inl good ↦ elim (Option-cases (get_task w (some task_id) none s.tasks)) [
            | inl gone ↦
                rw (absent, good, gone, mutate)
                  (refused (task_error (task_not_found task_id)) s absent refl (refl, refl))
            | inr (task, found) ↦ elim (Option-cases (assert_current w task_id base s.tasks)) [
              | inr (why, stale) ↦
                  rw (absent, good, found, stale, mutate)
                    (refused (task_error why) s absent refl (refl, refl))
              | inl passed ↦
                  elim (Option-cases (
                    calculate_criteria_diff repr fresh.criteria_id fresh.stamp.now task
                      (apply_patch_pure task patch))) [
                        | inl unknown_operator ↦
                            rw (absent, good, found, passed, unknown_operator, mutate, mutate_task)
                              (refused stored_operator_unknown s absent refl (refl, refl))
                        | inr (diff, made) ↦
                            rw (absent, good, found, passed, made, mutate, mutate_task)
                              (commit-Effect w task_id message base fresh s task patch diff
                                (plan_for task base patch diff
                                  (get_or reuse (analyze task_id base s.tasks)) fresh)
                                linked absent found
                                (current_version w task_id message base fresh s patch task found
                                  passed))
                      ]
            ]
          ]
        ]
      ]
