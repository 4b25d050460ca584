-- ===== src/Mutation/Repository.antt =====
-- app/mutation/repository.py: `InMemoryMutationRepository`, and `TaskMutation` of
-- app/mutation/models.py. Values are copied in and out by `deepcopy`, so nothing is shared.
use enterprise_sales_intelli.Prelude.{
  ℕ, String, Option, none, some, get_or, ◌==◌, string_eq, pair_eq, if◌then◌else◌,
}
use enterprise_sales_intelli.Prelude.Dict.{Dict, lookup, insert}
use enterprise_sales_intelli.Tasks.Models.{TaskPatch}
use enterprise_sales_intelli.Mutation.Models.{TaskDiff, CriteriaDiff, MutationScope}
use enterprise_sales_intelli.Mutation.Preview.{MutationPreview}
use enterprise_sales_intelli.Mutation.Planner.{ReexecutionPlan}

pub record TaskMutation (V : Type 0) : Type 0 where
  pub mutation_id : String
  pub task_id : String
  pub source_message_id : String
  pub base_version : ℕ
  pub target_version : ℕ
  pub patch : TaskPatch V
  pub preview : MutationPreview V
  pub task_diff : TaskDiff
  pub criteria_diff : CriteriaDiff V
  pub scope : MutationScope
  pub reexecution_plan_id : String
  pub created_at : ℕ

pub record MutationRepository (V : Type 0) : Type 0 where
  pub mutations : Dict String (TaskMutation V)
  pub plans : Dict String ReexecutionPlan
  pub by_request : Dict (String × String) String

module _ {V : Type 0} where
  abbrev pub request_of : TaskMutation V → String × String
  request_of m = (m.task_id, m.source_message_id)

  unfoldable pub update_mutation :
      TaskMutation V → MutationRepository V → TaskMutation V × MutationRepository V
  update_mutation m s = (
    m,
    record s {
      mutations = insert m.mutation_id m s.mutations;
      by_request = insert (request_of m) m.mutation_id s.by_request;
    },
  )

  -- A request that is known keeps its first mutation; nothing is returned for a `KeyError`.
  unfoldable pub save_mutation :
      TaskMutation V → MutationRepository V → Option (TaskMutation V) × MutationRepository V
  save_mutation m s =
      let stored : Option (TaskMutation V) × MutationRepository V = (
        some m,
        record s {
          mutations = insert m.mutation_id m s.mutations;
          by_request = insert (request_of m) m.mutation_id s.by_request;
        },
      ) in
      elim (lookup (request_of m) s.by_request) [
        | none ↦ stored
        | some id ↦ if id == "" then stored else (lookup id s.mutations, s)
      ]

  unfoldable pub get_mutation : String → MutationRepository V → Option (TaskMutation V)
  get_mutation id s = lookup id s.mutations

  unfoldable pub find_mutation : String → String → MutationRepository V → Option (TaskMutation V)
  find_mutation task message s = get_mutation (get_or (lookup (task, message) s.by_request) "") s

  unfoldable pub save_plan : ReexecutionPlan → MutationRepository V → MutationRepository V
  save_plan plan s = record s { plans = insert plan.plan_id plan s.plans }

  unfoldable pub get_plan : String → MutationRepository V → Option ReexecutionPlan
  get_plan id s = lookup id s.plans
