-- ===== src/Mutation/Service/Outcomes.antt =====
-- What `mutate` does to the tasks and to the known requests.
use enterprise_sales_intelli.Prelude.{
  ℕ, ◌+◌, String, Option, none, some, get_or, ◌≡◌, ◌⊎◌, inl, inr, refl, sym, ap, ◌∙◌, eqb_iff,
  string_eq, pair_eq, arith, Option-cases, true, false, beq-cases,
}
use enterprise_sales_intelli.Prelude.Dict.{
  lookup, insert, lookup-insert_self, lookup-insert_cases, lookup-insert_ne,
}
use enterprise_sales_intelli.Tasks.Models.{TaskPatch, LeadTask}
use enterprise_sales_intelli.Tasks.Repository.{
  Repository, TaskError, Result, ok, err, get_task, assert_current, apply_patch,
}
use enterprise_sales_intelli.Tasks.Repository.Patches.{
  Outcome, unknown, replayed, missing, stale, patched_now, assert_current-found,
}
use enterprise_sales_intelli.Mutation.Planner.{ReexecutionPlan}
use enterprise_sales_intelli.Mutation.Repository.{
  TaskMutation, MutationRepository, request_of, find_mutation, get_mutation, save_mutation,
  save_plan,
}
use enterprise_sales_intelli.Mutation.Validation.{
  MutationError, task_error, request_index_broken, Fresh,
}
use enterprise_sales_intelli.Mutation.Service.{ServiceState, Answer, is_none_scope, finish, commit}

pub Result-cases :
    {A : Type 0} (r : Result A) → ((why : TaskError) × (r ≡ err why)) ⊎ ((a : A) × (r ≡ ok a))
Result-cases (ok a) = inr (a, refl)
Result-cases (err why) = inl (why, refl)

-- Every known request leads to a mutation.
abbrev pub IsLinked : {V : Type 0} → MutationRepository V → Type 0
IsLinked {V} s =
    (request : String × String) (id : String)
    → lookup request s.by_request ≡ some id
    → (m : TaskMutation V) × (lookup id s.mutations ≡ some m)

module _ {V : Type 0} where
  -- What saving a mutation of a new request gives.
  abbrev pub stored : TaskMutation V → MutationRepository V → MutationRepository V
  stored m s = record s {
    mutations = insert m.mutation_id m s.mutations;
    by_request = insert (request_of m) m.mutation_id s.by_request;
  }

  save_mutation-stored :
      (m : TaskMutation V) (s : MutationRepository V)
      → IsLinked s
      → find_mutation m.task_id m.source_message_id s ≡ none
      → save_mutation m s ≡ (some m, stored m s)
  unfolding save_mutation find_mutation get_mutation
  save_mutation-stored m s linked absent =
      elim (Option-cases (lookup (request_of m) s.by_request)) [
        | inl fresh ↦ rw (fresh, save_mutation) refl
        | inr (id, known) ↦
            let (x, found) = linked (request_of m) id known in
            absurd (ground (arith, absent, known, found))
      ]

  pub stored-found :
      (m : TaskMutation V) (s : MutationRepository V)
      → find_mutation m.task_id m.source_message_id (stored m s) ≡ some m
  unfolding find_mutation get_mutation
  stored-found m s =
      ap (λ id. lookup (get_or id "") (insert m.mutation_id m s.mutations))
        (lookup-insert_self (request_of m) m.mutation_id s.by_request)
      ∙ lookup-insert_self m.mutation_id m s.mutations

  pub stored-IsLinked :
      (m : TaskMutation V) (s : MutationRepository V) → IsLinked s → IsLinked (stored m s)
  stored-IsLinked m s linked request id h = elim (beq-cases m.mutation_id id) [
    | inl (t, same) ↦ (
      m,
      ap (λ i. lookup i (insert m.mutation_id m s.mutations)) (sym same)
          ∙ lookup-insert_self m.mutation_id m s.mutations,
    )
    | inr (f, other) ↦
        elim (lookup-insert_cases request (request_of m) m.mutation_id s.by_request h) [
          | inl (mine, new_id) ↦ absurd (other new_id)
          | inr (differ, old) ↦
              let (x, found) = linked request id old in
              (x, lookup-insert_ne id m.mutation_id m s.mutations other ∙ found)
        ]
  ]

-- The requests that are known are the same, whatever plans are stored.
abbrev pub IsSameRequests : {V : Type 0} → MutationRepository V → MutationRepository V → Type 0
IsSameRequests s t = (s.mutations ≡ t.mutations) × (s.by_request ≡ t.by_request)

module _ {V : Type 0} (workspace task_id message : String) (base : ℕ) (fresh : Fresh)
    (s : ServiceState V) where
  -- The request is then known, and leads to the mutation that was returned.
  abbrev pub IsKnown : TaskMutation V → ServiceState V → Type 0
  IsKnown m t = IsLinked t.requests × (find_mutation task_id message t.requests ≡ some m)

  -- The outcomes of `mutate`: the request is known, and nothing changes; or it is not, and it is
  -- refused, and no task and no known request changes; the task stays at the base version; or it goes through
  -- `apply_patch` of the task repository.
  pub data Effect : Answer V × ServiceState V → Type 0 where
    repeated :
        (m : TaskMutation V)
        → find_mutation task_id message s.requests ≡ some m
        → Effect (inr (m, get_task workspace (some task_id) none s.tasks), s)
    refused :
        (why : MutationError) (t : ServiceState V)
        → find_mutation task_id message s.requests ≡ none
        → t.tasks ≡ s.tasks
        → IsSameRequests t.requests s.requests
        → Effect (inl why, t)
    unchanged :
        (task : LeadTask V) (m : TaskMutation V) (t : ServiceState V)
        → find_mutation task_id message s.requests ≡ none
        → get_task workspace (some task_id) none s.tasks ≡ some task
        → task.version ≡ base
        → m.target_version ≡ base
        → t.tasks ≡ s.tasks
        → IsKnown m t
        → Effect (inr (m, some task), t)
    updated :
        (task up : LeadTask V) (m : TaskMutation V) (t : ServiceState V)
        → find_mutation task_id message s.requests ≡ none
        → get_task workspace (some task_id) none s.tasks ≡ some task
        → task.version ≡ base
        → m.target_version ≡ base + 1
        → apply_patch workspace task_id m.patch
            (some base)
            (some m.mutation_id)
            (some message)
            fresh.stamp
            s.tasks
          ≡ (ok up, t.tasks)
        → IsKnown m t
        → Effect (inr (m, some up), t)

  pub apply_patch-refused :
      (patch : TaskPatch V) (b : Option ℕ) (mutation source : Option String)
      (r : Result (LeadTask V) × Repository V) (why : TaskError)
      → Outcome workspace task_id patch b mutation source fresh.stamp s.tasks r
      → r.0 ≡ err why
      → r.1 ≡ s.tasks
  apply_patch-refused patch b mutation source _ why (unknown gone) h = refl
  apply_patch-refused patch b mutation source _ why (replayed x n v found asked kept) h = refl
  apply_patch-refused patch b mutation source _ why (missing n asked lost) h = refl
  apply_patch-refused patch b mutation source _ why (stale x n found fresh_one given differ) h =
      refl
  apply_patch-refused patch b mutation source _ why (patched_now x found fresh_one current) h =
      absurd (ground arith)

  -- `assert_current` that does not raise.
  pub current_version :
      (patch : TaskPatch V) (task : LeadTask V)
      → get_task workspace (some task_id) none s.tasks ≡ some task
      → assert_current workspace task_id base s.tasks ≡ none
      → task.version ≡ base
  current_version patch task found passed =
      let checked =
        assert_current-found workspace task_id patch (some base) none none fresh.stamp s.tasks task
          base found in
      ground (arith, checked, passed, eqb_iff task.version base)

  -- The end of `mutate` for one task, given how the mutation was made.
  pub finish-known :
      (m : TaskMutation V) (task : LeadTask V) (t : ServiceState V)
      → IsLinked t.requests
      → find_mutation m.task_id m.source_message_id t.requests ≡ none
      → finish m task t ≡ (inr (m, some task), record t { requests = stored m t.requests })
  unfolding finish
  finish-known m task t linked absent =
      ap
        (λ (r : Option (TaskMutation V) × MutationRepository V).
          (elim r.0 as (λ o. Answer V × ServiceState V) [
            | none ↦ (inl request_index_broken, record t { requests = r.1 })
            | some m' ↦ (inr (m, some task), record t { requests = r.1 })
          ]))
        (save_mutation-stored m t.requests linked absent)

  -- The three ways that `commit` goes.
  module _ (m : TaskMutation V) (task : LeadTask V) (plan : ReexecutionPlan) where
    abbrev pub planned : ServiceState V
    planned = record s { requests = save_plan plan s.requests }

    abbrev pub applied : Result (LeadTask V) × Repository V
    applied =
        apply_patch workspace task_id m.patch (some m.base_version) (some m.mutation_id)
          (some m.source_message_id) fresh.stamp s.tasks

    pub commit-nothing :
        is_none_scope plan.final_scope ≡ true
        → commit workspace task_id m task plan fresh s ≡ finish m task planned
    unfolding commit
    commit-nothing nothing = rw (nothing, commit) refl

    pub commit-failed :
        (why : TaskError)
        → is_none_scope plan.final_scope ≡ false
        → applied.0 ≡ err why
        → commit workspace task_id m task plan fresh s
          ≡ (inl (task_error why), record planned { tasks = applied.1 })
    unfolding commit
    commit-failed why something failed = rw (something, commit) (rw failed refl)

    pub commit-done :
        (up : LeadTask V)
        → is_none_scope plan.final_scope ≡ false
        → applied.0 ≡ ok up
        → commit workspace task_id m task plan fresh s
          ≡ finish m up (record planned { tasks = applied.1 })
    unfolding commit
    commit-done up something done = rw (something, commit) (rw done refl)
