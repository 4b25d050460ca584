-- ===== src/Tasks/Repository/Histories.antt =====
-- Histories of calls, in any order, by any workspaces, with any clock.
use enterprise_sales_intelli.Prelude.{
  ℕ, ◌≤◌, ◌≡◌, sym, ap, ◌∙◌, subst, inl, inr, String, Bool, true, false, Option, none, some,
  string_eq, pair_eq, arith, Option-cases, ◌==◌, Bool-cases,
}
use enterprise_sales_intelli.Prelude.Dict.{Dict, lookup}
use enterprise_sales_intelli.Tasks.Models.{TaskStage, TaskStatus, LeadTask, TaskPatch}
use enterprise_sales_intelli.Tasks.Repository.{
  Repository, Stamp, Provenance, no_provenance, empty, find_version, get_task, get_version,
  new_task, update_task, create_task, apply_patch, set_status, activate_task,
}
use enterprise_sales_intelli.Mutation.Preview.{patched}
use enterprise_sales_intelli.Tasks.Repository.Saves.{
  IsConsistent, Grows, Grows-refl, Grows-trans, Saved, Saved-Grows, Saved-IsConsistent,
}
use enterprise_sales_intelli.Tasks.Repository.Steps.{
  update_task-Saved, update_task-Saved_recorded, get_task_found, add_task-Saved, create_task_cases,
}
use enterprise_sales_intelli.Tasks.Repository.Patches.{
  Outcome, unknown, replayed, missing, stale, patched_now, apply_patch-Outcome,
}
use enterprise_sales_intelli.Tasks.Repository.Commits.{commit_patch-Saved}

module _ {V : Type 0} where
  -- One call. `uuid4` gives a new task an unused identifier, and `update_task` writes a task that
  -- is stored, at its version or a later one.
  pub data Step : Repository V → Repository V → Type 0 where
    created :
        {s : Repository V} (w session : String) (message : Option String) (stamp : Stamp)
        → lookup stamp.new_task_id s.versions ≡ none
        → Step s (create_task w session message stamp s).1
    patch_applied :
        {s : Repository V} (w id : String) (patch : TaskPatch V) (base : Option ℕ)
        (mutation message : Option String) (stamp : Stamp)
        → Step s (apply_patch w id patch base mutation message stamp s).1
    updated :
        {s : Repository V} (u : LeadTask V) (recorded : Bool) (p : Provenance) (stamp : Stamp)
        (x : LeadTask V)
        → lookup u.task_id s.tasks ≡ some x
        → x.version ≤ u.version
        → Step s (update_task u recorded p stamp s).1
    status_set :
        {s : Repository V} (w id : String) (stage : Option TaskStage) (status : Option TaskStatus)
        (stamp : Stamp)
        → Step s (set_status w id stage status stamp s).1
    activated : {s : Repository V} (w session id : String) → Step s (activate_task w session id s).1

  pub data Reach (s : Repository V) : Repository V → Type 0 where
    done : Reach s s
    then_step : {t r : Repository V} → Reach s t → Step t r → Reach s r

  -- What a call leaves true: the invariant holds, and nothing recorded is changed or lost.
  abbrev pub Keeps : Repository V → Repository V → Type 0
  Keeps s t = IsConsistent t × Grows s t

  module _ {s : Repository V} (c : IsConsistent s) where
    same_state : Keeps s s
    same_state = (c, Grows-refl s)

    by_save : {u : LeadTask V} {vs : _} {t : Repository V} → Saved u vs s t → Keeps s t
    by_save w = (Saved-IsConsistent w c, Saved-Grows w)

    update_task-Keeps :
        (u : LeadTask V) (recorded : Bool) (p : Provenance) (stamp : Stamp) (x : LeadTask V)
        → lookup u.task_id s.tasks ≡ some x
        → x.version ≤ u.version
        → Keeps s (update_task u recorded p stamp s).1
    update_task-Keeps u true p stamp x found le =
        by_save (update_task-Saved_recorded u p stamp s x c found le)
    update_task-Keeps u false p stamp x found le =
        by_save (update_task-Saved u p stamp s x c found le)

    pub apply_patch-Keeps :
        (w id : String) (patch : TaskPatch V) (base : Option ℕ) (mutation message : Option String)
        (stamp : Stamp)
        → Keeps s (apply_patch w id patch base mutation message stamp s).1
    apply_patch-Keeps w id patch base mutation message stamp =
        by_outcome (apply_patch w id patch base mutation message stamp s)
          (apply_patch-Outcome w id patch base mutation message stamp s)
      where
        by_outcome :
            (out : _) → Outcome w id patch base mutation message stamp s out → Keeps s out.1
        by_outcome _ (unknown h) = same_state
        by_outcome _ (replayed x n v h e k) = same_state
        by_outcome _ (missing n e k) = same_state
        by_outcome _ (stale x n h e b k) = same_state
        by_outcome _ (patched_now x h fresh b) = by_save (
            commit_patch-Saved id x patch mutation message stamp s c (get_task_found w id s x h).0
              fresh)

    set_status-Keeps :
        (w id : String) (stage : Option TaskStage) (status : Option TaskStatus) (stamp : Stamp)
        → Keeps s (set_status w id stage status stamp s).1
    unfolding set_status
    set_status-Keeps w id stage status stamp = elim (Option-cases (get_task w (some id) none s)) [
      | inl gone ↦ rw (gone, set_status) same_state
      | inr (x, found) ↦
          let stored = (get_task_found w id s x found).0 in
          let u = record x { stage = patched stage x.stage; status = patched status x.status } in
          rw (found, set_status)
            (update_task-Keeps u false no_provenance stamp x
              (ap (λ k. lookup k s.tasks) (c.named id x stored) ∙ stored) (omega arith))
    ]

    reactivated : (d : Dict String String) → Keeps s (record s { active_by_session = d })
    unfolding get_version
    reactivated d = (
      record { named = c.named; bounded = c.bounded; recorded = c.recorded },
      record { versions_kept = λ id n v h. h; requests_kept = λ id m n h. h },
    )

    activate_task-Keeps : (w session id : String) → Keeps s (activate_task w session id s).1
    unfolding activate_task
    activate_task-Keeps w session id = elim (Option-cases (get_task w (some id) none s)) [
      | inl gone ↦ rw (gone, activate_task) same_state
      | inr (x, found) ↦ elim (Bool-cases (x.session_id == session)) [
        | inl same ↦ rw (found, same, activate_task) (reactivated _)
        | inr other ↦ rw (found, other, activate_task) same_state
      ]
    ]

    create_task-Keeps :
        (w session : String) (message : Option String) (stamp : Stamp)
        → lookup stamp.new_task_id s.versions ≡ none
        → Keeps s (create_task w session message stamp s).1
    unfolding new_task
    create_task-Keeps w session message stamp fresh =
        elim (create_task_cases w session message stamp s) [
          | inl same ↦ subst (Keeps s) (sym same) same_state
          | inr added ↦
              subst (Keeps s) (sym added)
                (by_save (add_task-Saved (new_task w session message stamp) stamp s fresh))
        ]

    Step-Keeps : {t : Repository V} → Step s t → Keeps s t
    Step-Keeps (created w session message stamp fresh) =
        create_task-Keeps w session message stamp fresh
    Step-Keeps (patch_applied w id patch base mutation message stamp) =
        apply_patch-Keeps w id patch base mutation message stamp
    Step-Keeps (updated u recorded p stamp x found le) =
        update_task-Keeps u recorded p stamp x found le
    Step-Keeps (status_set w id stage status stamp) = set_status-Keeps w id stage status stamp
    Step-Keeps (activated w session id) = activate_task-Keeps w session id

  pub Reach-Keeps : {s t : Repository V} → IsConsistent s → Reach s t → Keeps s t
  Reach-Keeps c done = (c, Grows-refl _)
  Reach-Keeps c (then_step path step) =
      let (d, g) = Reach-Keeps c path in let (e, h) = Step-Keeps d step in (e, Grows-trans g h)

  pub empty-IsConsistent : IsConsistent {V = V} empty
  unfolding lookup get_version find_version
  empty-IsConsistent = record {
    named = λ id x h. absurd (cc);
    bounded = λ id x n v h. absurd (cc);
    recorded = λ id m n h. absurd (cc);
  }
