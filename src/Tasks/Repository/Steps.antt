-- ===== src/Tasks/Repository/Steps.antt =====
-- Each operation of the repository saves one task, or changes nothing but the active task.
use enterprise_sales_intelli.Prelude.{
  ℕ, ◌≤◌, ◌≡◌, refl, ap, ◌∙◌, subst, ◌⊎◌, inl, inr, String, true, false, Option, none, some, List,
  [], ◌∷◌, get_or, ◌==◌, string_eq, pair_eq, if◌then◌else◌, arith, beq-cases, some_inj,
  Option-cases, eqb_iff,
}
use enterprise_sales_intelli.Prelude.Dict.{lookup, insert}
use enterprise_sales_intelli.Tasks.Models.{LeadTask, TaskVersion}
use enterprise_sales_intelli.Tasks.Repository.{
  Repository, Stamp, Provenance, no_provenance, from_task, find_version, record_version, new_task,
  versions_of, recall, given, get_task, get_version, update_task, create_task, add_task,
  session_key,
}
use enterprise_sales_intelli.Tasks.Repository.Versions.{
  find_version-record_version_kept, find_version-record_version_cases, version_in-insert,
}
use enterprise_sales_intelli.Tasks.Repository.Saves.{IsConsistent, Saved}

module _ {V : Type 0} where
  pub get_version-insert :
      (id k : String) (n : ℕ) (vs : List (TaskVersion V)) (s t : Repository V)
      → t.versions ≡ insert k vs s.versions
      → get_version id n t ≡ (if k == id then find_version n vs else get_version id n s)
  unfolding get_version
  get_version-insert id k n vs s t e =
      ap (λ d. find_version n (get_or (lookup id d) [])) e ∙ version_in-insert id k n vs s.versions

  get_version_same :
      (id k : String) (n : ℕ) (s : Repository V)
      → get_version id n s
        ≡ (if k == id then find_version n (versions_of k s) else get_version id n s)
  unfolding get_version
  get_version_same id k n s = elim (beq-cases k id) [
    | inl (same, e) ↦ rw (same, e) refl
    | inr (other, e) ↦ rw other refl
  ]

  -- The task as `update_task` stores it.
  abbrev pub touched : LeadTask V → Stamp → LeadTask V
  touched u stamp = record u { updated_at = stamp.now }

  module _ (u : LeadTask V) (p : Provenance) (stamp : Stamp) (s : Repository V) (x : LeadTask V)
      (c : IsConsistent s) (found : lookup u.task_id s.tasks ≡ some x)
      (current : x.version ≤ u.version) where
    old_bound : (n : ℕ) (v : TaskVersion V) → get_version u.task_id n s ≡ some v → n ≤ u.version
    old_bound n v h = omega (arith, c.bounded u.task_id x n v found h, current)

    abbrev pub recorded_versions : List (TaskVersion V)
    recorded_versions = record_version (touched u stamp) p stamp (versions_of u.task_id s)

    pub update_task-Saved_recorded :
        Saved (touched u stamp) recorded_versions s (update_task u true p stamp s).1
    unfolding update_task get_version
    update_task-Saved_recorded = record {
      tasks = refl;
      versions = λ id n.
          get_version-insert id u.task_id n recorded_versions s (update_task u true p stamp s).1
            refl;
      kept = λ n v h.
          find_version-record_version_kept (touched u stamp) p stamp (versions_of u.task_id s) n h;
      newest = λ n v h.
          elim (find_version-record_version_cases (touched u stamp) p stamp
            (versions_of u.task_id s) n h) [ inl e ↦ omega arith | inr old ↦ old_bound n v old ];
      remembered = λ id m n h. h;
      asked = λ id m n h. inl h;
    }

    pub update_task-Saved :
        Saved (touched u stamp) (versions_of u.task_id s) s (update_task u false p stamp s).1
    unfolding update_task get_version
    update_task-Saved = record {
      tasks = refl;
      versions = λ id n. get_version_same id u.task_id n s;
      kept = λ n v h. h;
      newest = old_bound;
      remembered = λ id m n h. h;
      asked = λ id m n h. inl h;
    }

  -- What `get_task` finds is stored, in the workspace that asks.
  pub get_task_found :
      (w id : String) (s : Repository V) (x : LeadTask V)
      → get_task w (some id) none s ≡ some x
      → (lookup id s.tasks ≡ some x) × (x.workspace_id ≡ w)
  unfolding get_task
  get_task_found w id s x h = elim (Option-cases (lookup id s.tasks)) [
    | inl gone ↦ absurd (ground arith)
    | inr (y, found) ↦ elim (beq-cases y.workspace_id w) [
      | inl (t, here) ↦
          let same : y ≡ x = some_inj (ground arith) in
          (found ∙ ap some same, subst (λ (z : LeadTask V). z.workspace_id ≡ w) same here)
      | inr (f, away) ↦ absurd (ground arith)
    ]
  ]

  pub add_task-Saved :
      (task : LeadTask V) (stamp : Stamp) (s : Repository V)
      → lookup task.task_id s.versions ≡ none
      → Saved task (from_task task no_provenance stamp ∷ []) s (add_task task stamp s)
  unfolding add_task get_version find_version
  add_task-Saved task stamp s fresh = record {
    tasks = refl;
    versions = λ id n.
        get_version-insert id task.task_id n (from_task task no_provenance stamp ∷ []) s
          (add_task task stamp s) refl;
    kept = λ n v h. absurd (ground (arith, fresh));
    newest = λ n v h. ground (arith, eqb_iff task.version n);
    remembered = λ id m n h. h;
    asked = λ id m n h. inl h;
  }

  -- A call of `create_task` answers with the task of an earlier call, or adds a new one.
  pub create_task_cases :
      (w session : String) (message : Option String) (stamp : Stamp) (s : Repository V)
      → ((create_task w session message stamp s).1 ≡ s)
        ⊎ ((create_task w session message stamp s).1
            ≡ add_task (new_task w session message stamp) stamp s)
  unfolding create_task
  create_task_cases w session message stamp s =
      elim (Option-cases (given (recall (session_key w session) message s.create_requests))) [
        | inl new ↦ inr (rw (new, create_task) refl)
        | inr (old, e) ↦ inl (rw (e, create_task) refl)
      ]
