-- ===== src/Tasks/Repository/Commits.antt =====
-- The writes of `apply_patch`: the patched task and its new version are saved, the request is
-- remembered.
use enterprise_sales_intelli.Prelude.{
  ◌+◌, ◌≡◌, refl, sym, ap, ◌∙◌, subst, ◌⊎◌, inl, inr, String, true, Option, none, some, List,
  string_eq, pair_eq, arith, Option-cases, none_of_absent,
}
use enterprise_sales_intelli.Prelude.Dict.{
  Dict, lookup, insert, lookup-insert_cases, lookup-insert_self, lookup-insert_ne,
}
use enterprise_sales_intelli.Tasks.Models.{LeadTask, TaskPatch, TaskVersion}
use enterprise_sales_intelli.Tasks.Repository.{
  Repository, Stamp, Provenance, from_task, find_version, record_version, versions_of, remember,
  recall, given, get_version, update_task, commit_patch,
}
use enterprise_sales_intelli.Tasks.Repository.Versions.{find_version-record_version_self}
use enterprise_sales_intelli.Tasks.Repository.Saves.{IsConsistent, Saved}
use enterprise_sales_intelli.Tasks.Repository.Steps.{touched, update_task-Saved_recorded}
use enterprise_sales_intelli.Mutation.Preview.{apply_patch_pure}

module _ {A : Type 0} (id : String) (message : Option String) (d : Dict (String × String) A) where
  pub recall_unnamed : given message ≡ none → recall id message d ≡ none
  recall_unnamed e = rw (e, recall) refl

  pub recall_named :
      (name : String) → given message ≡ some name → recall id message d ≡ lookup (id, name) d
  recall_named name e = rw (e, recall) refl

module _ {A : Type 0} (id : String) (message : Option String) (d : Dict (String × String) A)
    (value : A) where
  remember_named :
      (name : String)
      → given message ≡ some name
      → remember id message value d ≡ insert (id, name) value d
  remember_named name e = rw (e, remember) refl

  -- An entry found after `remember` is the new one, or was there.
  remember_cases :
      (k m : String) {n : A}
      → lookup (k, m) (remember id message value d) ≡ some n
      → (id ≡ k) × (value ≡ n) ⊎ (lookup (k, m) d ≡ some n)
  remember_cases k m {n = n} h = elim (Option-cases (given message)) [
    | inl unnamed ↦ inr (ground (arith, unnamed))
    | inr (name, e) ↦
        let at_name : lookup (k, m) (insert (id, name) value d) ≡ some n = ground (arith, e) in
        elim (lookup-insert_cases (k, m) (id, name) value d at_name) [
          | inl (same, now) ↦ inl (ap (λ p. p.0) same, now)
          | inr (other, old) ↦ inr old
        ]
  ]

  -- `remember` of a request that is not known yet changes no other.
  remember_kept :
      recall id message d ≡ none
      → (k m : String) (n : A) → lookup (k, m) d ≡ some n
      → lookup (k, m) (remember id message value d) ≡ some n
  remember_kept fresh k m n h = elim (Option-cases (given message)) [
    | inl unnamed ↦ rw (unnamed, remember) h
    | inr (name, e) ↦
        let absent = sym (recall_named id message d name e) ∙ fresh in
        ap (lookup (k, m)) (remember_named name e)
        ∙ lookup-insert_ne (k, m) (id, name) value d
            (λ same. cc (absent, h, ap (λ p. lookup p d) same))
        ∙ h
  ]

  -- A request with a name is known once it is remembered.
  pub recall-remember :
      (name : String)
      → given message ≡ some name
      → recall id message (remember id message value d) ≡ some value
  recall-remember name e =
      ap (recall id message) (remember_named name e)
      ∙ rw (e, recall) (lookup-insert_self (id, name) value d)

module _ {V : Type 0} (id : String) (x : LeadTask V) (patch : TaskPatch V)
    (mutation message : Option String) (stamp : Stamp) (s : Repository V) where
  -- The task that is saved, and the provenance of its version.
  abbrev pub result : LeadTask V
  result = touched (apply_patch_pure x patch) stamp

  abbrev pub origin : Provenance
  origin = record {
    parent_version = some x.version;
    mutation_id = mutation;
    source_message_id = message;
  }

  abbrev pub next : Repository V
  next = (commit_patch id x patch mutation message stamp s).1

  module _ (c : IsConsistent s) (found : lookup id s.tasks ≡ some x)
      (fresh : recall id message s.mutation_requests ≡ none) where
    abbrev pub history : List (TaskVersion V)
    history = record_version result origin stamp (versions_of x.task_id s)

    own : x.task_id ≡ id
    own = c.named id x found

    stored : lookup x.task_id s.tasks ≡ some x
    stored = ap (λ k. lookup k s.tasks) own ∙ found

    unrecorded : find_version (x.version + 1) (versions_of x.task_id s) ≡ none
    unfolding get_version
    unrecorded =
        none_of_absent _ λ v h. (omega (arith, c.bounded x.task_id x (x.version + 1) v stored h))

    update-Saved :
        Saved result history s (update_task (apply_patch_pure x patch) true origin stamp s).1
    unfolding apply_patch_pure
    update-Saved =
        update_task-Saved_recorded (apply_patch_pure x patch) origin stamp s x c stored
          (omega arith)

    -- The new version is recorded under the next number, with the patched task's fields.
    pub commit_patch-get_version :
        get_version id (x.version + 1) next ≡ some (from_task result origin stamp)
    unfolding apply_patch_pure commit_patch get_version
    commit_patch-get_version =
        update-Saved.versions id (x.version + 1)
        ∙ ground (
          arith,
          own,
          string_eq.equals_iff x.task_id id,
          find_version-record_version_self result origin stamp (versions_of x.task_id s) unrecorded,
        )

    pub commit_patch-Saved : Saved result history s next
    unfolding apply_patch_pure commit_patch get_version update_task
    commit_patch-Saved = record {
      tasks = update-Saved.tasks;
      versions = update-Saved.versions;
      kept = update-Saved.kept;
      newest = update-Saved.newest;
      remembered = remember_kept id message s.mutation_requests (x.version + 1) fresh;
      asked = λ k m n h.
          elim (remember_cases id message s.mutation_requests (x.version + 1) k m h) [
            | inl (same, now) ↦ inr (
              from_task result origin stamp,
              subst (λ j. get_version j n next ≡ some (from_task result origin stamp)) same
                  (subst (λ i. get_version id i next ≡ some (from_task result origin stamp)) now
                    commit_patch-get_version),
            )
            | inr old ↦ inl old
          ];
    }
