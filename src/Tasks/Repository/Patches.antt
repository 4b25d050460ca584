-- ===== src/Tasks/Repository/Patches.antt =====
-- What `apply_patch` does: it is refused, it answers a repeated request, or it saves the patched
-- task.
use enterprise_sales_intelli.Prelude.{
  ℕ, ◌≡◌, ◌≢◌, refl, sym, ap, ◌∙◌, inl, inr, String, Option, none, some, get_or, string_eq, pair_eq,
  if◌then◌else◌, arith, Option-cases, Bool-cases, eqb, eqb_iff,
}
use enterprise_sales_intelli.Tasks.Models.{LeadTask, TaskPatch, TaskVersion}
use enterprise_sales_intelli.Tasks.Repository.{
  Repository, Stamp, recall, get_task, get_version, commit_patch, apply_patch, assert_current,
  Result, ok, err, task_not_found, version_conflict, version_missing, task_from_version,
}

module _ {V : Type 0} (w id : String) (patch : TaskPatch V) (base : Option ℕ)
    (mutation message : Option String) (stamp : Stamp) (s : Repository V) where
  call : Result (LeadTask V) × Repository V
  call = apply_patch w id patch base mutation message stamp s

  -- The outcomes of a call, with what each of them needs.
  pub data Outcome : Result (LeadTask V) × Repository V → Type 0 where
    unknown : get_task w (some id) none s ≡ none → Outcome (err (task_not_found id), s)
    replayed :
        (x : LeadTask V) (n : ℕ) (v : TaskVersion V)
        → get_task w (some id) none s ≡ some x
        → recall id message s.mutation_requests ≡ some n
        → get_version id n s ≡ some v
        → Outcome (ok (task_from_version x v), s)
    missing :
        (n : ℕ)
        → recall id message s.mutation_requests ≡ some n
        → get_version id n s ≡ none
        → Outcome (err version_missing, s)
    stale :
        (x : LeadTask V) (n : ℕ)
        → get_task w (some id) none s ≡ some x
        → recall id message s.mutation_requests ≡ none
        → base ≡ some n
        → x.version ≢ n
        → Outcome (err (version_conflict id n x.version), s)
    patched_now :
        (x : LeadTask V)
        → get_task w (some id) none s ≡ some x
        → recall id message s.mutation_requests ≡ none
        → get_or base x.version ≡ x.version
        → Outcome (
          ok (commit_patch id x patch mutation message stamp s).0,
          (commit_patch id x patch mutation message stamp s).1,
        )

  pub assert_current-found :
      (x : LeadTask V) (n : ℕ)
      → get_task w (some id) none s ≡ some x
      → assert_current w id n s
        ≡ (if eqb x.version n then none else some (version_conflict id n x.version))
  unfolding assert_current
  assert_current-found x n found = rw (found, assert_current) refl

  stale_base :
      (x : LeadTask V) → get_or base x.version ≢ x.version → base ≡ some (get_or base x.version)
  stale_base x h = elim (Option-cases base) [
    | inl e ↦ absurd (h (ap (λ b. get_or b x.version) e))
    | inr (n, e) ↦ e ∙ ap some (sym (ap (λ b. get_or b x.version) e))
  ]

  pub apply_patch-Outcome : Outcome (apply_patch w id patch base mutation message stamp s)
  unfolding apply_patch
  apply_patch-Outcome = elim (Option-cases (get_task w (some id) none s)) [
    | inl gone ↦ rw (gone, apply_patch) (unknown gone)
    | inr (x, found) ↦ elim (Option-cases (recall id message s.mutation_requests)) [
      | inr (n, asked) ↦ elim (Option-cases (get_version id n s)) [
        | inl lost ↦ rw (found, asked, lost, apply_patch) (missing n asked lost)
        | inr (v, kept) ↦ rw (found, asked, kept, apply_patch) (replayed x n v found asked kept)
      ]
      | inl fresh ↦
          let checked = assert_current-found x (get_or base x.version) found in
          elim (Bool-cases (eqb x.version (get_or base x.version))) [
            | inl same ↦
                rw (found, fresh, checked, same, apply_patch)
                  (patched_now x found fresh
                    (sym ((eqb_iff x.version (get_or base x.version)).0 same)))
            | inr other ↦
                let differs : x.version ≢ get_or base x.version =
                  λ e. (ground (arith, eqb_iff x.version (get_or base x.version))) in
                rw (found, fresh, checked, other, apply_patch)
                  (stale x (get_or base x.version) found fresh (stale_base x (λ e. differs (sym e)))
                    differs)
          ]
    ]
  ]
