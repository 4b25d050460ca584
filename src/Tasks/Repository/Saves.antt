-- ===== src/Tasks/Repository/Saves.antt =====
-- The invariant of the repository, and what one saved task does to it.
use enterprise_sales_intelli.Prelude.{
  ℕ, ◌≤◌, ◌≡◌, sym, ap, ◌∙◌, subst, ◌⊎◌, inl, inr, String, some, List, ◌==◌, string_eq, pair_eq,
  if◌then◌else◌, arith, beq-cases,
}
use enterprise_sales_intelli.Prelude.Dict.{lookup, insert, lookup-insert_cases}
use enterprise_sales_intelli.Tasks.Models.{LeadTask, TaskVersion}
use enterprise_sales_intelli.Tasks.Repository.{Repository, find_version, get_version}

module _ {V : Type 0} where
  -- A version of the task that is recorded.
  abbrev pub HasVersion : String → ℕ → Repository V → Type 0
  HasVersion id n s = (v : TaskVersion V) × (get_version id n s ≡ some v)

  -- Tasks stand under their identifiers, no recorded version is newer than its task, and each
  -- request points to a recorded version.
  pub record IsConsistent (s : Repository V) : Type 0 where
    pub named : (id : String) (x : LeadTask V) → lookup id s.tasks ≡ some x → x.task_id ≡ id
    pub bounded :
        (id : String) (x : LeadTask V) (n : ℕ) (v : TaskVersion V)
        → lookup id s.tasks ≡ some x
        → get_version id n s ≡ some v
        → n ≤ x.version
    pub recorded :
        (id m : String) (n : ℕ) → lookup (id, m) s.mutation_requests ≡ some n → HasVersion id n s

  -- Nothing that is recorded is changed or lost.
  pub record Grows (s t : Repository V) : Type 0 where
    pub versions_kept :
        (id : String) (n : ℕ) (v : TaskVersion V)
        → get_version id n s ≡ some v
        → get_version id n t ≡ some v
    pub requests_kept :
        (id m : String) (n : ℕ)
        → lookup (id, m) s.mutation_requests ≡ some n
        → lookup (id, m) t.mutation_requests ≡ some n

  pub Grows-refl : (s : Repository V) → Grows s s
  Grows-refl s = record { versions_kept = λ id n v h. h; requests_kept = λ id m n h. h }

  pub Grows-trans : {s t r : Repository V} → Grows s t → Grows t r → Grows s r
  Grows-trans g h = record {
    versions_kept = λ id n v e. h.versions_kept id n v (g.versions_kept id n v e);
    requests_kept = λ id m n e. h.requests_kept id m n (g.requests_kept id m n e);
  }

  -- The task `u` is saved, and its versions are then `vs`.
  pub record Saved (u : LeadTask V) (vs : List (TaskVersion V)) (s t : Repository V) : Type 0 where
    pub tasks : t.tasks ≡ insert u.task_id u s.tasks
    pub versions :
        (id : String) (n : ℕ)
        → get_version id n t ≡ (if u.task_id == id then find_version n vs else get_version id n s)
    pub kept :
        (n : ℕ) (v : TaskVersion V)
        → get_version u.task_id n s ≡ some v
        → find_version n vs ≡ some v
    pub newest : (n : ℕ) (v : TaskVersion V) → find_version n vs ≡ some v → n ≤ u.version
    pub remembered :
        (id m : String) (n : ℕ)
        → lookup (id, m) s.mutation_requests ≡ some n
        → lookup (id, m) t.mutation_requests ≡ some n
    pub asked :
        (id m : String) (n : ℕ)
        → lookup (id, m) t.mutation_requests ≡ some n
        → (lookup (id, m) s.mutation_requests ≡ some n) ⊎ HasVersion id n t

  module _ {u : LeadTask V} {vs : List (TaskVersion V)} {s t : Repository V}
      (w : Saved u vs s t) where
    pub Saved-Grows : Grows s t
    Saved-Grows = record {
      versions_kept = λ id n v h. elim (beq-cases u.task_id id) [
        | inl (same, e) ↦
            let old = subst (λ k. get_version k n s ≡ some v) (sym e) h in
            w.versions id n ∙ rw same (w.kept n v old)
        | inr (other, e) ↦ w.versions id n ∙ rw other h
      ];
      requests_kept = w.remembered;
    }

    pub Saved-IsConsistent : IsConsistent s → IsConsistent t
    Saved-IsConsistent c = record {
      named = λ id x h. elim (lookup-insert_cases id u.task_id u s.tasks (stored id x h)) [
        | inl (same, now) ↦ ap (λ (y : LeadTask V). y.task_id) (sym now) ∙ same
        | inr (other, old) ↦ c.named id x old
      ];
      bounded = λ id x n v h found.
          elim (lookup-insert_cases id u.task_id u s.tasks (stored id x h)) [
            | inl (same, now) ↦
                subst (λ (y : LeadTask V). n ≤ y.version) now
                  (w.newest n v
                    (ground (arith, w.versions id n, string_eq.equals_iff u.task_id id)))
            | inr (other, old) ↦
                c.bounded id x n v old
                  (ground (arith, w.versions id n, string_eq.equals_iff u.task_id id))
          ];
      recorded = λ id m n h. elim (w.asked id m n h) [
        | inl old ↦
            let (v, found) = c.recorded id m n old in (v, Saved-Grows.versions_kept id n v found)
        | inr new ↦ new
      ];
    }
      where
        stored :
            (id : String) (x : LeadTask V)
            → lookup id t.tasks ≡ some x
            → lookup id (insert u.task_id u s.tasks) ≡ some x
        stored id x h = subst (λ d. lookup id d ≡ some x) w.tasks h
