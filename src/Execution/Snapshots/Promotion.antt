-- ===== src/Execution/Snapshots/Promotion.antt =====
-- Promotion keeps one current snapshot for each task.
use enterprise_sales_intelli.Prelude.{
  ℕ, ◌≡◌, ◌≢◌, refl, sym, ap, ◌∙◌, inl, inr, ◌⊎◌, String, true, false, Option, none, some, get_or,
  string_eq, eqb, if◌then◌else◌, Bool-cases, some_inj, beq-cases,
}
use enterprise_sales_intelli.Prelude.Dict.{
  lookup, insert, lookup-insert_self, lookup-insert_ne, lookup-insert_cases,
}
use enterprise_sales_intelli.Execution.Snapshots.{
  TaskExecutionSnapshot, SnapshotRepository, current_one, reusable, superseded, save, get, current,
  marked, demote, install, promote,
}

-- Snapshots stand under their identifiers, none of them empty, and one that is marked as current is
-- the one that its task points to.
pub record IsSingle (s : SnapshotRepository) : Type 0 where
  pub named :
      (id : String) (x : TaskExecutionSnapshot)
      → lookup id s.snapshots ≡ some x
      → x.snapshot_id ≡ id
  pub single :
      (id : String) (x : TaskExecutionSnapshot)
      → lookup id s.snapshots ≡ some x
      → x.is_current ≡ true
      → lookup x.task_id s.current_ids ≡ some id

demoted_cases :
    (o : Option TaskExecutionSnapshot) (id : String) (x : TaskExecutionSnapshot)
    (s : SnapshotRepository)
    → lookup id (demote o s).snapshots ≡ some x
    → ((x.is_current ≡ false) × (x.snapshot_id ≡ id))
      ⊎ ((lookup id s.snapshots ≡ some x)
          × ((p : TaskExecutionSnapshot) → o ≡ some p → p.snapshot_id ≢ id))
unfolding demote save
demoted_cases none id x s h = inr (h, λ p e. cc)
demoted_cases (some previous) id x s h =
    elim (lookup-insert_cases id previous.snapshot_id (marked false reusable previous) s.snapshots
      h) [
        | inl (same, now) ↦ inl (
          ap (λ (y : TaskExecutionSnapshot). y.is_current) (sym now),
          ap (λ (y : TaskExecutionSnapshot). y.snapshot_id) (sym now) ∙ same,
        )
        | inr (other, old) ↦ inr (
          old,
          λ p e.
              λ same. other (ap (λ (y : TaskExecutionSnapshot). y.snapshot_id) (some_inj e) ∙ same),
        )
      ]

module _ (x : TaskExecutionSnapshot) (s : SnapshotRepository) (v : IsSingle s) where
  stored_cases :
      (id : String) (y : TaskExecutionSnapshot)
      → lookup id (install x s).snapshots ≡ some y
      → ((x.snapshot_id ≡ id) × (marked true current_one x ≡ y))
        ⊎ ((x.snapshot_id ≢ id) × (lookup id (demote (current x.task_id s) s).snapshots ≡ some y))
  unfolding install save
  stored_cases id y h =
      lookup-insert_cases id x.snapshot_id (marked true current_one x)
        (demote (current x.task_id s) s).snapshots h

  pointed :
      (id : String) (y : TaskExecutionSnapshot)
      → lookup id s.snapshots ≡ some y
      → y.is_current ≡ true
      → y.task_id ≡ x.task_id
      → current x.task_id s ≡ some y
  unfolding current get
  pointed id y found on same =
      let e = v.single id y found on in
      ap (λ k. lookup (get_or (lookup k s.current_ids) "") s.snapshots) (sym same)
      ∙ ap (λ k. lookup (get_or k "") s.snapshots) e
      ∙ found

  demote-current_ids : (o : Option TaskExecutionSnapshot) → (demote o s).current_ids ≡ s.current_ids
  unfolding demote save
  demote-current_ids none = refl
  demote-current_ids (some p) = refl

  install-current_ids : (install x s).current_ids ≡ insert x.task_id x.snapshot_id s.current_ids
  unfolding install save
  install-current_ids =
      ap (insert x.task_id x.snapshot_id) (demote-current_ids (current x.task_id s))

  pub install-IsSingle : IsSingle (install x s)
  install-IsSingle = record {
    named = λ id y h. elim (stored_cases id y h) [
      | inl (same, now) ↦ ap (λ (z : TaskExecutionSnapshot). z.snapshot_id) (sym now) ∙ same
      | inr (other, below) ↦ elim (demoted_cases (current x.task_id s) id y s below) [
        | inl (off, same) ↦ same
        | inr (old, differs) ↦ v.named id y old
      ]
    ];
    single = λ id y h on. ap (lookup y.task_id) install-current_ids ∙ (elim (stored_cases id y h) [
      | inl (same, now) ↦
          ap (λ k. lookup k (insert x.task_id x.snapshot_id s.current_ids))
            (sym (ap (λ (z : TaskExecutionSnapshot). z.task_id) now))
          ∙ lookup-insert_self x.task_id x.snapshot_id s.current_ids
          ∙ ap some same
      | inr (other, below) ↦ elim (demoted_cases (current x.task_id s) id y s below) [
        | inl (off, same) ↦ absurd (cc (off, on))
        | inr (old, differs) ↦ elim (beq-cases x.task_id y.task_id) [
          | inl (t, mine) ↦ absurd (differs y (pointed id y old on (sym mine)) (v.named id y old))
          | inr (f, theirs) ↦
              lookup-insert_ne y.task_id x.task_id x.snapshot_id s.current_ids theirs
              ∙ v.single id y old on
        ]
      ]
    ]);
  }

  -- A snapshot that is saved without being current.
  save-IsSingle : x.is_current ≡ false → IsSingle (save x s)
  unfolding save
  save-IsSingle off = record {
    named = λ id y h. elim (lookup-insert_cases id x.snapshot_id x s.snapshots h) [
      | inl (same, now) ↦ ap (λ (z : TaskExecutionSnapshot). z.snapshot_id) (sym now) ∙ same
      | inr (other, old) ↦ v.named id y old
    ];
    single = λ id y h on. elim (lookup-insert_cases id x.snapshot_id x s.snapshots h) [
      | inl (same, now) ↦
          absurd (cc (off, on, ap (λ (z : TaskExecutionSnapshot). z.is_current) now))
      | inr (other, old) ↦ v.single id y old on
    ];
  }

-- Promotion, granted or not, keeps at most one snapshot of a task marked as current: the one that
-- the task points to.
pub promote-IsSingle :
    (x : TaskExecutionSnapshot) (version : ℕ) (s : SnapshotRepository)
    → IsSingle s
    → IsSingle (promote x version s).1
unfolding promote
promote-IsSingle x version s v = elim (Bool-cases (eqb x.task_version version)) [
  | inl same ↦ rw (same, promote) (install-IsSingle x s v)
  | inr other ↦ rw (other, promote) (save-IsSingle (marked false superseded x) s v refl)
]

installed :
    (x : TaskExecutionSnapshot) (s : SnapshotRepository)
    → current x.task_id (install x s) ≡ some (marked true current_one x)
unfolding install save current get
installed x s =
    let d = demote (current x.task_id s) s in
    ap (λ k. lookup (get_or k "") (insert x.snapshot_id (marked true current_one x) d.snapshots))
      (lookup-insert_self x.task_id x.snapshot_id d.current_ids)
    ∙ lookup-insert_self x.snapshot_id (marked true current_one x) d.snapshots

kept :
    (x : TaskExecutionSnapshot) (task : String) (s : SnapshotRepository)
    → get_or (lookup task s.current_ids) "" ≢ x.snapshot_id
    → current task (save (marked false superseded x) s) ≡ current task s
unfolding save current get
kept x task s other =
    lookup-insert_ne (get_or (lookup task s.current_ids) "") x.snapshot_id
      (marked false superseded x) s.snapshots (λ e. other (sym e))

-- A snapshot of the task's present version is promoted and is then the task's current one. A
-- snapshot of another version is refused, and no task that does not already point to it gets
-- another current one.
pub promote-current :
    (x : TaskExecutionSnapshot) (version : ℕ) (task : String) (s : SnapshotRepository)
    → get_or (lookup task s.current_ids) "" ≢ x.snapshot_id
    → let (done, t) = promote x version s in
      (done ≡ eqb x.task_version version)
      × (if eqb x.task_version version
          then current x.task_id t ≡ some (marked true current_one x)
          else (current task t ≡ current task s))
unfolding promote
promote-current x version task s other = elim (Bool-cases (eqb x.task_version version)) [
  | inl same ↦ rw (same, promote) (refl, installed x s)
  | inr differs ↦ rw (differs, promote) (refl, kept x task s other)
]
