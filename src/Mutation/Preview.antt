-- ===== src/Mutation/Preview.antt =====
-- app/mutation/preview.py: the task that a patch would give, and what differs from the present one.
pub mod Constraints
mod Tests
use enterprise_sales_intelli.Prelude.{
  ℕ, ◌+◌, String, Bool, true, false, not, ◌||◌, Option, none, some, List, [], ◌∷◌, ◌++◌, map, any,
  keep, get_or, ◌==◌, string_eq, nat_eq, option_eq, option_beq_iff, list_eq, if◌then◌else◌, ◌≡◌,
  ◌↔◌, arith, ◌&&◌, Eq,
}
use enterprise_sales_intelli.Prelude.Sort.{sort, distinct, text_leq}
use enterprise_sales_intelli.Tasks.Models.{
  ConstraintPatch, TaskPatch, Constraint, Requirements, LeadTask, is_removal,
}
use enterprise_sales_intelli.Mutation.Models.{TaskDiff}

-- `if field in values: setattr(prospective, field, values[field])`
abbrev pub patched {ℓ} : {A : Type ℓ} → Option A → A → A
patched none old = old
patched (some new) old = new

abbrev pub patched_option {ℓ} : {A : Type ℓ} → Option A → Option A → Option A
patched_option none old = old
patched_option (some new) old = some new

module _ {V : Type 0} where
  abbrev pub entry : ConstraintPatch V → Constraint V
  entry p = record {
    field = p.field;
    operator = p.operator;
    value = p.value;
    constraint_type = p.constraint_type;
  }

  -- One turn of the loop over the constraints of the patch.
  unfoldable pub apply_constraint : ConstraintPatch V → List (Constraint V) → List (Constraint V)
  apply_constraint p cs =
      let existing = keep (λ (c : Constraint V). not (c.field == p.field)) cs in
      if is_removal p.operation then existing else existing ++ (entry p ∷ [])

  unfoldable pub apply_constraints :
      List (ConstraintPatch V) → List (Constraint V) → List (Constraint V)
  apply_constraints [] cs = cs
  apply_constraints (p ∷ ps) cs = apply_constraints ps (apply_constraint p cs)

  unfoldable pub patch_requirements : Requirements V → TaskPatch V → Requirements V
  patch_requirements r p = record {
    business = patched_option p.business r.business;
    region = patched_option p.region r.region;
    target_count = patched_option p.target_count r.target_count;
    constraints = apply_constraints p.constraints r.constraints;
    required_fields = patched p.required_fields r.required_fields;
    export_fields = patched p.export_fields r.export_fields;
  }

  unfoldable pub apply_patch_pure : LeadTask V → TaskPatch V → LeadTask V
  apply_patch_pure task p = record task {
    requirements = patch_requirements task.requirements p;
    version = task.version + 1;
  }

  -- `{item["field"]: item for item in constraints}.get(field)`: the last entry of the field.
  unfoldable pub by_field : List (Constraint V) → String → Option (Constraint V)
  by_field [] field = none
  by_field (c ∷ cs) field = elim (by_field cs field) [
    | some later ↦ some later
    | none ↦ if c.field == field then some c else none
  ]

  abbrev pub constraint_beq : ⦃e : Eq V⦄ → Constraint V → Constraint V → Bool
  constraint_beq c d =
      c.field == d.field
      && c.operator == d.operator
      && c.value == d.value
      && c.constraint_type == d.constraint_type

  pub constraint_beq_iff : ⦃e : Eq V⦄ (c d : Constraint V) → (constraint_beq c d ≡ true) ↔ (c ≡ d)
  constraint_beq_iff ⦃e⦄ c d = ground (
    arith,
    string_eq.equals_iff c.field d.field,
    option_beq_iff c.operator d.operator,
    option_beq_iff c.value d.value,
    option_beq_iff c.constraint_type d.constraint_type,
  )

  instance abbrev pub constraint_eq : ⦃e : Eq V⦄ → Eq (Constraint V)
  constraint_eq = record { equals = constraint_beq; equals_iff = constraint_beq_iff }

-- `MutationPreview`: `before` and `after` hold the fields that a patch can change.
pub record MutationPreview (V : Type 0) : Type 0 where
  pub task_id : String
  pub base_version : ℕ
  pub next_version : ℕ
  pub before : Requirements V
  pub after : Requirements V
  pub patch : TaskPatch V

module _ {V : Type 0} where
  unfoldable pub build_preview : LeadTask V → TaskPatch V → MutationPreview V
  build_preview task p =
      let prospective = apply_patch_pure task p in
      record {
        task_id = task.task_id;
        base_version = task.version;
        next_version = prospective.version;
        before = task.requirements;
        after = prospective.requirements;
        patch = p;
      }

module _ {V : Type 0} ⦃e : Eq V⦄ where
  -- `before_by_field.get(field) != after_by_field.get(field)`
  unfoldable pub is_changed : List (Constraint V) → List (Constraint V) → String → Bool
  is_changed before after field = not (by_field before field == by_field after field)

  -- The names of the changed constraints, sorted.
  unfoldable pub changed_fields : List (Constraint V) → List (Constraint V) → List String
  changed_fields before after = sort text_leq (
      keep (is_changed before after) (
        distinct (
          map (λ (c : Constraint V). c.field) before ++ map (λ (c : Constraint V). c.field) after)))

  -- `before_by_field.get(field) or after_by_field.get(field) or {}`, read by a test.
  unfoldable pub shown : List (Constraint V) → List (Constraint V) → String → Option (Constraint V)
  shown before after field = elim (by_field before field) [
    | some c ↦ some c
    | none ↦ by_field after field
  ]

  -- `item.get("constraint_type", "HARD") == "HARD"`, also for the empty dictionary.
  abbrev pub counts_hard : Option (Constraint V) → Bool
  counts_hard none = true
  counts_hard (some c) = get_or c.constraint_type "HARD" == "HARD"

  abbrev pub counts_soft : Option (Constraint V) → Bool
  counts_soft none = false
  counts_soft (some c) = get_or c.constraint_type "" == "SOFT"

  unfoldable pub calculate_task_diff : MutationPreview V → TaskDiff
  calculate_task_diff p =
      let before = p.before in
      let after = p.after in
      let changed = changed_fields before.constraints after.constraints in
      let changed_values = map (shown before.constraints after.constraints) changed in
      record {
        business_changed = not (before.business == after.business);
        region_changed = not (before.region == after.region);
        target_count_changed = not (before.target_count == after.target_count);
        required_fields_changed = not (before.required_fields == after.required_fields);
        export_fields_changed = not (before.export_fields == after.export_fields);
        constraint_fields_changed = changed;
        hard_constraints_changed = any counts_hard changed_values;
        soft_constraints_changed = any counts_soft changed_values;
      }
