-- ===== src/Mutation/Validation.antt =====
-- app/mutation/service.py: `MutationService.validate_patch`. Of the rule service it reads the stored
-- rules, if it has one. A `Fresh` is what a call takes from the clock and from `uuid4`.
use enterprise_sales_intelli.Prelude.{
  ℕ, String, Bool, true, false, not, ◌&&◌, ◌||◌, Option, none, some, List, [], ◌∷◌, ◌++◌, any, keep,
  eqb, get_or, is_some, ◌==◌, string_eq, if◌then◌else◌, Eq,
}
use enterprise_sales_intelli.Prelude.Dict.{Dict, values}
use enterprise_sales_intelli.Prelude.Sort.{contains}
use enterprise_sales_intelli.Prelude.Texts.{strip}
use enterprise_sales_intelli.Tasks.Models.{ConstraintPatch, TaskPatch, LeadTask, is_removal}
use enterprise_sales_intelli.Tasks.Repository.{Repository, Stamp, TaskError, get_task}
use enterprise_sales_intelli.Rules.Models.{
  RuleOperator, operator_of, operator_eq, BusinessRule, RuleConflict, user_requirement, hard,
  active, included, is_official, is_hard,
}
use enterprise_sales_intelli.Rules.Registry.{definition_of, is_business, normalize_business_code}
use enterprise_sales_intelli.Rules.Values.{Values}
use enterprise_sales_intelli.Rules.Conflicts.{detect}

-- `InvalidTaskPatchError` by its message, what the task repository raises, and the other
-- exceptions: of the rule checks, of an unknown stored operator, and of a broken request index.
pub data MutationError : Type 0 where
  target_count_must_be_positive invalid_business invalid_region : MutationError
  unknown_field value_and_operator_required invalid_operator : MutationError
  operator_not_valid_for_field removal_with_value rule_conflict : MutationError
  task_error : TaskError → MutationError
  rule_check_raised stored_operator_unknown request_index_broken : MutationError

pub record Fresh : Type 0 where
  pub mutation_id : String
  pub plan_id : String
  pub criteria_id : String
  pub rule_id : String
  pub conflict_id : ℕ → String
  pub stamp : Stamp

abbrev pub is_given : Option String → Bool
is_given none = false
is_given (some t) = not (t == "")

-- `not target_count > 0`, an unknown business, and a blank region, when they are given.
unfoldable pub bad_count : Option ℕ → Bool
bad_count none = false
bad_count (some n) = eqb n 0

unfoldable pub bad_business : Option String → Bool
bad_business none = false
bad_business (some b) = not (is_business (normalize_business_code b))

unfoldable pub bad_region : Option String → Bool
bad_region none = false
bad_region (some r) = strip r == ""

module _ {V : Type 0} where
  -- The checks of one constraint of the patch.
  unfoldable pub validate_item : ConstraintPatch V → Option MutationError
  validate_item item = elim (definition_of item.field) [
    | none ↦ some unknown_field
    | some d ↦
        if is_removal item.operation
        then if is_some item.operator || is_some item.value then some removal_with_value else none
        else if not (is_given item.operator && is_some item.value)
        then some value_and_operator_required
        else elim (operator_of (get_or item.operator "")) [
          | none ↦ some invalid_operator
          | some o ↦
              if contains o d.allowed_operators then none else some operator_not_valid_for_field
        ]
  ]

  unfoldable pub validate_items : List (ConstraintPatch V) → Option MutationError
  validate_items [] = none
  validate_items (item ∷ items) = elim (validate_item item) [
    | some e ↦ some e
    | none ↦ validate_items items
  ]

  -- The official hard rules of the task's business.
  unfoldable pub official_rules : LeadTask V → Dict String (BusinessRule V) → List (BusinessRule V)
  official_rules task rules =
      keep
        (λ (r : BusinessRule V).
          r.business_code == normalize_business_code (get_or task.requirements.business "")
          && is_official r.source_type
          && is_hard r.constraint_type)
        (values rules)

  -- The user's rule that a constraint of the patch is.
  unfoldable pub user_rule : Fresh → LeadTask V → String → RuleOperator → V → BusinessRule V
  user_rule fresh task field operator value = record {
    rule_id = fresh.rule_id;
    business_code = normalize_business_code (get_or task.requirements.business "");
    field = field;
    operator = operator;
    value = value;
    value_type = "AUTO";
    source_type = user_requirement;
    constraint_type = hard;
    weight = none;
    confidence = 1000000;
    rationale = none;
    region = none;
    effective_from = none;
    effective_to = none;
    evidence_refs = [];
    provenance = [];
    source_message_id = none;
    source_key = none;
    modality = none;
    status = active;
    resolution_status = included;
    suppression_reason = none;
    created_at = fresh.stamp.now;
  }

abbrev has_any {ℓ} : {A : Type ℓ} → List A → Bool
has_any [] = false
has_any (x ∷ xs) = true

module _ {V N : Type 0} ⦃e : Eq V⦄ (p : Values V N) (workspace : String)
    (rules : Option (Dict String (BusinessRule V))) where
  -- Whether a constraint of the patch is compared with the official rules.
  abbrev pub is_checked : ConstraintPatch V → Bool
  is_checked item =
      not (is_removal item.operation || not (get_or item.constraint_type "" == "HARD"))

  -- A hard constraint against the official rules.
  unfoldable pub check_rule :
      Fresh → LeadTask V → List (BusinessRule V) → ConstraintPatch V → Option MutationError
  check_rule fresh task official item =
      if not (is_checked item) then none else elim (operator_of (get_or item.operator "")) [
        | none ↦ some rule_check_raised
        | some o ↦ elim item.value [
          | none ↦ some rule_check_raised
          | some value ↦
              elim (detect p fresh.conflict_id
                (official ++ (user_rule fresh task item.field o value ∷ []))) [
                  | none ↦ some rule_check_raised
                  | some conflicts ↦
                      if any (λ (c : RuleConflict). c.blocking) conflicts
                      then some rule_conflict
                      else none
                ]
        ]
      ]

  unfoldable pub check_rules :
      Fresh → LeadTask V → List (BusinessRule V) → List (ConstraintPatch V) → Option MutationError
  check_rules fresh task official [] = none
  check_rules fresh task official (item ∷ items) = elim (check_rule fresh task official item) [
    | some e ↦ some e
    | none ↦ check_rules fresh task official items
  ]

  -- The checks against the rule service. Where there is no task they raise as soon as they read
  -- its business, for a stored rule or for a constraint that is compared.
  unfoldable pub check_official :
      Fresh → String → List (ConstraintPatch V) → Repository V → Option MutationError
  check_official fresh task_id items tasks = elim rules [
    | none ↦ none
    | some stored ↦
        if task_id == "" then none else elim (get_task workspace (some task_id) none tasks) [
          | none ↦
              if has_any (values stored) || any is_checked items
              then some rule_check_raised
              else none
          | some task ↦ check_rules fresh task (official_rules task stored) items
        ]
  ]

  unfoldable pub validate_patch : Fresh → TaskPatch V → String → Repository V → Option MutationError
  validate_patch fresh patch task_id tasks =
      if bad_count patch.target_count
      then some target_count_must_be_positive
      else if bad_business patch.business
      then some invalid_business
      else if bad_region patch.region
      then some invalid_region
      else elim (validate_items patch.constraints) [
        | some e ↦ some e
        | none ↦ check_official fresh task_id patch.constraints tasks
      ]
