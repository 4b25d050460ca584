-- ===== src/Rules/Models.antt =====
-- app/rules/models.py. `V` is the type of rule values; dates are day numbers, and weights and
-- confidences are in millionths.
use enterprise_sales_intelli.Prelude.{
  ℕ, String, Bool, true, false, Option, none, some, List, ◌≡◌, refl, string_eq, ◌==◌, if◌then◌else◌,
}
use enterprise_sales_intelli.Prelude.Keys.{Eq, eq_by_text}

pub data RuleSourceType : Type 0 where
  official_requirement marketing_rule user_requirement model_suggestion : RuleSourceType

pub data ConstraintType : Type 0 where
  hard soft info : ConstraintType

pub data RuleModality : Type 0 where
  required recommended informational : RuleModality

pub data RuleStatus : Type 0 where
  draft active disabled expired : RuleStatus

pub data RuleResolutionStatus : Type 0 where
  included suppressed conflict invalid : RuleResolutionStatus

pub data RuleOperator : Type 0 where
  eq_op ne_op gt_op gte_op lt_op lte_op in_op not_in_op contains_op exists_op not_exists_op :
      RuleOperator

-- `RuleOperator.value`, and the operator of a text: nothing when `RuleOperator(text)` raises.
abbrev pub operator_value : RuleOperator → String
operator_value eq_op = "EQ"
operator_value ne_op = "NE"
operator_value gt_op = "GT"
operator_value gte_op = "GTE"
operator_value lt_op = "LT"
operator_value lte_op = "LTE"
operator_value in_op = "IN"
operator_value not_in_op = "NOT_IN"
operator_value contains_op = "CONTAINS"
operator_value exists_op = "EXISTS"
operator_value not_exists_op = "NOT_EXISTS"

abbrev pub operator_of : String → Option RuleOperator
operator_of t =
    if t == "EQ"
    then some eq_op
    else if t == "NE"
    then some ne_op
    else if t == "GT"
    then some gt_op
    else if t == "GTE"
    then some gte_op
    else if t == "LT"
    then some lt_op
    else if t == "LTE"
    then some lte_op
    else if t == "IN"
    then some in_op
    else if t == "NOT_IN"
    then some not_in_op
    else if t == "CONTAINS"
    then some contains_op
    else if t == "EXISTS"
    then some exists_op
    else if t == "NOT_EXISTS"
    then some not_exists_op
    else none

pub operator_of-operator_value : (o : RuleOperator) → operator_of (operator_value o) ≡ some o
operator_of-operator_value eq_op = refl
operator_of-operator_value ne_op = refl
operator_of-operator_value gt_op = refl
operator_of-operator_value gte_op = refl
operator_of-operator_value lt_op = refl
operator_of-operator_value lte_op = refl
operator_of-operator_value in_op = refl
operator_of-operator_value not_in_op = refl
operator_of-operator_value contains_op = refl
operator_of-operator_value exists_op = refl
operator_of-operator_value not_exists_op = refl

instance abbrev pub operator_eq : Eq RuleOperator
operator_eq = eq_by_text operator_value operator_of operator_of-operator_value

pub record RuleProvenance : Type 0 where
  pub source_type : RuleSourceType
  pub document_id : Option String
  pub chunk_id : Option String
  pub page_start : Option ℕ
  pub page_end : Option ℕ
  pub source_message_id : Option String
  pub marketing_rule_id : Option String
  pub model_reasoning_summary : Option String
  pub evidence_text : Option String

pub record BusinessRule (V : Type 0) : Type 0 where
  pub rule_id : String
  pub business_code : String
  pub field : String
  pub operator : RuleOperator
  pub value : V
  pub value_type : String
  pub source_type : RuleSourceType
  pub constraint_type : ConstraintType
  pub weight : Option ℕ
  pub confidence : ℕ
  pub rationale : Option String
  pub region : Option String
  pub effective_from : Option ℕ
  pub effective_to : Option ℕ
  pub evidence_refs : List String
  pub provenance : List RuleProvenance
  pub source_message_id : Option String
  pub source_key : Option String
  pub modality : Option RuleModality
  pub status : RuleStatus
  pub resolution_status : RuleResolutionStatus
  pub suppression_reason : Option String
  pub created_at : ℕ

pub data RuleConflictType : Type 0 where
  duplicate compatible narrower direct_conflict official_user_conflict soft_conflict :
      RuleConflictType

-- `suggested_actions`, which stays empty, is left out.
pub record RuleConflict : Type 0 where
  pub conflict_id : String
  pub conflict_type : RuleConflictType
  pub rule_ids : List String
  pub field : String
  pub blocking : Bool
  pub explanation : String

abbrev pub is_hard : ConstraintType → Bool
is_hard hard = true
is_hard _ = false

abbrev pub is_soft : ConstraintType → Bool
is_soft soft = true
is_soft _ = false

abbrev pub is_official : RuleSourceType → Bool
is_official official_requirement = true
is_official _ = false

abbrev pub is_user : RuleSourceType → Bool
is_user user_requirement = true
is_user _ = false

abbrev pub is_marketing : RuleSourceType → Bool
is_marketing marketing_rule = true
is_marketing _ = false

abbrev pub is_suggestion : RuleSourceType → Bool
is_suggestion model_suggestion = true
is_suggestion _ = false

abbrev pub is_active : RuleStatus → Bool
is_active active = true
is_active _ = false
