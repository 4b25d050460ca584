-- ===== src/Rules/Validator.antt =====
-- app/rules/validator.py: `RuleValidator.validate`, at a given day.
pub mod Validity
use enterprise_sales_intelli.Prelude.{
  ℕ, String, Bool, true, false, not, ◌&&◌, ◌||◌, Option, none, some, List, [], ◌∷◌, any, ltb, ◌==◌,
  string_eq, if◌then◌else◌,
}
use enterprise_sales_intelli.Prelude.Sort.{contains}
use enterprise_sales_intelli.Rules.Models.{
  BusinessRule, ConstraintType, hard, soft, info, RuleModality, required, recommended,
  informational, is_hard, is_soft, is_official, is_marketing, is_suggestion, is_active, operator_eq,
}
use enterprise_sales_intelli.Rules.Registry.{RuleFieldDefinition, is_business, definition_of}

pub data RuleValidationError : Type 0 where
  invalid_business invalid_rule_field invalid_rule_operator official_rule_missing_evidence :
      RuleValidationError
  model_suggestion_must_be_soft model_suggestion_missing_evidence marketing_rule_must_not_be_hard :
      RuleValidationError
  rule_not_active rule_expired invalid_rule_modality : RuleValidationError

-- The constraint type that a modality asks for.
abbrev pub is_expected : RuleModality → ConstraintType → Bool
is_expected required hard = true
is_expected recommended soft = true
is_expected informational info = true
is_expected _ _ = false

abbrev pub is_empty_list {ℓ} : {A : Type ℓ} → List A → Bool
is_empty_list [] = true
is_empty_list (x ∷ xs) = false

-- `rule.effective_from and rule.effective_from > check_date`, and the same for `effective_to`.
unfoldable pub is_later : Option ℕ → ℕ → Bool
is_later none today = false
is_later (some day) today = ltb today day

unfoldable pub is_earlier : Option ℕ → ℕ → Bool
is_earlier none today = false
is_earlier (some day) today = ltb day today

unfoldable pub breaks_modality : Option RuleModality → ConstraintType → Bool
breaks_modality none t = false
breaks_modality (some m) t = not (is_expected m t)

-- What is raised, if anything is; a rule that passes is returned as it is.
unfoldable pub validate : {V : Type 0} → BusinessRule V → ℕ → Option RuleValidationError
validate rule today =
    if not (is_business rule.business_code)
    then some invalid_business
    else elim (definition_of rule.field) [
      | none ↦ some invalid_rule_field
      | some d ↦
          if not (contains rule.operator d.allowed_operators)
          then some invalid_rule_operator
          else if is_official rule.source_type && is_empty_list rule.evidence_refs
          then some official_rule_missing_evidence
          else if is_suggestion rule.source_type && not (is_soft rule.constraint_type)
          then some model_suggestion_must_be_soft
          else if is_suggestion rule.source_type && is_empty_list rule.evidence_refs
          then some model_suggestion_missing_evidence
          else if is_marketing rule.source_type && is_hard rule.constraint_type
          then some marketing_rule_must_not_be_hard
          else if not (is_active rule.status)
          then some rule_not_active
          else if is_later rule.effective_from today || is_earlier rule.effective_to today
          then some rule_expired
          else if breaks_modality rule.modality rule.constraint_type
          then some invalid_rule_modality
          else none
    ]
