-- ===== src/Criteria/Models.antt =====
-- app/criteria/models.py. `V` is the type of constraint values; weights are in millionths.
use enterprise_sales_intelli.Prelude.{ℕ, String, Bool, Option, List}
use enterprise_sales_intelli.Rules.Models.{RuleOperator}

pub record CompiledConstraint (V : Type 0) : Type 0 where
  pub field : String
  pub operator : RuleOperator
  pub value : V
  pub source_rule_ids : List String
  pub rationale : Option String

pub record RankingPreference (V : Type 0) : Type 0 where
  pub field : String
  pub operator : RuleOperator
  pub value : V
  pub normalized_weight : ℕ
  pub source_rule_ids : List String

pub record LeadCriteria (V : Type 0) : Type 0 where
  pub criteria_id : String
  pub task_id : String
  pub task_version : ℕ
  pub business_code : String
  pub region_scope : List String
  pub target_count : ℕ
  pub hard_constraints : List (CompiledConstraint V)
  pub soft_constraints : List (CompiledConstraint V)
  pub required_fields : List String
  pub ranking_preferences : List (RankingPreference V)
  pub source_rule_ids : List String
  pub warnings : List String
  pub criteria_hash : Option String
  pub created_at : ℕ

-- The dictionary with the keys `field`, `before` and `after`.
pub record Changed (C : Type 0) : Type 0 where
  pub field : String
  pub before : List C
  pub after : List C

pub record CriteriaDiff (V : Type 0) : Type 0 where
  pub added_hard : List (CompiledConstraint V)
  pub removed_hard : List (CompiledConstraint V)
  pub changed_hard : List (Changed (CompiledConstraint V))
  pub added_soft : List (RankingPreference V)
  pub removed_soft : List (RankingPreference V)
  pub changed_soft : List (Changed (RankingPreference V))
  pub business_changed : Bool
  pub region_changed : Bool
  pub target_count_changed : Bool
