-- ===== src/Mutation/Diff.antt =====
-- app/mutation/diff.py: the criteria that a task stands for, and their difference. Nothing is
-- returned where an operator is none of the known ones, which raises.
use enterprise_sales_intelli.Prelude.{
  ℕ, String, Option, none, some, List, [], ◌∷◌, get_or, eqb, ◌==◌, string_eq, if◌then◌else◌,
}
use enterprise_sales_intelli.Tasks.Models.{Constraint, LeadTask}
use enterprise_sales_intelli.Rules.Models.{operator_of}
use enterprise_sales_intelli.Rules.Registry.{normalize_business_code}
use enterprise_sales_intelli.Criteria.Models.{
  CompiledConstraint, RankingPreference, LeadCriteria, CriteriaDiff,
}
use enterprise_sales_intelli.Criteria.Diff.{diff_criteria}

-- The lists that the loop fills.
pub record Compiled (V : Type 0) : Type 0 where
  pub hard : List (CompiledConstraint V)
  pub soft : List (CompiledConstraint V)
  pub ranking : List (RankingPreference V)

-- `value or 1` for a count.
abbrev count_or_one : Option ℕ → ℕ
count_or_one n = if eqb (get_or n 0) 0 then 1 else get_or n 0

abbrev region_list : Option String → List String
region_list region = if get_or region "" == "" then [] else get_or region "" ∷ []

module _ {V : Type 0} where
  -- A weight of 1.0 in millionths.
  abbrev preference_of : CompiledConstraint V → RankingPreference V
  preference_of c = record {
    field = c.field;
    operator = c.operator;
    value = c.value;
    normalized_weight = 1000000;
    source_rule_ids = [];
  }

  abbrev add_compiled : Constraint V → CompiledConstraint V → Compiled V → Compiled V
  add_compiled item c rest =
      if get_or item.constraint_type "HARD" == "SOFT"
      then record rest { soft = c ∷ rest.soft; ranking = preference_of c ∷ rest.ranking }
      else record rest { hard = c ∷ rest.hard }

  unfoldable pub compile_constraints : List (Constraint V) → Option (Compiled V)
  compile_constraints [] = some (record { hard = []; soft = []; ranking = [] })
  compile_constraints (item ∷ items) =
      let rest = compile_constraints items in
      if item.field == "" then rest else elim item.value [
        | none ↦ rest
        | some value ↦ elim (operator_of (get_or item.operator "EQ")) [
          | none ↦ none
          | some operator ↦ elim rest [
            | none ↦ none
            | some compiled ↦ some (
                add_compiled item
                  (record {
                    field = item.field;
                    operator = operator;
                    value = value;
                    source_rule_ids = [];
                    rationale = none;
                  })
                  compiled)
          ]
        ]
      ]

  unfoldable pub criteria_from_task : String → ℕ → LeadTask V → Option (LeadCriteria V)
  criteria_from_task id now task =
      let r = task.requirements in
      elim (compile_constraints r.constraints) [
        | none ↦ none
        | some compiled ↦ some (record {
          criteria_id = id;
          task_id = task.task_id;
          task_version = task.version;
          business_code = normalize_business_code (get_or r.business "");
          region_scope = region_list r.region;
          target_count = count_or_one r.target_count;
          hard_constraints = compiled.hard;
          soft_constraints = compiled.soft;
          required_fields = r.required_fields;
          ranking_preferences = compiled.ranking;
          source_rule_ids = [];
          warnings = [];
          criteria_hash = none;
          created_at = now;
        })
      ]

  unfoldable pub calculate_criteria_diff :
      (V → String) → String → ℕ → LeadTask V → LeadTask V → Option (CriteriaDiff V)
  calculate_criteria_diff repr id now before after = elim (criteria_from_task id now before) [
    | none ↦ none
    | some old_one ↦ elim (criteria_from_task id now after) [
      | none ↦ none
      | some new_one ↦ some (diff_criteria repr old_one new_one)
    ]
  ]
