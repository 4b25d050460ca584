-- ===== src/Criteria/Tests.antt =====
-- An enterprise with thirty employees and no known number of offices.
use enterprise_sales_intelli.Prelude.{
  All, ℕ, String, true, false, Option, none, some, [], ◌∷◌, ◌≡◌, refl, option_eq, nat_eq, string_eq,
}
use enterprise_sales_intelli.Prelude.Dict.{Dict, lookup}
use enterprise_sales_intelli.Prelude.Sort.{contains, sort, insert_sorted, distinct}
use enterprise_sales_intelli.Rules.Models.{gte_op, lte_op}
use enterprise_sales_intelli.Rules.Values.Counts.{counts}
use enterprise_sales_intelli.Criteria.Models.{CompiledConstraint, RankingPreference, LeadCriteria}
use enterprise_sales_intelli.Criteria.Evaluator.{
  unknown, no_match, matches, value_for, evaluate_all, evaluate_hard_constraints,
  matches_hard_constraints, score_of, preference_score,
}
use enterprise_sales_intelli.Criteria.Evaluator.Verdicts.{
  is_missing, is_refuted, is_settled, conjunction, evaluate_hard_constraints-conjunction,
}
use enterprise_sales_intelli.Criteria.Diff.{
  same_keys, split_field, split_fields, all_fields, split_changes, constraint_key, diff_criteria,
}
use enterprise_sales_intelli.Criteria.Diff.Fields.{names, changes, IsWhole, split_changes-fields}

program : Unit {0}
unfolding lookup contains sort insert_sorted distinct matches value_for evaluate_all
    evaluate_hard_constraints matches_hard_constraints score_of preference_score is_missing
    is_refuted is_settled conjunction same_keys split_field split_fields all_fields split_changes
    diff_criteria
program = tt

abbrev employees : CompiledConstraint (Option ℕ)
employees = record {
  field = "employee_count";
  operator = gte_op;
  value = some 20;
  source_rule_ids = "r1" ∷ [];
  rationale = none;
}

abbrev offices : CompiledConstraint (Option ℕ)
offices = record employees { field = "office_count"; value = some 2 }

abbrev more_employees : CompiledConstraint (Option ℕ)
more_employees = record employees { value = some 40 }

abbrev preference : RankingPreference (Option ℕ)
preference = record {
  field = "employee_count";
  operator = lte_op;
  value = some 100;
  normalized_weight = 1000000;
  source_rule_ids = "r2" ∷ [];
}

abbrev criteria : LeadCriteria (Option ℕ)
criteria = record {
  criteria_id = "c1";
  task_id = "t1";
  task_version = 1;
  business_code = "GROUP_VNET";
  region_scope = "Fuzhou" ∷ [];
  target_count = 10;
  hard_constraints = offices ∷ employees ∷ [];
  soft_constraints = [];
  required_fields = "phone" ∷ [];
  ranking_preferences = preference ∷ [];
  source_rule_ids = "r1" ∷ "r2" ∷ [];
  warnings = [];
  criteria_hash = none;
  created_at = 1;
}

abbrev stricter : LeadCriteria (Option ℕ)
stricter = record criteria { hard_constraints = more_employees ∷ [] }

abbrev enterprise : Dict String (Option ℕ)
enterprise = ("employee_count", some 30) ∷ []

offices_unknown : evaluate_hard_constraints counts enterprise criteria ≡ some unknown
unfolding program
offices_unknown = refl

too_small : evaluate_hard_constraints counts enterprise stricter ≡ some no_match
unfolding program
too_small = refl

scored : preference_score counts enterprise criteria ≡ some 1000000
unfolding program
scored = refl

evaluate_hard_constraints-conjunction_example :
    evaluate_hard_constraints counts enterprise criteria
    ≡ some (conjunction counts enterprise (offices ∷ employees ∷ []) false)
unfolding program
evaluate_hard_constraints-conjunction_example =
    evaluate_hard_constraints-conjunction counts enterprise criteria (refl, (refl, tt))

-- The texts of values do not matter to the fields that are added or removed.
abbrev shown : Option ℕ → String
shown none = "None"
shown (some n) = "a number"

offices_removed : (diff_criteria shown criteria stricter).removed_hard ≡ offices ∷ []
unfolding program
offices_removed = refl

split_changes-fields_example :
    let of_field = λ (c : CompiledConstraint (Option ℕ)). c.field in
    let key = constraint_key shown in
    let s = split_changes of_field key (offices ∷ employees ∷ []) (more_employees ∷ []) in
    (names of_field key "office_count" s.added ≡ false)
    × (names of_field key "office_count" s.removed ≡ true)
    × (changes of_field key "office_count" s.changed ≡ false)
    × All (IsWhole of_field key (offices ∷ employees ∷ []) (more_employees ∷ [])) s.changed
unfolding program
split_changes-fields_example =
    split_changes-fields (λ (c : CompiledConstraint (Option ℕ)). c.field) (constraint_key shown)
      "office_count" (offices ∷ employees ∷ []) (more_employees ∷ [])
