-- ===== src/Rules/Tests.antt =====
-- Rules on the number of employees.
use enterprise_sales_intelli.Prelude.{
  ℕ, String, true, false, Option, none, some, List, [], ◌∷◌, ◌≡◌, ◌≢◌, ◌↔◌, refl, arith, option_eq,
  nat_eq, string_eq,
}
use enterprise_sales_intelli.Prelude.Dict.{lookup, insert}
use enterprise_sales_intelli.Prelude.Sort.{contains}
use enterprise_sales_intelli.Rules.Models.{
  BusinessRule, RuleConflict, user_requirement, marketing_rule, hard, soft, active, included,
  suppressed, lt_op, gt_op, gte_op, eq_op,
}
use enterprise_sales_intelli.Rules.Values.Counts.{counts, counts-IsPython}
use enterprise_sales_intelli.Rules.Registry.{
  fields, definition_of, catalog, in_catalog, is_business,
}
use enterprise_sales_intelli.Rules.Conflicts.{
  pairs, interval, higher, smaller, is_empty, official_user, is_blocking, clash_type, is_duplicate,
  is_exclusion, detect_range, detect_pair, detect_all, detect, clash,
}
use enterprise_sales_intelli.Rules.Conflicts.Soundness.{clashes, detect_pair-clash}
use enterprise_sales_intelli.Rules.Conflicts.Strictness.{detect_pair-greater_equal}
use enterprise_sales_intelli.Rules.Conflicts.Resolution.{
  find_rule, find_rules, weaker, weakest, soft_loser, narrower_ends, losers, all_losers, resolve,
}
use enterprise_sales_intelli.Rules.Conflicts.Resolution.Safety.{Divided, resolve-keeps_hard}
use enterprise_sales_intelli.Rules.Validator.{
  rule_expired, is_later, is_earlier, breaks_modality, validate,
}
use enterprise_sales_intelli.Rules.Validator.Validity.{IsValid, validate_iff}
use enterprise_sales_intelli.Rules.Repository.{RuleRepository, first_of, upsert}
use enterprise_sales_intelli.Rules.Repository.Keyed.{IsKeyed, Upserted, upsert-IsKeyed}
use enterprise_sales_intelli.Criteria.Evaluator.{matches}

program : Unit {0}
unfolding lookup insert contains fields definition_of catalog in_catalog is_business pairs interval
    higher smaller is_empty official_user is_blocking clash_type is_duplicate is_exclusion
    detect_range detect_pair detect_all detect find_rule find_rules weaker weakest soft_loser
    narrower_ends losers all_losers resolve is_later is_earlier breaks_modality validate first_of
    upsert matches
program = tt

-- At least fifty employees, by the customer.
abbrev at_least : BusinessRule (Option ℕ)
at_least = record {
  rule_id = "r1";
  business_code = "GROUP_VNET";
  field = "employee_count";
  operator = gte_op;
  value = some 50;
  value_type = "INTEGER";
  source_type = user_requirement;
  constraint_type = hard;
  weight = none;
  confidence = 1000000;
  rationale = none;
  region = none;
  effective_from = none;
  effective_to = some 900;
  evidence_refs = [];
  provenance = [];
  source_message_id = none;
  source_key = none;
  modality = none;
  status = active;
  resolution_status = included;
  suppression_reason = none;
  created_at = 1;
}

-- Fewer than twenty, as a soft rule.
abbrev below : BusinessRule (Option ℕ)
below = record at_least {
  rule_id = "r2";
  operator = lt_op;
  value = some 20;
  source_type = marketing_rule;
  constraint_type = soft;
  source_key = some "m:1";
}

-- More than three, and exactly five.
abbrev above : BusinessRule (Option ℕ)
above = record at_least { rule_id = "r3"; operator = gt_op; value = some 3 }

abbrev exactly : BusinessRule (Option ℕ)
exactly = record at_least { rule_id = "r4"; operator = eq_op; value = some 5 }

abbrev ids : ℕ → String
ids n = "conflict"

abbrev found : List RuleConflict
found = clash counts "conflict" "数值范围没有交集" at_least below ∷ []

detected : detect counts ids (at_least ∷ below ∷ []) ≡ some found
unfolding program
detected = refl

abbrev included_rules : List (BusinessRule (Option ℕ))
included_rules = at_least ∷ []

abbrev suppressed_rules : List (BusinessRule (Option ℕ))
suppressed_rules =
    record below {
      resolution_status = suppressed;
      suppression_reason = some "SUPPRESSED_BY_USER_REQUIREMENT";
    }
    ∷ []

resolved : resolve counts (at_least ∷ below ∷ []) found ≡ some (included_rules, suppressed_rules)
unfolding program
resolved = refl

-- Five is more than three.
five_meets_both :
    (matches counts (some 5) gt_op (some 3) ≡ some true)
    × (matches counts (some 5) eq_op (some 5) ≡ some true)
unfolding program
five_meets_both = (refl, refl)

one_pair :
    detect_pair counts "c" at_least below ≡ some (clash counts "c" "数值范围没有交集" at_least below ∷ [])
unfolding program
one_pair = refl

at_least_met : matches counts (some 50) gte_op (some 50) ≡ some true
unfolding program
at_least_met = refl

clash_reported : clashes counts (clash counts "c" "数值范围没有交集" at_least below ∷ []) ≡ true
unfolding program
clash_reported = refl

detect_pair-clash_example : matches counts (some 50) lt_op (some 20) ≢ some true
detect_pair-clash_example =
    detect_pair-clash counts counts-IsPython "c" at_least below
      (clash counts "c" "数值范围没有交集" at_least below ∷ []) one_pair clash_reported (λ order. refl)
      (λ order. refl) (λ n h. h) (λ n h. h) refl (some 50) at_least_met

apart : is_duplicate counts above exactly ≡ false
unfolding program
apart = refl

detect_pair-greater_equal_example :
    detect_pair counts "c" above exactly ≡ some (clash counts "c" "数值范围没有交集" above exactly ∷ [])
detect_pair-greater_equal_example =
    detect_pair-greater_equal counts counts-IsPython "c" above exactly 3 5 5 refl apart refl refl
      refl refl refl

both_named :
    (find_rule "r1" (at_least ∷ below ∷ []) ≡ some at_least)
    × (find_rule "r2" (at_least ∷ below ∷ []) ≡ some below)
unfolding program
both_named = (refl, refl)

resolve-keeps_hard_example : Divided (at_least ∷ below ∷ []) included_rules suppressed_rules
resolve-keeps_hard_example =
    resolve-keeps_hard counts (at_least ∷ below ∷ []) ids found included_rules suppressed_rules
      (both_named.0, (both_named.1, tt)) detected resolved

expired_today : validate at_least 901 ≡ some rule_expired
unfolding program
expired_today = refl

validate_iff_example : (validate at_least 900 ≡ none) ↔ IsValid at_least 900
validate_iff_example = validate_iff at_least 900

abbrev empty : RuleRepository (Option ℕ) String
empty = record { rules = []; marketing_rules = []; criteria = []; evidence = []; conflicts = [] }

abbrev one_rule : RuleRepository (Option ℕ) String
one_rule = (upsert below empty).1

empty-IsKeyed : IsKeyed {V = Option ℕ} []
unfolding lookup
empty-IsKeyed id other r q hr hq full same = absurd (ground arith)

abbrev other_below : BusinessRule (Option ℕ)
other_below = record below { rule_id = "r9"; value = some 10 }

upsert-IsKeyed_example :
    IsKeyed (upsert other_below one_rule).1.rules
    × Upserted other_below one_rule (upsert other_below one_rule)
upsert-IsKeyed_example =
    upsert-IsKeyed other_below one_rule (upsert-IsKeyed below empty empty-IsKeyed).0
