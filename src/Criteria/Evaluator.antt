-- ===== src/Criteria/Evaluator.antt =====
-- app/criteria/evaluator.py, `_matches` and `DefaultCriteriaEvaluator`, and `FilterOutcome` of
-- app/research/models.py. An enterprise is a dictionary of values; nothing is returned where the
-- source raises.
pub mod Verdicts
use enterprise_sales_intelli.Prelude.{
  ℕ, ◌+◌, String, Bool, true, false, not, Option, none, some, List, [], ◌∷◌, get_or, ◌==◌,
  string_eq, if◌then◌else◌,
}
use enterprise_sales_intelli.Prelude.Keys.{Eq}
use enterprise_sales_intelli.Prelude.Dict.{Dict, lookup}
use enterprise_sales_intelli.Rules.Models.{
  RuleOperator, eq_op, ne_op, gt_op, gte_op, lt_op, lte_op, in_op, not_in_op, contains_op,
  exists_op, not_exists_op,
}
use enterprise_sales_intelli.Rules.Values.{Values}
use enterprise_sales_intelli.Criteria.Models.{CompiledConstraint, RankingPreference, LeadCriteria}

pub data FilterOutcome : Type 0 where
  match_all no_match unknown : FilterOutcome

module _ {V N : Type 0} ⦃e : Eq V⦄ (p : Values V N) where
  -- `value is not None and …`
  abbrev pub unless_nothing : V → Option Bool → Option Bool
  unless_nothing value answer = if value == p.nothing then some false else answer

  abbrev pub negated : Option Bool → Option Bool
  negated none = none
  negated (some b) = some (not b)

  -- `_matches(value, operator, expected)`
  unfoldable pub matches : V → RuleOperator → V → Option Bool
  matches value eq_op expected = some (value == expected)
  matches value ne_op expected = some (not (value == expected))
  matches value gt_op expected = unless_nothing value (p.less expected value)
  matches value gte_op expected = unless_nothing value (p.at_most expected value)
  matches value lt_op expected = unless_nothing value (p.less value expected)
  matches value lte_op expected = unless_nothing value (p.at_most value expected)
  matches value in_op expected = p.member value expected
  matches value not_in_op expected = negated (p.member value expected)
  matches value contains_op expected = unless_nothing value (p.member expected value)
  matches value exists_op expected = some (not (value == p.nothing))
  matches value not_exists_op expected = some (value == p.nothing)

  -- `enterprise.get(key)`
  abbrev pub attribute : String → Dict String V → V
  attribute key enterprise = get_or (lookup key enterprise) p.nothing

  -- The value that a constraint is about.
  unfoldable pub value_for : String → Dict String V → V
  value_for field enterprise =
      if field == "has_office_in"
      then if p.is_true (attribute "locations" enterprise)
        then attribute "locations" enterprise
        else if p.is_true (attribute "address" enterprise)
        then p.list_of (attribute "address" enterprise ∷ [])
        else p.nothing
      else attribute field enterprise

  -- The loop over the constraints, with what `unknown` is.
  unfoldable pub evaluate_all :
      Dict String V → List (CompiledConstraint V) → Bool → Option FilterOutcome
  evaluate_all enterprise [] is_unknown = some (if is_unknown then unknown else match_all)
  evaluate_all enterprise (c ∷ cs) is_unknown =
      let value = value_for c.field enterprise in
      let skipped = evaluate_all enterprise cs true in
      let rest = evaluate_all enterprise cs is_unknown in
      if value == p.nothing then skipped else elim (matches value c.operator c.value) [
        | none ↦ none
        | some true ↦ rest
        | some false ↦ some no_match
      ]

  unfoldable pub evaluate_hard_constraints : Dict String V → LeadCriteria V → Option FilterOutcome
  evaluate_hard_constraints enterprise criteria =
      evaluate_all enterprise criteria.hard_constraints false

  unfoldable pub matches_hard_constraints : Dict String V → LeadCriteria V → Option Bool
  matches_hard_constraints enterprise criteria =
      elim (evaluate_hard_constraints enterprise criteria) [
        | none ↦ none
        | some match_all ↦ some true
        | some _ ↦ some false
      ]

  -- `sum(…)` over the preferences that match.
  unfoldable pub score_of : Dict String V → List (RankingPreference V) → Option ℕ
  score_of enterprise [] = some 0
  score_of enterprise (q ∷ qs) =
      let rest = score_of enterprise qs in
      elim (matches (attribute q.field enterprise) q.operator q.value) [
        | none ↦ none
        | some met ↦ elim rest [
          | none ↦ none
          | some sum ↦ some ((if met then q.normalized_weight else 0) + sum)
        ]
      ]

  unfoldable pub preference_score : Dict String V → LeadCriteria V → Option ℕ
  preference_score enterprise criteria = score_of enterprise criteria.ranking_preferences
