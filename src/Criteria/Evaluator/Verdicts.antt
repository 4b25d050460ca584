-- ===== src/Criteria/Evaluator/Verdicts.antt =====
-- The evaluation of hard constraints is the conjunction of a three-valued logic.
use enterprise_sales_intelli.Prelude.{
  String, Bool, true, false, not, ◌||◌, ◌&&◌, some, List, [], ◌∷◌, any, All, ◌≡◌, ◌==◌, string_eq,
  if◌then◌else◌, arith, is_some,
}
use enterprise_sales_intelli.Prelude.Keys.{Eq}
use enterprise_sales_intelli.Prelude.Dict.{Dict}
use enterprise_sales_intelli.Rules.Values.{Values}
use enterprise_sales_intelli.Criteria.Models.{CompiledConstraint, LeadCriteria}
use enterprise_sales_intelli.Criteria.Evaluator.{
  FilterOutcome, match_all, no_match, unknown, matches, value_for, evaluate_all,
  evaluate_hard_constraints,
}

module _ {V N : Type 0} ⦃e : Eq V⦄ (p : Values V N) where
  -- The enterprise has no value for the constraint; it has one that does not match; comparing
  -- them raises.
  unfoldable pub is_missing : Dict String V → CompiledConstraint V → Bool
  is_missing enterprise c = value_for p c.field enterprise == p.nothing

  unfoldable pub is_refuted : Dict String V → CompiledConstraint V → Bool
  unfolding is_missing
  is_refuted enterprise c =
      not (is_missing enterprise c)
      && (elim (matches p (value_for p c.field enterprise) c.operator c.value) [
        | some false ↦ true
        | _ ↦ false
      ])

  unfoldable pub is_settled : Dict String V → CompiledConstraint V → Bool
  unfolding is_missing
  is_settled enterprise c =
      is_missing enterprise c
      || is_some (matches p (value_for p c.field enterprise) c.operator c.value)

  -- The conjunction of the verdicts: a refutation decides, and else a missing value.
  unfoldable pub conjunction : Dict String V → List (CompiledConstraint V) → Bool → FilterOutcome
  conjunction enterprise cs is_unknown =
      if any (is_refuted enterprise) cs
      then no_match
      else if is_unknown || any (is_missing enterprise) cs
      then unknown
      else match_all

  evaluate_all-conjunction :
      (enterprise : Dict String V) (cs : List (CompiledConstraint V)) (is_unknown : Bool)
      → All (λ c. is_settled enterprise c ≡ true) cs
      → evaluate_all p enterprise cs is_unknown ≡ some (conjunction enterprise cs is_unknown)
  unfolding evaluate_all conjunction is_missing is_refuted is_settled
  evaluate_all-conjunction enterprise [] is_unknown h = ground arith
  evaluate_all-conjunction enterprise (c ∷ cs) is_unknown h = ground (
    arith,
    evaluate_all-conjunction enterprise cs true h.1,
    evaluate_all-conjunction enterprise cs is_unknown h.1,
    h.0,
  )

  -- Where comparing the enterprise with any of the constraints would not raise, also with those
  -- behind one that does not match, the outcome is that of the three-valued conjunction of the
  -- constraints: one that is refuted gives no match, else one without a value gives unknown, and
  -- else all match.
  pub evaluate_hard_constraints-conjunction :
      (enterprise : Dict String V) (criteria : LeadCriteria V)
      → All (λ c. is_settled enterprise c ≡ true) criteria.hard_constraints
      → evaluate_hard_constraints p enterprise criteria
        ≡ some (conjunction enterprise criteria.hard_constraints false)
  unfolding evaluate_hard_constraints
  evaluate_hard_constraints-conjunction enterprise criteria =
      evaluate_all-conjunction enterprise criteria.hard_constraints false
