-- ===== src/Rules/Conflicts/Strictness.antt =====
-- A strict bound beside an equality.
use enterprise_sales_intelli.Prelude.{
  String, true, false, none, some, [], ◌∷◌, ◌≡◌, refl, string_eq, arith, ◌==◌,
}
use enterprise_sales_intelli.Prelude.Keys.{Eq}
use enterprise_sales_intelli.Rules.Models.{eq_op, gt_op, operator_eq, BusinessRule}
use enterprise_sales_intelli.Rules.Values.{Values, IsPython}
use enterprise_sales_intelli.Rules.Conflicts.{
  Interval, interval, higher, smaller, is_empty, is_duplicate, is_exclusion, detect_range,
  detect_pair, clash,
}

module _ {V N : Type 0} ⦃e : Eq V⦄ (p : Values V N) (law : IsPython p) where
  abbrev above : N → Interval N
  above a = record { lower = some a; lower_inc = false; upper = none; upper_inc = true }

  abbrev exactly : N → Interval N
  exactly b = record { lower = some b; lower_inc = true; upper = some b; upper_inc = true }

  strict_empty : (a b : N) → is_empty p (above a) (exactly b) ≡ true
  unfolding is_empty higher smaller
  strict_empty a b = ground (arith, law.ordered.total b b, law.ordered.total a b)

  -- The rule that a value is greater than a number and the rule that it equals another, on one
  -- field and not from one source, are reported to clash whatever two numbers `float` makes of
  -- theirs: also where the second one is greater than the first, so that it meets both rules.
  pub detect_pair-greater_equal :
      (id : String) (l r : BusinessRule V) (a b n : N)
      → (l.field == r.field) ≡ true
      → is_duplicate p l r ≡ false
      → l.operator ≡ gt_op
      → r.operator ≡ eq_op
      → p.as_float l.value ≡ some a
      → p.number r.value ≡ some n
      → p.as_float r.value ≡ some b
      → detect_pair p id l r ≡ some (clash p id "数值范围没有交集" l r ∷ [])
  unfolding detect_pair detect_range is_exclusion interval
  detect_pair-greater_equal id l r a b n one_field apart lo ro la rn rb =
      let li : interval p l.operator l.value ≡ some (above a) = rw (lo, la, interval) refl in
      let rj : interval p r.operator r.value ≡ some (exactly b) = rw (ro, rn, rb, interval) refl in
      ground (arith, strict_empty a b)
