-- ===== src/Rules/Conflicts/Soundness.antt =====
-- A reported clash of two rules is one that no value can get around, and where that fails.
use enterprise_sales_intelli.Prelude.{
  String, Bool, true, false, ◌&&◌, ◌||◌, some, List, any, ◌≡◌, ◌⊎◌, inl, inr, refl, sym, ap, ◌∙◌,
  subst, ◌==◌, string_eq, is_some, arith, Bool-cases, Option-cases, some_inj, ◌≢◌,
}
use enterprise_sales_intelli.Prelude.Keys.{Eq}
use enterprise_sales_intelli.Rules.Models.{
  RuleOperator, eq_op, in_op, not_in_op, operator_eq, BusinessRule, RuleConflict, RuleConflictType,
  direct_conflict, official_user_conflict,
}
use enterprise_sales_intelli.Rules.Values.{Values, IsPython, IsExact}
use enterprise_sales_intelli.Criteria.Evaluator.{matches}
use enterprise_sales_intelli.Rules.Conflicts.{
  Interval, is_lower, is_upper, is_equal, is_range, is_membership, interval, is_empty, is_exclusion,
  detect_range, detect_pair,
}
use enterprise_sales_intelli.Rules.Conflicts.Ranges.{
  is_strict, equals_meet, equal_order, orders_meet_at,
}

-- The two kinds of conflict that say that no value meets both rules.
abbrev pub is_clash : RuleConflictType → Bool
is_clash direct_conflict = true
is_clash official_user_conflict = true
is_clash _ = false

is_membership-of : (o : RuleOperator) → is_membership o ≡ true → (o ≡ in_op) ⊎ (o ≡ not_in_op)
is_membership-of in_op h = inl refl
is_membership-of not_in_op h = inr refl
is_membership-of _ h = absurd (ground arith)

-- One of the rules asks for one value, and the other is strictly above or below another.
abbrev pub is_mixed : {V : Type 0} → BusinessRule V → BusinessRule V → Bool
is_mixed l r =
    is_equal l.operator && is_strict r.operator || is_strict l.operator && is_equal r.operator

module _ {V N : Type 0} ⦃e : Eq V⦄ (p : Values V N) where
  -- Orders are with numbers.
  abbrev pub IsNumeric : BusinessRule V → Type 0
  IsNumeric r =
      (is_lower r.operator || is_upper r.operator) ≡ true → is_some (p.number r.value) ≡ true

  abbrev pub clashes : List RuleConflict → Bool
  clashes = any (λ (c : RuleConflict). is_clash c.conflict_type)

  -- Why a range clash is reported.
  range_cases :
      (id : String) (l r : BusinessRule V) (cs : List RuleConflict)
      → detect_range p id l r ≡ some cs
      → clashes cs ≡ true
      → (i j : Interval N) × (interval p l.operator l.value ≡ some i)
        × (interval p r.operator r.value ≡ some j)
        × (is_empty p i j ≡ true)
  unfolding detect_range
  range_cases id l r cs h clash = elim (Option-cases (interval p l.operator l.value)) [
    | inl raised ↦ absurd (ground arith)
    | inr (i, li) ↦ elim (Option-cases (interval p r.operator r.value)) [
      | inl raised ↦ absurd (ground arith)
      | inr (j, rj) ↦ (i, j, li, rj, ground arith)
    ]
  ]

  pub pair_cases :
      (id : String) (l r : BusinessRule V) (cs : List RuleConflict)
      → detect_pair p id l r ≡ some cs
      → clashes cs ≡ true
      → (is_exclusion p l r ≡ true)
        ⊎ ((is_equal l.operator ≡ true) × (is_equal r.operator ≡ true) × (l.value ≢ r.value))
        ⊎ ((is_range l.operator ≡ true)
            × (is_range r.operator ≡ true)
            × (detect_range p id l r ≡ some cs))
  unfolding detect_pair
  pair_cases id l r cs h clash = ground (arith, e.equals_iff l.value r.value)

  -- What matches an inclusion in a collection does not match the exclusion from it.
  exclusion_excludes :
      (l r : RuleOperator) (v x : V)
      → is_membership l ≡ true
      → is_membership r ≡ true
      → l ≢ r
      → matches p x l v ≡ some true
      → matches p x r v ≡ some true
      → ⊥
  unfolding matches
  exclusion_excludes in_op in_op v x hl hr differ ml mr = differ refl
  exclusion_excludes in_op not_in_op v x hl hr differ ml mr = ground arith
  exclusion_excludes not_in_op in_op v x hl hr differ ml mr = ground arith
  exclusion_excludes not_in_op not_in_op v x hl hr differ ml mr = differ refl
  exclusion_excludes _ _ v x hl hr differ ml mr = ground arith

  equals_exclude :
      (l r : RuleOperator) (v w x : V)
      → is_equal l ≡ true
      → is_equal r ≡ true
      → v ≢ w
      → matches p x l v ≡ some true
      → matches p x r w ≡ some true
      → ⊥
  unfolding matches
  equals_exclude eq_op eq_op v w x hl hr differ ml mr =
      ground (arith, e.equals_iff x v, e.equals_iff x w)
  equals_exclude _ _ v w x hl hr differ ml mr = ground arith

  equals_agree :
      IsPython p
      → (l r : RuleOperator) (v w x : V) (i j : Interval N) → is_equal l ≡ true
      → is_equal r ≡ true
      → interval p l v ≡ some i
      → interval p r w ≡ some j
      → matches p x l v ≡ some true
      → matches p x r w ≡ some true
      → is_empty p i j ≡ false
  unfolding matches
  equals_agree law eq_op eq_op v w x i j hl hr li rj ml mr =
      let same : w ≡ v = ground (arith, e.equals_iff x v, e.equals_iff x w) in
      let one : j ≡ i = some_inj (sym rj ∙ ap (interval p eq_op) same ∙ li) in
      rw one (equals_meet p law v i li)
  equals_agree law _ _ v w x i j hl hr li rj ml mr = absurd (ground arith)

  -- What an exclusion is.
  exclusion_parts :
      (l r : BusinessRule V)
      → is_exclusion p l r ≡ true
      → (is_membership l.operator ≡ true)
        × (is_membership r.operator ≡ true)
        × (l.value ≡ r.value)
        × ((l.operator == r.operator) ≡ false)
  unfolding is_exclusion
  exclusion_parts l r h = ground (arith, e.equals_iff l.value r.value)

  ranges_exclude :
      IsPython p
      → (l r : BusinessRule V) (i j : Interval N) (x : V) → IsNumeric l
      → IsNumeric r
      → IsExact p l.value
      → IsExact p r.value
      → is_mixed l r ≡ false
      → is_range l.operator ≡ true
      → is_range r.operator ≡ true
      → interval p l.operator l.value ≡ some i
      → interval p r.operator r.value ≡ some j
      → matches p x l.operator l.value ≡ some true
      → matches p x r.operator r.value ≡ some true
      → is_empty p i j ≡ false
  ranges_exclude law l r i j x nl nr exact_l exact_r pure hl hr li rj ml mr =
      elim (Bool-cases (is_equal l.operator)) [
        | inl le ↦ elim (Bool-cases (is_equal r.operator)) [
          | inl re ↦ equals_agree law l.operator r.operator l.value r.value x i j le re li rj ml mr
          | inr rn ↦
              (equal_order p law l.operator r.operator l.value r.value x i j le rn hr (ground arith)
                (nr (ground arith)) exact_l exact_r li rj ml mr).0
        ]
        | inr ln ↦ elim (Bool-cases (is_equal r.operator)) [
          | inl re ↦
              (equal_order p law r.operator l.operator r.value l.value x j i re ln hl (ground arith)
                (nl (ground arith)) exact_r exact_l rj li mr ml).1
          | inr rn ↦
              orders_meet_at p law l.operator r.operator l.value r.value x i j ln rn hl hr
                (nl (ground arith)) (nr (ground arith)) exact_l exact_r li rj ml mr
        ]
      ]

  -- Where values compare as in Python: if two rules of one field are reported to clash, directly or
  -- as official against user, then a value that matches the first does not match the second, if
  -- the orders among the two are with numbers, `float` is exact on what numbers the two have, and
  -- neither is a strict order beside an equality.
  pub detect_pair-clash :
      IsPython p
      → (id : String) (l r : BusinessRule V) (cs : List RuleConflict)
      → detect_pair p id l r ≡ some cs
      → clashes cs ≡ true
      → IsNumeric l
      → IsNumeric r
      → IsExact p l.value
      → IsExact p r.value
      → is_mixed l r ≡ false
      → (x : V) → matches p x l.operator l.value ≡ some true
      → matches p x r.operator r.value ≢ some true
  detect_pair-clash law id l r cs h clash nl nr exact_l exact_r pure x ml mr =
      elim (pair_cases id l r cs h clash) [
        | inl excluded ↦
            let (hl, hr, same, differ) = exclusion_parts l r excluded in
            exclusion_excludes l.operator r.operator l.value x hl hr
              (λ alike.
                ground (arith, differ, (operator_eq.equals_iff l.operator r.operator).1 alike))
              ml (subst (λ v. matches p x r.operator v ≡ some true) (sym same) mr)
        | inr (inl (hl, hr, differ)) ↦
            equals_exclude l.operator r.operator l.value r.value x hl hr differ ml mr
        | inr (inr (hl, hr, ranges)) ↦
            let (i, j, li, rj, empty) = range_cases id l r cs ranges clash in
            let meet = ranges_exclude law l r i j x nl nr exact_l exact_r pure hl hr li rj ml mr in
            ground (arith, empty, meet)
      ]
