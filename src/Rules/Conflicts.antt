-- ===== src/Rules/Conflicts.antt =====
-- app/rules/conflicts.py: `RuleConflictService.detect`. Nothing is returned where the source
-- raises. `new_id n` is the identifier that a conflict of the n-th pair of rules gets.
pub mod Ranges
pub mod Soundness
pub mod Strictness
pub mod Resolution
use enterprise_sales_intelli.Prelude.{
  ℕ, suc, ◌+◌, String, Bool, true, false, not, ◌&&◌, ◌||◌, Option, none, some, List, [], ◌∷◌, ◌++◌,
  map, ◌==◌, string_eq, option_eq, if◌then◌else◌, get_or, is_some,
}
use enterprise_sales_intelli.Prelude.Keys.{Eq}
use enterprise_sales_intelli.Rules.Models.{
  RuleOperator, eq_op, gt_op, gte_op, lt_op, lte_op, in_op, not_in_op, operator_eq, BusinessRule,
  RuleConflict, RuleConflictType, duplicate, narrower, direct_conflict, official_user_conflict,
  soft_conflict, is_hard, is_soft, is_official, is_user,
}
use enterprise_sales_intelli.Rules.Values.{Values}

-- The two ends of a range of numbers, and whether they belong to it.
pub record Interval (N : Type 0) : Type 0 where
  pub lower : Option N
  pub lower_inc : Bool
  pub upper : Option N
  pub upper_inc : Bool

abbrev pub is_lower : RuleOperator → Bool
is_lower gt_op = true
is_lower gte_op = true
is_lower _ = false

abbrev pub is_upper : RuleOperator → Bool
is_upper lt_op = true
is_upper lte_op = true
is_upper _ = false

abbrev pub is_equal : RuleOperator → Bool
is_equal eq_op = true
is_equal _ = false

-- `operator in {GT, GTE, LT, LTE, EQ}` and `operator in {IN, NOT_IN}`
abbrev pub is_range : RuleOperator → Bool
is_range o = is_lower o || is_upper o || is_equal o

abbrev pub is_membership : RuleOperator → Bool
is_membership in_op = true
is_membership not_in_op = true
is_membership _ = false

-- `itertools.combinations(rules, 2)`
unfoldable pub pairs {ℓ} : {A : Type ℓ} → List A → List (A × A)
pairs [] = []
pairs (x ∷ xs) = map (λ y. (x, y)) xs ++ pairs xs

module _ {V N : Type 0} ⦃e : Eq V⦄ (p : Values V N) where
  -- `_interval`
  unfoldable pub interval : RuleOperator → V → Option (Interval N)
  interval gt_op value = elim (p.as_float value) [
    | none ↦ none
    | some n ↦ some (record { lower = some n; lower_inc = false; upper = none; upper_inc = true })
  ]
  interval gte_op value = elim (p.as_float value) [
    | none ↦ none
    | some n ↦ some (record { lower = some n; lower_inc = true; upper = none; upper_inc = true })
  ]
  interval lt_op value = elim (p.as_float value) [
    | none ↦ none
    | some n ↦ some (record { lower = none; lower_inc = true; upper = some n; upper_inc = false })
  ]
  interval lte_op value = elim (p.as_float value) [
    | none ↦ none
    | some n ↦ some (record { lower = none; lower_inc = true; upper = some n; upper_inc = true })
  ]
  interval eq_op value = elim (p.number value) [
    | none ↦ some (record { lower = none; lower_inc = true; upper = none; upper_inc = true })
    | some k ↦ elim (p.as_float value) [
      | none ↦ none
      | some n ↦
          some (record { lower = some n; lower_inc = true; upper = some n; upper_inc = true })
    ]
  ]
  interval _ value =
      some (record { lower = none; lower_inc = true; upper = none; upper_inc = true })

  -- `max(x for x in (l1, l2) if x is not None)`, and the same with `min`.
  unfoldable pub higher : Option N → Option N → Option N
  higher none b = b
  higher (some m) none = some m
  higher (some m) (some n) = some (if p.leq n m then m else n)

  unfoldable pub smaller : Option N → Option N → Option N
  smaller none b = b
  smaller (some m) none = some m
  smaller (some m) (some n) = some (if p.leq m n then m else n)

  -- Whether the two ranges have nothing in common.
  unfoldable pub is_empty : Interval N → Interval N → Bool
  is_empty i j = elim (higher i.lower j.lower) [
    | none ↦ false
    | some low ↦ elim (smaller i.upper j.upper) [
      | none ↦ false
      | some high ↦
          not (p.leq low high)
          || p.leq high low && not (i.lower_inc && j.lower_inc && i.upper_inc && j.upper_inc)
    ]
  ]

  -- `{left.source_type, right.source_type} == {OFFICIAL_REQUIREMENT, USER_REQUIREMENT}`
  unfoldable pub official_user : BusinessRule V → BusinessRule V → Bool
  official_user left right =
      is_official left.source_type && is_user right.source_type
      || is_user left.source_type && is_official right.source_type

  unfoldable pub is_blocking : BusinessRule V → BusinessRule V → Bool
  is_blocking left right = is_hard left.constraint_type && is_hard right.constraint_type

  unfoldable pub clash_type : BusinessRule V → BusinessRule V → RuleConflictType
  unfolding official_user is_blocking
  clash_type left right =
      if is_blocking left right && official_user left right
      then official_user_conflict
      else direct_conflict

  abbrev pub report :
      String → RuleConflictType → Bool → String → BusinessRule V → BusinessRule V → RuleConflict
  report id kind blocking why left right = record {
    conflict_id = id;
    conflict_type = kind;
    rule_ids = left.rule_id ∷ right.rule_id ∷ [];
    field = left.field;
    blocking = blocking;
    explanation = why;
  }

  abbrev pub clash : String → String → BusinessRule V → BusinessRule V → RuleConflict
  clash id why left right =
      report id (clash_type left right) (is_blocking left right) why left right

  -- `left.source_key and left.source_key == right.source_key or …`, for rules on one field.
  unfoldable pub is_duplicate : BusinessRule V → BusinessRule V → Bool
  is_duplicate left right =
      not (get_or left.source_key "" == "") && left.source_key == right.source_key
      || left.operator == right.operator && left.value == right.value

  -- `{left.operator, right.operator} <= {IN, NOT_IN}` on one value, with two operators.
  unfoldable pub is_exclusion : BusinessRule V → BusinessRule V → Bool
  is_exclusion left right =
      is_membership left.operator
      && is_membership right.operator
      && left.value == right.value
      && not (left.operator == right.operator)

  -- The branch for two ranges.
  unfoldable pub detect_range :
      String → BusinessRule V → BusinessRule V → Option (List RuleConflict)
  detect_range id left right = elim (interval left.operator left.value) [
    | none ↦ none
    | some i ↦ elim (interval right.operator right.value) [
      | none ↦ none
      | some j ↦
          if is_empty i j
          then some (clash id "数值范围没有交集" left right ∷ [])
          else if is_hard left.constraint_type && is_hard right.constraint_type
          then some (report id narrower false "条件兼容，较严格条件取交集" left right ∷ [])
          else some []
    ]
  ]

  -- The body of the loop: the conflicts that it appends.
  unfoldable pub detect_pair : String → BusinessRule V → BusinessRule V → Option (List RuleConflict)
  detect_pair id left right =
      if not (left.field == right.field)
      then some []
      else if is_duplicate left right
      then some (report id duplicate false "重复规则" left right ∷ [])
      else if is_exclusion left right
      then some (clash id "Include 与 Exclude 条件互斥" left right ∷ [])
      else if is_equal left.operator && is_equal right.operator && not (left.value == right.value)
      then some (clash id "同一字段要求不同且不可同时满足" left right ∷ [])
      else if is_range left.operator && is_range right.operator
      then detect_range id left right
      else if is_soft left.constraint_type
          && is_soft right.constraint_type
          && not (left.value == right.value)
      then some (report id soft_conflict false "软偏好存在竞争" left right ∷ [])
      else some []

  unfoldable pub detect_all :
      (ℕ → String) → ℕ → List (BusinessRule V × BusinessRule V) → Option (List RuleConflict)
  detect_all new_id n [] = some []
  detect_all new_id n ((left, right) ∷ rest) = elim (detect_pair (new_id n) left right) [
    | none ↦ none
    | some first ↦ elim (detect_all new_id (n + 1) rest) [
      | none ↦ none
      | some others ↦ some (first ++ others)
    ]
  ]

  unfoldable pub detect : (ℕ → String) → List (BusinessRule V) → Option (List RuleConflict)
  detect new_id rules = detect_all new_id 0 (pairs rules)
