-- ===== src/Rules/Conflicts/Resolution.antt =====
-- app/rules/conflicts.py: `RuleConflictService.resolve`. Nothing is returned where the source
-- raises.
pub mod Losers
pub mod Safety
use enterprise_sales_intelli.Prelude.{
  ℕ, String, Bool, true, false, not, ◌&&◌, ◌||◌, Option, none, some, List, [], ◌∷◌, ◌++◌, map, keep,
  all, any, leb, get_or, ◌==◌, string_eq, if◌then◌else◌, is_some,
}
use enterprise_sales_intelli.Prelude.Sort.{contains}
use enterprise_sales_intelli.Rules.Models.{
  BusinessRule, RuleConflict, RuleConflictType, duplicate, compatible, narrower, direct_conflict,
  official_user_conflict, soft_conflict, included, suppressed, is_soft, is_user,
}
use enterprise_sales_intelli.Rules.Values.{Values}
use enterprise_sales_intelli.Rules.Conflicts.{is_lower, is_upper}

module _ {V : Type 0} where
  -- `next(r for r in rules if r.rule_id == rid)`
  unfoldable pub find_rule : String → List (BusinessRule V) → Option (BusinessRule V)
  find_rule id [] = none
  find_rule id (r ∷ rs) = if r.rule_id == id then some r else find_rule id rs

  unfoldable pub find_rules : List String → List (BusinessRule V) → Option (List (BusinessRule V))
  find_rules [] rules = some []
  find_rules (id ∷ ids) rules = elim (find_rule id rules) [
    | none ↦ none
    | some r ↦ elim (find_rules ids rules) [ none ↦ none | some rs ↦ some (r ∷ rs) ]
  ]

  -- The order of the keys `(r.source_type == USER_REQUIREMENT, r.weight or 0)`.
  unfoldable pub weaker : BusinessRule V → BusinessRule V → Bool
  weaker l r =
      if is_user l.source_type
      then is_user r.source_type && leb (get_or l.weight 0) (get_or r.weight 0)
      else is_user r.source_type || leb (get_or l.weight 0) (get_or r.weight 0)

  -- `min(rules, key=…)`: the first of the least ones, after a first rule.
  unfoldable pub weakest : BusinessRule V → List (BusinessRule V) → BusinessRule V
  weakest r [] = r
  weakest r (s ∷ rs) = let best = weakest s rs in if weaker r best then r else best

  abbrev pub softs : List (BusinessRule V) → List (BusinessRule V)
  softs = keep (λ (r : BusinessRule V). is_soft r.constraint_type)

  -- What a direct conflict that does not block suppresses.
  unfoldable pub soft_loser : List (BusinessRule V) → List String
  soft_loser rules = elim (softs rules) [ [] ↦ [] | r ∷ rs ↦ (weakest r rs).rule_id ∷ [] ]

  abbrev pub kept : BusinessRule V → BusinessRule V
  kept r = record r { resolution_status = included }

  abbrev pub dropped : BusinessRule V → BusinessRule V
  dropped r = record r {
    resolution_status = suppressed;
    suppression_reason = some "SUPPRESSED_BY_USER_REQUIREMENT";
  }

  abbrev pub is_in : List String → BusinessRule V → Bool
  is_in ids r = contains r.rule_id ids

module _ {V N : Type 0} (p : Values V N) where
  -- Whether the loser of a narrower pair is found: it is the least or the greatest by
  -- `float(r.value)` where both are bounds of one side, and nothing is done with it.
  unfoldable pub narrower_ends : List (BusinessRule V) → Bool
  narrower_ends [] = false
  narrower_ends (r ∷ rs) =
      if all (λ (s : BusinessRule V). is_lower s.operator) (r ∷ rs)
        || all (λ (s : BusinessRule V). is_upper s.operator) (r ∷ rs)
      then all (λ (s : BusinessRule V). is_some (p.as_float s.value)) (r ∷ rs)
      else true

  -- The identifiers that a conflict adds to the suppressed ones.
  unfoldable pub losers : List (BusinessRule V) → RuleConflict → Option (List String)
  losers rules c = elim c.conflict_type [
    | duplicate ↦ some []
    | compatible ↦ some []
    | official_user_conflict ↦ some []
    | direct_conflict ↦ if c.blocking then some [] else elim (find_rules c.rule_ids rules) [
      | none ↦ none
      | some found ↦ some (soft_loser found)
    ]
    | soft_conflict ↦ elim (find_rules c.rule_ids rules) [
      | some (r ∷ rs) ↦ some ((weakest r rs).rule_id ∷ [])
      | _ ↦ none
    ]
    | narrower ↦ elim (find_rules c.rule_ids rules) [
      | none ↦ none
      | some found ↦ if narrower_ends found then some [] else none
    ]
  ]

  unfoldable pub all_losers : List (BusinessRule V) → List RuleConflict → Option (List String)
  all_losers rules [] = some []
  all_losers rules (c ∷ cs) = elim (losers rules c) [
    | none ↦ none
    | some ids ↦ elim (all_losers rules cs) [ none ↦ none | some others ↦ some (ids ++ others) ]
  ]

  unfoldable pub resolve :
      List (BusinessRule V)
      → List RuleConflict
      → Option (List (BusinessRule V) × List (BusinessRule V))
  resolve rules conflicts = elim (all_losers rules conflicts) [
    | none ↦ none
    | some ids ↦
        some (map kept (keep (λ r. not (is_in ids r)) rules), map dropped (keep (is_in ids) rules))
  ]
