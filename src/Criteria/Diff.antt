-- ===== src/Criteria/Diff.antt =====
-- app/criteria/diff.py. `repr` is Python's `repr` of a value.
pub mod Fields
use enterprise_sales_intelli.Prelude.{
  ℕ, String, Bool, true, false, not, ◌&&◌, List, [], ◌∷◌, ◌++◌, map, keep, all, eqb, ◌==◌,
  string_eq, pair_eq, list_eq, if◌then◌else◌,
}
use enterprise_sales_intelli.Prelude.Sort.{sort, distinct, contains, text_leq}
use enterprise_sales_intelli.Rules.Models.{RuleOperator, operator_value}
use enterprise_sales_intelli.Criteria.Models.{
  CompiledConstraint, RankingPreference, LeadCriteria, Changed, CriteriaDiff,
}

abbrev pub Key : Type 0
Key = String × (String × String)

abbrev pub key_within : List Key → Key → Bool
key_within ks k = contains k ks

-- `{…} == {…}` for two sets of keys.
unfoldable pub same_keys : List Key → List Key → Bool
same_keys ks js = all (key_within js) ks && all (key_within ks) js

abbrev pub has_items {ℓ} : {A : Type ℓ} → List A → Bool
has_items [] = false
has_items (x ∷ xs) = true

-- The lists that `_split_changes` returns.
pub record Split (C : Type 0) : Type 0 where
  pub added : List C
  pub removed : List C
  pub changed : List (Changed C)

-- The items are read through their field and `_key`.
module _ {C : Type 0} (field_of : C → String) (key_of : C → Key) where
  abbrev pub group : String → List C → List C
  group field items = keep (λ x. field_of x == field) items

  -- The body of the loop for one field, on what it did for the fields behind it.
  unfoldable pub split_field : String → List C → List C → Split C → Split C
  split_field field old_items new_items rest =
      let old_group = group field old_items in
      let new_group = group field new_items in
      if has_items old_group
        && has_items new_group
        && not (same_keys (map key_of old_group) (map key_of new_group))
      then record rest {
        changed = record { field = field; before = old_group; after = new_group } ∷ rest.changed;
      }
      else if not (has_items old_group)
      then record rest { added = new_group ++ rest.added }
      else if not (has_items new_group)
      then record rest { removed = old_group ++ rest.removed }
      else rest

  unfoldable pub split_fields : List String → List C → List C → Split C
  split_fields [] old_items new_items = record { added = []; removed = []; changed = [] }
  split_fields (field ∷ fields) old_items new_items =
      split_field field old_items new_items (split_fields fields old_items new_items)

  -- `sorted(set(old_by_field) | set(new_by_field))`
  unfoldable pub all_fields : List C → List C → List String
  all_fields old_items new_items =
      sort text_leq (distinct (map field_of old_items ++ map field_of new_items))

  unfoldable pub split_changes : List C → List C → Split C
  split_changes old_items new_items =
      split_fields (all_fields old_items new_items) old_items new_items

module _ {V : Type 0} (repr : V → String) where
  -- `_key`
  abbrev pub constraint_key : CompiledConstraint V → Key
  constraint_key c = (c.field, (operator_value c.operator, repr c.value))

  abbrev pub preference_key : RankingPreference V → Key
  preference_key q = (q.field, (operator_value q.operator, repr q.value))

  unfoldable pub diff_criteria : LeadCriteria V → LeadCriteria V → CriteriaDiff V
  diff_criteria old_one new_one =
      let hard =
        split_changes (λ (c : CompiledConstraint V). c.field) constraint_key
          old_one.hard_constraints new_one.hard_constraints in
      let soft =
        split_changes (λ (q : RankingPreference V). q.field) preference_key
          old_one.ranking_preferences new_one.ranking_preferences in
      record {
        added_hard = hard.added;
        removed_hard = hard.removed;
        changed_hard = hard.changed;
        added_soft = soft.added;
        removed_soft = soft.removed;
        changed_soft = soft.changed;
        business_changed = not (old_one.business_code == new_one.business_code);
        region_changed = not (old_one.region_scope == new_one.region_scope);
        target_count_changed = not (eqb old_one.target_count new_one.target_count);
      }
