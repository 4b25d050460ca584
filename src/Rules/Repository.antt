-- ===== src/Rules/Repository.antt =====
-- app/rules/service.py: `InMemoryRuleRepository`. `C` and `E` are the types of conflicts with
-- their identifiers and of evidence chunks, which it only stores.
pub mod Keyed
use enterprise_sales_intelli.Prelude.{
  ℕ, String, Bool, true, false, not, ◌&&◌, ◌||◌, Option, none, some, List, [], ◌∷◌, keep, map, leb,
  eqb, get_or, ◌==◌, string_eq, option_eq, if◌then◌else◌,
}
use enterprise_sales_intelli.Prelude.Dict.{Dict, lookup, insert, values}
use enterprise_sales_intelli.Rules.Models.{BusinessRule, RuleConflict, is_active}
use enterprise_sales_intelli.Rules.Registry.{normalize_business_code}
use enterprise_sales_intelli.Criteria.Models.{LeadCriteria}

pub record RuleRepository (V E : Type 0) : Type 0 where
  pub rules : Dict String (BusinessRule V)
  pub marketing_rules : Dict String (BusinessRule V)
  pub criteria : Dict String (LeadCriteria V)
  pub evidence : Dict String E
  pub conflicts : Dict String RuleConflict

-- `next((x for x in xs if p(x)), None)`
unfoldable pub first_of {ℓ} : {A : Type ℓ} → (A → Bool) → List A → Option A
first_of p [] = none
first_of p (x ∷ xs) = let rest = first_of p xs in if p x then some x else rest

-- `[table[item] for item in ids if item in table]`
unfoldable pub get_all {ℓ} : {A : Type ℓ} → List String → Dict String A → List A
get_all [] table = []
get_all (id ∷ ids) table =
    let rest = get_all ids table in elim (lookup id table) [ none ↦ rest | some x ↦ x ∷ rest ]

-- `for x in xs: table[x.id] = x`
unfoldable pub insert_all {ℓ} : {A : Type ℓ} → (A → String) → List A → Dict String A → Dict String A
insert_all id_of [] table = table
insert_all id_of (x ∷ xs) table = insert_all id_of xs (insert (id_of x) x table)

-- A date that is no date, or at the right side of a day.
abbrev pub from_by : Option ℕ → ℕ → Bool
from_by none today = true
from_by (some day) today = leb day today

abbrev pub lasts_to : Option ℕ → ℕ → Bool
lasts_to none today = true
lasts_to (some day) today = leb today day

-- `not r.region or not region or r.region == region`
abbrev pub in_region : Option String → Option String → Bool
in_region here there = get_or here "" == "" || get_or there "" == "" || here == there

module _ {V E : Type 0} where
  unfoldable pub upsert : BusinessRule V → RuleRepository V E → BusinessRule V × RuleRepository V E
  upsert rule s =
      let stored = record s { rules = insert rule.rule_id rule s.rules } in
      if get_or rule.source_key "" == ""
      then (rule, stored)
      else elim (first_of (λ (r : BusinessRule V). r.source_key == rule.source_key)
          (values s.rules)) [ some existing ↦ (existing, s) | none ↦ (rule, stored) ]

  unfoldable pub list_marketing :
      String → Option String → ℕ → RuleRepository V E → List (BusinessRule V)
  list_marketing business region today s =
      keep
        (λ (r : BusinessRule V).
          r.business_code == normalize_business_code business
          && is_active r.status
          && in_region r.region region
          && from_by r.effective_from today
          && lasts_to r.effective_to today)
        (values s.marketing_rules)

  unfoldable pub save_marketing :
      BusinessRule V → RuleRepository V E → BusinessRule V × RuleRepository V E
  save_marketing rule s =
      let (saved, s') = upsert rule s in
      (saved, record s' { marketing_rules = insert saved.rule_id saved s'.marketing_rules })

  unfoldable pub save_evidence :
      (E → String) → List E → RuleRepository V E → List String × RuleRepository V E
  save_evidence chunk_id chunks s =
      (map chunk_id chunks, record s { evidence = insert_all chunk_id chunks s.evidence })

  unfoldable pub get_evidence : List String → RuleRepository V E → List E
  get_evidence ids s = get_all ids s.evidence

  unfoldable pub get_rules : List String → RuleRepository V E → List (BusinessRule V)
  get_rules ids s = get_all ids s.rules

  unfoldable pub save_conflicts :
      List RuleConflict → RuleRepository V E → List String × RuleRepository V E
  save_conflicts cs s = (
    map (λ (c : RuleConflict). c.conflict_id) cs,
    record s { conflicts = insert_all (λ (c : RuleConflict). c.conflict_id) cs s.conflicts },
  )

  unfoldable pub get_conflicts : List String → RuleRepository V E → List RuleConflict
  get_conflicts ids s = get_all ids s.conflicts

  -- Criteria of one task version with one hash are stored once.
  unfoldable pub save_criteria :
      LeadCriteria V → RuleRepository V E → LeadCriteria V × RuleRepository V E
  save_criteria criteria s =
      elim (first_of
        (λ (c : LeadCriteria V).
          c.criteria_hash == criteria.criteria_hash
          && c.task_id == criteria.task_id
          && eqb c.task_version criteria.task_version)
        (values s.criteria)) [
          | some existing ↦ (existing, s)
          | none ↦
              (criteria, record s { criteria = insert criteria.criteria_id criteria s.criteria })
        ]
