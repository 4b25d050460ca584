-- ===== src/Evidence/Budget.antt =====
-- app/evidence/targeted.py: `VerificationBudgetGuard`, and the reservation of
-- `TargetedVerificationService.enrich`. Times are whole seconds, and what the provider finds is an
-- argument.
pub mod Limits
mod Tests
use enterprise_sales_intelli.Prelude.{
  ℕ, ◌+◌, ◌-◌, min, String, Bool, true, false, not, ◌||◌, List, [], ◌∷◌, keep, map, length, leb,
  ltb, get_or, if◌then◌else◌, string_eq,
}
use enterprise_sales_intelli.Prelude.Dict.{Dict, lookup, insert}
use enterprise_sales_intelli.Prelude.Sort.{contains}

pub record VerificationBudget : Type 0 where
  pub max_extra_tool_calls : ℕ
  pub max_calls_per_entity : ℕ
  pub max_web_pages : ℕ
  pub max_candidates : ℕ
  pub max_runtime_seconds : ℕ
  pub max_rounds : ℕ

pub record VerificationBudgetGuard : Type 0 where
  pub budget : VerificationBudget
  pub used_calls : ℕ
  pub used_pages : ℕ
  pub rounds : ℕ
  pub entity_calls : Dict String ℕ
  pub started_at : ℕ

-- `entity_calls[enterprise_id]` of a `defaultdict(int)`
abbrev pub calls_of : String → VerificationBudgetGuard → ℕ
calls_of id g = get_or (lookup id g.entity_calls) 0

unfoldable pub reserve :
    String → ℕ → ℕ → ℕ → VerificationBudgetGuard → Bool × VerificationBudgetGuard
reserve id calls pages now g =
    if leb g.budget.max_runtime_seconds (now - g.started_at)
    then (false, g)
    else if ltb g.budget.max_extra_tool_calls (g.used_calls + calls)
    then (false, g)
    else if ltb g.budget.max_web_pages (g.used_pages + pages)
    then (false, g)
    else if ltb g.budget.max_calls_per_entity (calls_of id g + calls)
    then (false, g)
    else (
      true,
      record g {
        used_calls = g.used_calls + calls;
        used_pages = g.used_pages + pages;
        entity_calls = insert id (calls_of id g + calls) g.entity_calls;
      },
    )

unfoldable pub start_round : VerificationBudgetGuard → Bool × VerificationBudgetGuard
start_round g =
    if leb g.budget.max_rounds g.rounds
    then (false, g)
    else (true, record g { rounds = g.rounds + 1 })

-- The fields that are asked for, of those that the profile needs.
abbrev pub requested : List String → List String → List String
requested needed fields = keep (λ field. contains field needed) fields

-- `1 if set(requested) & {"website", "public_phone"} else 0`
abbrev pub estimated_pages : List String → ℕ
estimated_pages fields =
    if contains "website" fields || contains "public_phone" fields then 1 else 0

abbrev pub is_none {ℓ} : {A : Type ℓ} → List A → Bool
is_none [] = true
is_none (x ∷ xs) = false

-- `enrich`: what was found is saved by `save` when the budget grants the calls.
unfoldable pub enrich :
    {E : Type 0}
    → (E → E)
    → String
    → List String
    → List String
    → ℕ
    → List E
    → VerificationBudgetGuard
    → List E × VerificationBudgetGuard
enrich save id needed fields now found g =
    let wanted = requested needed fields in
    let calls = min (length wanted) g.budget.max_calls_per_entity in
    if is_none wanted
    then ([], g)
    else (let (granted, g') = reserve id calls (estimated_pages wanted) now g in
        if granted then (map save found, g') else ([], g'))
