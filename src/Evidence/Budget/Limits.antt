-- ===== src/Evidence/Budget/Limits.antt =====
-- The verification stays within its budget.
use enterprise_sales_intelli.Prelude.{
  ℕ, ◌+◌, ◌≤◌, min, String, List, [], ◌∷◌, length, inl, inr, arith, string_eq, Bool-cases,
}
use enterprise_sales_intelli.Prelude.Dict.{lookup-insert}
use enterprise_sales_intelli.Evidence.Budget.{
  VerificationBudgetGuard, calls_of, reserve, start_round, requested, estimated_pages, is_none,
  enrich,
}

pub record IsWithin (g : VerificationBudgetGuard) : Type 0 where
  pub calls : g.used_calls ≤ g.budget.max_extra_tool_calls
  pub pages : g.used_pages ≤ g.budget.max_web_pages
  pub rounds : g.rounds ≤ g.budget.max_rounds
  pub entities : (id : String) → calls_of id g ≤ g.budget.max_calls_per_entity

module _ (g : VerificationBudgetGuard) (within : IsWithin g) where
  reserve_calls-IsWithin :
      (id : String) (calls pages now : ℕ) → IsWithin (reserve id calls pages now g).1
  unfolding reserve
  reserve_calls-IsWithin id calls pages now = record {
    calls = ground (arith, within.calls);
    pages = ground (arith, within.pages);
    rounds = ground (arith, within.rounds);
    entities = λ other. ground (
      arith,
      within.entities other,
      string_eq.equals_iff id other,
      lookup-insert other id (calls_of id g + calls) g.entity_calls,
    );
  }

  start_round-IsWithin : IsWithin (start_round g).1
  unfolding start_round
  start_round-IsWithin = record {
    calls = ground (arith, within.calls);
    pages = ground (arith, within.pages);
    rounds = ground (arith, within.rounds);
    entities = λ other. ground (arith, within.entities other);
  }

  enrich-IsWithin :
      {E : Type 0} (save : E → E) (id : String) (needed fields : List String) (now : ℕ)
      (found : List E)
      → IsWithin (enrich save id needed fields now found g).1
  unfolding enrich
  enrich-IsWithin save id needed fields now found =
      let wanted = requested needed fields in
      let calls = min (length wanted) g.budget.max_calls_per_entity in
      let r = reserve id calls (estimated_pages wanted) now g in
      let after_it = reserve_calls-IsWithin id calls (estimated_pages wanted) now in
      elim (Bool-cases (is_none wanted)) [
        | inl nothing ↦ rw (nothing, enrich) within
        | inr something ↦ elim (Bool-cases r.0) [
          | inl granted ↦ rw (something, granted, enrich) after_it
          | inr denied ↦ rw (something, denied, enrich) after_it
        ]
      ]

-- What a verification does with its guard.
pub data Use (E : Type 0) : Type 0 where
  round_started : Use E
  enriched : (E → E) → String → List String → List String → ℕ → List E → Use E

unfoldable pub used :
    {E : Type 0} → List (Use E) → VerificationBudgetGuard → VerificationBudgetGuard
used [] g = g
used (round_started ∷ us) g = used us (start_round g).1
used (enriched save id needed fields now found ∷ us) g =
    used us (enrich save id needed fields now found g).1

-- From a guard within its limits, after any rounds that are started and enrichments that are asked
-- for, at whatever times and whatever is found: the calls, the pages, the rounds and the calls for
-- each enterprise are within their limits.
pub used-IsWithin :
    {E : Type 0} (us : List (Use E)) (g : VerificationBudgetGuard)
    → IsWithin g
    → IsWithin (used us g)
unfolding used
used-IsWithin [] g within = within
used-IsWithin (round_started ∷ us) g within =
    used-IsWithin us (start_round g).1 (start_round-IsWithin g within)
used-IsWithin (enriched save id needed fields now found ∷ us) g within =
    used-IsWithin us (enrich save id needed fields now found g).1
      (enrich-IsWithin g within save id needed fields now found)
