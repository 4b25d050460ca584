-- ===== src/Evidence/Budget/Tests.antt =====
-- A budget of three calls, two for each enterprise.
use enterprise_sales_intelli.Prelude.{String, List, [], ◌∷◌, ◌≡◌, refl, arith, string_eq}
use enterprise_sales_intelli.Prelude.Dict.{lookup, insert}
use enterprise_sales_intelli.Prelude.Sort.{contains}
use enterprise_sales_intelli.Evidence.Budget.{VerificationBudgetGuard, reserve, start_round, enrich}
use enterprise_sales_intelli.Evidence.Budget.Limits.{
  IsWithin, Use, round_started, enriched, used, used-IsWithin,
}

program : Unit {0}
unfolding lookup insert contains reserve start_round enrich used
program = tt

abbrev fresh : VerificationBudgetGuard
fresh = record {
  budget = record {
    max_extra_tool_calls = 3;
    max_calls_per_entity = 2;
    max_web_pages = 1;
    max_candidates = 10;
    max_runtime_seconds = 300;
    max_rounds = 1;
  };
  used_calls = 0;
  used_pages = 0;
  rounds = 0;
  entity_calls = [];
  started_at = 100;
}

abbrev asked : List String
asked = "address" ∷ "website" ∷ "industry" ∷ []

abbrev uses : List (Use String)
uses =
    round_started
    ∷ enriched (λ x. x) "e1" asked asked 101 ("found" ∷ [])
    ∷ enriched (λ x. x) "e2" asked asked 102 ("found" ∷ [])
    ∷ []

first_alone : (used uses fresh).used_calls ≡ 2
unfolding program
first_alone = refl

fresh-IsWithin : IsWithin fresh
unfolding lookup
fresh-IsWithin = record {
  calls = omega arith;
  pages = omega arith;
  rounds = omega arith;
  entities = λ id. omega arith;
}

used-IsWithin_example : IsWithin (used uses fresh)
used-IsWithin_example = used-IsWithin uses fresh fresh-IsWithin
