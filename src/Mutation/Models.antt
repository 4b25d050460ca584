-- ===== src/Mutation/Models.antt =====
-- app/mutation/models.py and the scopes of app/agent/enums.py. Python's sets of field names are
-- lists, read only through membership.
use enterprise_sales_intelli.Prelude.{
  ℕ, String, Bool, true, false, Option, List, [], ◌∷◌, string_eq,
}
use enterprise_sales_intelli.Prelude.Dict.{Dict}
pub use enterprise_sales_intelli.Criteria.Models.{
  CompiledConstraint, RankingPreference, Changed, CriteriaDiff,
}

pub data MutationScope : Type 0 where
  no_effect display_only rank_only filter_only enrichment_required discovery_required full_replan :
      MutationScope

pub data ReuseDecision : Type 0 where
  reuse rebuild extend reverify : ReuseDecision

pub record TaskDiff : Type 0 where
  pub business_changed : Bool
  pub region_changed : Bool
  pub target_count_changed : Bool
  pub required_fields_changed : Bool
  pub export_fields_changed : Bool
  pub constraint_fields_changed : List String
  pub hard_constraints_changed : Bool
  pub soft_constraints_changed : Bool

pub record ArtifactReuseContext : Type 0 where
  pub task_id : String
  pub task_version : ℕ
  pub criteria_snapshot_id : Option String
  pub search_plan_id : Option String
  pub raw_candidate_set_id : Option String
  pub raw_candidate_count : ℕ
  pub filtered_candidate_set_id : Option String
  pub filtered_candidate_count : ℕ
  pub researched_candidate_set_id : Option String
  pub researched_candidate_count : ℕ
  pub verified_lead_set_id : Option String
  pub verified_lead_count : ℕ
  pub lead_score_set_id : Option String
  pub scored_lead_count : ℕ
  pub scoring_profile_id : Option String
  pub available_candidate_fields : List String
  pub available_verified_fields : List String
  pub discovery_pushdown_fields : List String
  pub post_filter_fields : List String
  pub enrichment_fields : List String
  pub field_dependencies : Dict String (List String)

-- A list is true in Python when it is not empty.
abbrev pub some_in {ℓ} : {A : Type ℓ} → List A → Bool
some_in [] = false
some_in (x ∷ xs) = true
