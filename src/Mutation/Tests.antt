-- ===== src/Mutation/Tests.antt =====
-- A task whose candidates are known, and the theorems at changes of it.
use enterprise_sales_intelli.Prelude.{
  ℕ, String, ◌≡◌, ◌≢◌, ◌↔◌, refl, true, false, none, some, [], ◌∷◌, string_eq,
}
use enterprise_sales_intelli.Prelude.Dict.{lookup}
use enterprise_sales_intelli.Prelude.Sort.{contains, distinct, sort, insert_sorted}
use enterprise_sales_intelli.Rules.Models.{gte_op}
use enterprise_sales_intelli.Mutation.Models.{
  filter_only, display_only, rebuild, TaskDiff, CompiledConstraint, CriteriaDiff,
  ArtifactReuseContext,
}
use enterprise_sales_intelli.Mutation.Invalidation.{
  subset, overlaps, task_changed, criteria_changed, hard_fields, soft_fields, removed_fields,
  depends_on, is_enrichable, classify_required, classify_hard, classify_soft, classify_count,
  classify_shown, classify_rest, classify_criteria, classify_invalidation,
}
use enterprise_sales_intelli.Mutation.Invalidation.Safety.{
  IsCovered, classify_invalidation-IsCovered,
}
use enterprise_sales_intelli.Mutation.Planner.{
  Artifact, plan, path, decisions, artifacts, present, invalidated, external_calls,
}
use enterprise_sales_intelli.Mutation.Planner.Artifacts.{id_of, reaches_out, plan-splits}

abbrev unchanged : TaskDiff
unchanged = record {
  business_changed = false;
  region_changed = false;
  target_count_changed = false;
  required_fields_changed = false;
  export_fields_changed = false;
  constraint_fields_changed = [];
  hard_constraints_changed = false;
  soft_constraints_changed = false;
}

abbrev employees : CompiledConstraint ℕ
employees = record {
  field = "employee_count";
  operator = gte_op;
  value = 100;
  source_rule_ids = [];
  rationale = none;
}

abbrev no_diff : CriteriaDiff ℕ
no_diff = record {
  added_hard = [];
  removed_hard = [];
  changed_hard = [];
  added_soft = [];
  removed_soft = [];
  changed_soft = [];
  business_changed = false;
  region_changed = false;
  target_count_changed = false;
}

-- A hard filter on the number of employees is new.
abbrev filtered_diff : CriteriaDiff ℕ
filtered_diff = record no_diff { added_hard = employees ∷ [] }

abbrev filtered_task : TaskDiff
filtered_task = record unchanged {
  constraint_fields_changed = "employee_count" ∷ [];
  hard_constraints_changed = true;
}

abbrev context : ArtifactReuseContext
context = record {
  task_id = "task";
  task_version = 1;
  criteria_snapshot_id = some "criteria-1";
  search_plan_id = some "plan-1";
  raw_candidate_set_id = some "raw-1";
  raw_candidate_count = 40;
  filtered_candidate_set_id = some "filtered-1";
  filtered_candidate_count = 30;
  researched_candidate_set_id = none;
  researched_candidate_count = 0;
  verified_lead_set_id = some "verified-1";
  verified_lead_count = 20;
  lead_score_set_id = some "scores-1";
  scored_lead_count = 10;
  scoring_profile_id = none;
  available_candidate_fields = "employee_count" ∷ "industry" ∷ [];
  available_verified_fields = "website" ∷ [];
  discovery_pushdown_fields = "region" ∷ [];
  post_filter_fields = [];
  enrichment_fields = [];
  field_dependencies = [];
}

program : Unit {0}
unfolding plan classify_invalidation classify_criteria classify_required classify_hard classify_soft
    classify_rest classify_count classify_shown subset overlaps task_changed criteria_changed
    hard_fields soft_fields removed_fields depends_on is_enrichable contains lookup path decisions
    artifacts present invalidated external_calls reaches_out sort insert_sorted distinct
program = tt

filter_scope :
    (classify_invalidation filtered_task filtered_diff context none none none).0 ≡ filter_only
unfolding program
filter_scope = refl

-- The filtered candidates are dropped, the raw ones are kept.
filter_plan :
    let p = plan filtered_task filtered_diff context 1 2 none none none "p1" 7 in
    (p.invalidated_artifact_ids ≡ "criteria-1" ∷ "filtered-1" ∷ "scores-1" ∷ [])
    × (p.reused_artifact_ids ≡ "plan-1" ∷ "raw-1" ∷ "verified-1" ∷ [])
unfolding program
filter_plan = (refl, refl)

classify_invalidation-IsCovered_example :
    IsCovered filtered_task filtered_diff context
      (classify_invalidation filtered_task filtered_diff context none none none).0
classify_invalidation-IsCovered_example =
    classify_invalidation-IsCovered filtered_task filtered_diff context none none none refl

-- The same filter, with a website wanted besides: only the display is redone.
abbrev website_task : TaskDiff
website_task = record filtered_task { required_fields_changed = true }

website_hides :
    (classify_invalidation website_task filtered_diff context none none (some ("website" ∷ []))).0
    ≡ display_only
unfolding program
website_hides = refl

abbrev raw_id : String
raw_id = "raw-1"

plan-splits_example :
    let p = plan filtered_task filtered_diff context 1 2 none none none "p1" 7 in
    ((contains raw_id p.invalidated_artifact_ids ≡ true) ↔ (
      (raw_id ≢ "")
      × (k : Artifact) × (id_of context k ≡ some raw_id)
      × (p.reuse_decisions k ≡ rebuild)))
    × ((contains raw_id p.reused_artifact_ids ≡ true) ↔ (
        (raw_id ≢ "")
        × ((k : Artifact) × (id_of context k ≡ some raw_id))
        × ((k : Artifact) → id_of context k ≡ some raw_id → p.reuse_decisions k ≢ rebuild)))
plan-splits_example =
    plan-splits filtered_task filtered_diff context 1 2 none none none "p1" 7 raw_id

abbrev moved_task : TaskDiff
moved_task = record unchanged { region_changed = true }
