-- ===== src/Mutation/Planner.antt =====
-- app/mutation/planner.py: the steps of the re-execution, and which artifacts it keeps.
pub mod Artifacts
use enterprise_sales_intelli.Prelude.{
  ℕ, String, Bool, true, false, not, ◌&&◌, Option, none, some, List, [], ◌∷◌, keep, get_or,
  string_eq, ◌==◌, if◌then◌else◌,
}
use enterprise_sales_intelli.Prelude.Sort.{contains, sort, distinct, text_leq}
use enterprise_sales_intelli.Mutation.Models.{
  MutationScope, no_effect, display_only, rank_only, filter_only, enrichment_required,
  discovery_required, full_replan, ReuseDecision, reuse, rebuild, extend, reverify, TaskDiff,
  CriteriaDiff, ArtifactReuseContext,
}
use enterprise_sales_intelli.Mutation.Invalidation.{classify_invalidation}

-- `_PATHS`: the first stage and the steps of each scope.
unfoldable pub path : MutationScope → String × List String
path no_effect = ("COMPOSE", "reuse_current_snapshot" ∷ "compose_lead_response" ∷ [])
path display_only = ("PROJECTION", "select_existing_leads" ∷ "compose_lead_response" ∷ [])
path rank_only =
    ("SCORING", "reuse_verified_profiles" ∷ "score_leads" ∷ "compose_lead_response" ∷ [])
path filter_only = (
  "FILTER",
  "select_reusable_candidate_pool" ∷ "filter_existing" ∷ "plan_verification_reuse"
      ∷ "verify_new_or_affected" ∷ "score_leads" ∷ "compose_lead_response" ∷ [],
)
path enrichment_required = (
  "ENRICHMENT",
  "select_reusable_entities" ∷ "targeted_enrichment" ∷ "verify_affected" ∷ "score_leads"
      ∷ "compose_lead_response" ∷ [],
)
path discovery_required = (
  "DISCOVERY",
  "reuse_business_planning" ∷ "research" ∷ "verification" ∷ "score_leads" ∷ "compose_lead_response"
      ∷ [],
)
path full_replan = (
  "BUSINESS_PLANNING",
  "business_planning" ∷ "research" ∷ "verification" ∷ "score_leads" ∷ "compose_lead_response" ∷ [],
)

-- The keys of the dictionary of decisions.
pub data Artifact : Type 0 where
  criteria search_plan raw_candidates filtered_candidates researched_candidates verified scores :
      Artifact

-- `_decisions`
unfoldable pub decisions : MutationScope → Artifact → ReuseDecision
decisions no_effect k = reuse
decisions display_only k = reuse
decisions rank_only criteria = rebuild
decisions rank_only scores = rebuild
decisions rank_only _ = reuse
decisions filter_only criteria = rebuild
decisions filter_only filtered_candidates = rebuild
decisions filter_only verified = reverify
decisions filter_only scores = rebuild
decisions filter_only _ = reuse
decisions enrichment_required criteria = rebuild
decisions enrichment_required researched_candidates = extend
decisions enrichment_required verified = reverify
decisions enrichment_required scores = rebuild
decisions enrichment_required _ = reuse
decisions discovery_required k = rebuild
decisions full_replan k = rebuild

abbrev pub is_rebuild : ReuseDecision → Bool
is_rebuild rebuild = true
is_rebuild _ = false

-- The artifact identifiers of the context, under their keys.
unfoldable pub artifacts : ArtifactReuseContext → List (Artifact × Option String)
artifacts r =
    (criteria, r.criteria_snapshot_id)
    ∷ (search_plan, r.search_plan_id)
    ∷ (raw_candidates, r.raw_candidate_set_id)
    ∷ (filtered_candidates, r.filtered_candidate_set_id)
    ∷ (researched_candidates, r.researched_candidate_set_id)
    ∷ (verified, r.verified_lead_set_id)
    ∷ (scores, r.lead_score_set_id)
    ∷ []

-- `[item for item in artifacts if item]`: neither None nor the empty text.
unfoldable pub present : List (Artifact × Option String) → List String
present [] = []
present ((k, none) ∷ rest) = present rest
present ((k, some id) ∷ rest) =
    let others = present rest in if id == "" then others else id ∷ others

unfoldable pub invalidated : MutationScope → List (Artifact × Option String) → List String
invalidated scope [] = []
invalidated scope ((k, none) ∷ rest) = invalidated scope rest
invalidated scope ((k, some id) ∷ rest) =
    let others = invalidated scope rest in
    if not (id == "") && is_rebuild (decisions scope k) then id ∷ others else others

pub data ReexecutionPlanStatus : Type 0 where
  planned running completed partial failed superseded : ReexecutionPlanStatus

pub record ReexecutionPlan : Type 0 where
  pub plan_id : String
  pub task_id : String
  pub base_version : ℕ
  pub next_version : ℕ
  pub original_scope : MutationScope
  pub final_scope : MutationScope
  pub start_stage : String
  pub steps : List String
  pub reused_artifact_ids : List String
  pub invalidated_artifact_ids : List String
  pub required_fields : List String
  pub reason_codes : List String
  pub reuse_decisions : Artifact → ReuseDecision
  pub estimated_external_calls : Option ℕ
  pub status : ReexecutionPlanStatus
  pub escalation_reason : Option String
  pub created_at : ℕ
  pub started_at : Option ℕ
  pub finished_at : Option ℕ

-- `0 if scope in {NONE, DISPLAY_ONLY, RANK_ONLY, FILTER_ONLY} else None`
unfoldable pub external_calls : MutationScope → Option ℕ
external_calls no_effect = some 0
external_calls display_only = some 0
external_calls rank_only = some 0
external_calls filter_only = some 0
external_calls _ = none

-- `TaskMutationPlanner.plan`; the identifier and the time of the plan are the last arguments.
unfoldable pub plan :
    {V : Type 0}
    → TaskDiff
    → CriteriaDiff V
    → ArtifactReuseContext
    → ℕ
    → ℕ
    → Option ℕ
    → Option ℕ
    → Option (List String)
    → String
    → ℕ
    → ReexecutionPlan
plan task diff r base next before after required plan_id now =
    let (scope, reasons) = classify_invalidation task diff r before after required in
    let dropped = invalidated scope (artifacts r) in
    record {
      plan_id = plan_id;
      task_id = r.task_id;
      base_version = base;
      next_version = next;
      original_scope = scope;
      final_scope = scope;
      start_stage = (path scope).0;
      steps = (path scope).1;
      reused_artifact_ids = keep (λ id. not (contains id dropped)) (present (artifacts r));
      invalidated_artifact_ids = dropped;
      required_fields = sort text_leq (distinct (get_or required []));
      reason_codes = reasons;
      reuse_decisions = decisions scope;
      estimated_external_calls = external_calls scope;
      status = planned;
      escalation_reason = none;
      created_at = now;
      started_at = none;
      finished_at = none;
    }
