-- ===== src/Mutation/Invalidation.antt =====
-- app/mutation/invalidation.py: the smallest re-execution that a change of the task needs.
pub mod Safety
use enterprise_sales_intelli.Prelude.{
  ℕ, String, Bool, true, false, not, ◌&&◌, ◌||◌, Option, none, some, List, [], ◌∷◌, ◌++◌, map, any,
  all, keep, leb, ltb, max, if◌then◌else◌, get_or, string_eq,
}
use enterprise_sales_intelli.Prelude.Dict.{Dict, lookup}
use enterprise_sales_intelli.Prelude.Sort.{contains}
use enterprise_sales_intelli.Mutation.Models.{
  MutationScope, no_effect, display_only, rank_only, filter_only, enrichment_required,
  discovery_required, full_replan, TaskDiff, CompiledConstraint, RankingPreference, Changed,
  CriteriaDiff, ArtifactReuseContext, some_in,
}

-- `xs <= ys` on sets, and `xs & ys` as a test.
unfoldable pub subset : List String → List String → Bool
subset xs ys = all (λ x. contains x ys) xs

unfoldable pub overlaps : List String → List String → Bool
overlaps xs ys = any (λ x. contains x ys) xs

-- `any(task_diff.model_dump().values())`
unfoldable pub task_changed : TaskDiff → Bool
task_changed d =
    d.business_changed
    || d.region_changed
    || d.target_count_changed
    || d.required_fields_changed
    || d.export_fields_changed
    || some_in d.constraint_fields_changed
    || d.hard_constraints_changed
    || d.soft_constraints_changed

module _ {V : Type 0} where
  -- `any(criteria_diff.model_dump().values())`
  unfoldable pub criteria_changed : CriteriaDiff V → Bool
  criteria_changed d =
      some_in d.added_hard
      || some_in d.removed_hard
      || some_in d.changed_hard
      || some_in d.added_soft
      || some_in d.removed_soft
      || some_in d.changed_soft
      || d.business_changed
      || d.region_changed
      || d.target_count_changed

  abbrev pub hard_of : CompiledConstraint V → String
  hard_of c = c.field

  abbrev pub soft_of : RankingPreference V → String
  soft_of c = c.field

  -- `_criteria_fields(diff, "hard")` and `_criteria_fields(diff, "soft")`
  unfoldable pub hard_fields : CriteriaDiff V → List String
  hard_fields d =
      map hard_of d.added_hard ++ map hard_of d.removed_hard ++ map (λ c. c.field) d.changed_hard

  unfoldable pub soft_fields : CriteriaDiff V → List String
  soft_fields d =
      map soft_of d.added_soft ++ map soft_of d.removed_soft ++ map (λ c. c.field) d.changed_soft

  unfoldable pub removed_fields : CriteriaDiff V → List String
  removed_fields d =
      map hard_of d.removed_hard
      ++ map (λ c. c.field) (keep (λ c. some_in c.before && not (some_in c.after)) d.changed_hard)

-- `{field for field in fields if "DISCOVERY" in reuse.field_dependencies.get(field, [])}`
unfoldable pub depends_on : String → ArtifactReuseContext → String → Bool
depends_on stage r field = contains stage (get_or (lookup field r.field_dependencies) [])

-- The fields that enrichment can deliver.
unfoldable pub is_enrichable : ArtifactReuseContext → String → Bool
unfolding depends_on
is_enrichable r field = contains field r.enrichment_fields || depends_on "ENRICHMENT" r field

abbrev pub Verdict : Type 0
Verdict = MutationScope × List String

-- The branch for new required fields.
unfoldable pub classify_required : List String → ArtifactReuseContext → Verdict
classify_required requested r =
    if subset requested r.available_verified_fields
    then (display_only, "REQUIRED_FIELD_ALREADY_AVAILABLE" ∷ [])
    else (enrichment_required, "REQUIRED_FIELD_NEEDS_ENRICHMENT" ∷ [])

-- The branch for changed hard constraints; `removed` are the fields that lost theirs.
unfoldable pub classify_hard : List String → List String → ArtifactReuseContext → Verdict
classify_hard hard removed r =
    if any (depends_on "DISCOVERY" r) hard && not (subset hard r.available_candidate_fields)
    then (discovery_required, "DISCOVERY_UNIVERSE_CHANGED" ∷ [])
    else if subset hard r.available_candidate_fields
    then (
      filter_only,
      (if some_in removed
            then "HARD_FILTER_REMOVED_POST_FILTER_ONLY"
            else "HARD_FILTER_FIELD_AVAILABLE")
          ∷ [],
    )
    else if all (is_enrichable r) hard
    then (enrichment_required, "HARD_FILTER_FIELD_MISSING" ∷ [])
    else (discovery_required, "ARTIFACT_COVERAGE_UNKNOWN" ∷ [])

unfoldable pub classify_soft : List String → ArtifactReuseContext → Verdict
classify_soft soft r =
    if subset soft r.available_verified_fields
    then (rank_only, "SOFT_CRITERIA_CHANGED" ∷ "SCORING_INPUT_CHANGED" ∷ [])
    else (enrichment_required, "SOFT_CRITERIA_CHANGED" ∷ "REQUIRED_FIELD_NEEDS_ENRICHMENT" ∷ [])

abbrev pub decreases : Option ℕ → ℕ → Bool
decreases none after = false
decreases (some before) after = ltb after before

-- The candidates that are known in some stage.
abbrev pub pool : ArtifactReuseContext → ℕ
pool r = max r.researched_candidate_count (max r.filtered_candidate_count r.raw_candidate_count)

-- The branch for a changed target count.
unfoldable pub classify_count : Option ℕ → ℕ → ArtifactReuseContext → Verdict
classify_count before after r =
    if decreases before after
    then (display_only, "TARGET_COUNT_DECREASE" ∷ [])
    else if leb after r.scored_lead_count
    then (display_only, "TARGET_COUNT_WITHIN_SCORED_POOL" ∷ [])
    else if leb after r.verified_lead_count
    then (rank_only, "TARGET_COUNT_WITHIN_VERIFIED_POOL" ∷ [])
    else if leb after (pool r)
    then (filter_only, "HARD_FILTER_FIELD_AVAILABLE" ∷ [])
    else (
      discovery_required,
      "TARGET_COUNT_EXCEEDS_REUSABLE_POOL" ∷ "DISCOVERY_UNIVERSE_CHANGED" ∷ [],
    )

unfoldable pub classify_shown : TaskDiff → Verdict
classify_shown task =
    if task.export_fields_changed
    then (display_only, "DISPLAY_FIELDS_ONLY" ∷ [])
    else (discovery_required, "ARTIFACT_COVERAGE_UNKNOWN" ∷ [])

-- The last branches, when no field of the criteria changed.
unfoldable pub classify_rest : TaskDiff → Option ℕ → Option ℕ → ArtifactReuseContext → Verdict
classify_rest task before none r = classify_shown task
classify_rest task before (some after) r =
    if task.target_count_changed then classify_count before after r else classify_shown task

module _ {V : Type 0} where
  -- The branches on the criteria, and the rest.
  unfoldable pub classify_criteria :
      TaskDiff → CriteriaDiff V → ArtifactReuseContext → Option ℕ → Option ℕ → Verdict
  classify_criteria task criteria r before after =
      if overlaps (removed_fields criteria) r.discovery_pushdown_fields
      then (
        discovery_required,
        "HARD_FILTER_WAS_DISCOVERY_PUSHDOWN" ∷ "DISCOVERY_UNIVERSE_CHANGED" ∷ [],
      )
      else if some_in (hard_fields criteria)
      then classify_hard (hard_fields criteria) (removed_fields criteria) r
      else if some_in (soft_fields criteria)
      then classify_soft (soft_fields criteria) r
      else classify_rest task before after r

  unfoldable pub classify_invalidation :
      TaskDiff
      → CriteriaDiff V
      → ArtifactReuseContext
      → Option ℕ
      → Option ℕ
      → Option (List String)
      → Verdict
  classify_invalidation task criteria r before after newly_required =
      let requested = get_or newly_required [] in
      if not (task_changed task) && not (criteria_changed criteria)
      then (no_effect, "NO_EFFECT" ∷ [])
      else if task.business_changed || criteria.business_changed
      then (full_replan, "BUSINESS_CHANGED" ∷ [])
      else if task.region_changed || criteria.region_changed
      then (discovery_required, "REGION_CHANGED" ∷ "DISCOVERY_UNIVERSE_CHANGED" ∷ [])
      else if some_in requested
      then classify_required requested r
      else classify_criteria task criteria r before after
