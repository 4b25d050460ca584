-- ===== src/Mutation/Service/Tests.antt =====
-- A task that a message moves to another region, twice.
use enterprise_sales_intelli.Prelude.{
  ℕ, String, true, Option, none, some, [], ◌≡◌, refl, inr, arith, string_eq, pair_eq, option_eq,
  nat_eq, list_eq,
}
use enterprise_sales_intelli.Prelude.Dict.{lookup, insert}
use enterprise_sales_intelli.Prelude.Sort.{contains, sort, insert_sorted, distinct}
use enterprise_sales_intelli.Prelude.Texts.{strip, strip_left, strip_right, is_space}
use enterprise_sales_intelli.Tasks.Models.{TaskPatch, LeadTask, is_removal}
use enterprise_sales_intelli.Tasks.Repository.{
  Repository, Stamp, empty, create_task, add_task, new_task, find_version, record_version, get_task,
  get_version, update_task, commit_patch, apply_patch, assert_current,
}
use enterprise_sales_intelli.Rules.Registry.{
  catalog, in_catalog, is_business, names, code_in, normalize_business_code, fields, definition_of,
}
use enterprise_sales_intelli.Rules.Values.Counts.{counts}
use enterprise_sales_intelli.Criteria.Diff.{
  same_keys, split_field, split_fields, all_fields, split_changes, diff_criteria,
}
use enterprise_sales_intelli.Mutation.Models.{ArtifactReuseContext, CriteriaDiff, full_replan}
use enterprise_sales_intelli.Mutation.Preview.{
  apply_patch_pure, patch_requirements, apply_constraints, apply_constraint, build_preview,
  is_changed, changed_fields, shown, calculate_task_diff, by_field,
}
use enterprise_sales_intelli.Mutation.Diff.{
  compile_constraints, criteria_from_task, calculate_criteria_diff,
}
use enterprise_sales_intelli.Mutation.Invalidation.{
  subset, overlaps, task_changed, criteria_changed, hard_fields, soft_fields, removed_fields,
  depends_on, is_enrichable, classify_required, classify_hard, classify_soft, classify_count,
  classify_shown, classify_rest, classify_criteria, classify_invalidation,
}
use enterprise_sales_intelli.Mutation.Planner.{
  plan, path, decisions, artifacts, present, invalidated, external_calls,
}
use enterprise_sales_intelli.Mutation.Repository.{
  TaskMutation, find_mutation, get_mutation, save_mutation, save_plan,
}
use enterprise_sales_intelli.Mutation.Validation.{
  Fresh, bad_count, bad_business, bad_region, validate_item, validate_items, check_official,
  validate_patch,
}
use enterprise_sales_intelli.Mutation.Service.{
  ServiceState, newly_required, plan_for, mutation_of, finish, commit, mutate_task, mutate,
}
use enterprise_sales_intelli.Mutation.Service.Outcomes.{IsLinked, Effect}
use enterprise_sales_intelli.Mutation.Service.Effects.{mutate-Effect}
use enterprise_sales_intelli.Mutation.Service.Repeats.{mutate-repeats}

program : Unit {0}
unfolding lookup insert contains sort insert_sorted distinct strip strip_left strip_right is_space
    is_removal create_task add_task new_task find_version record_version get_task get_version
    update_task commit_patch apply_patch assert_current catalog in_catalog is_business names code_in
    normalize_business_code fields definition_of same_keys split_field split_fields all_fields
    split_changes diff_criteria apply_patch_pure patch_requirements apply_constraints
    apply_constraint build_preview is_changed changed_fields shown calculate_task_diff by_field
    compile_constraints criteria_from_task calculate_criteria_diff subset overlaps task_changed
    criteria_changed hard_fields soft_fields removed_fields depends_on is_enrichable
    classify_required classify_hard classify_soft classify_count classify_shown classify_rest
    classify_criteria classify_invalidation plan path decisions artifacts present invalidated
    external_calls find_mutation get_mutation save_mutation save_plan bad_count bad_business
    bad_region validate_item validate_items check_official validate_patch newly_required plan_for
    mutation_of finish commit mutate_task mutate
program = tt

abbrev at_time : ℕ → String → Stamp
at_time now id = record { now = now; new_task_id = "t1"; new_version_id = id }

abbrev opened : Repository (Option ℕ)
opened = (create_task "north" "s1" (some "m1") (at_time 10 "v1") empty).1

abbrev first_task : LeadTask (Option ℕ)
first_task = new_task "north" "s1" (some "m1") (at_time 10 "v1")

abbrev start : ServiceState (Option ℕ)
start = record { tasks = opened; requests = record { mutations = []; plans = []; by_request = [] } }

abbrev to_fuzhou : TaskPatch (Option ℕ)
to_fuzhou = record {
  business = some "V网";
  region = some "Fuzhou";
  target_count = some 20;
  constraints = [];
  required_fields = none;
  export_fields = none;
}

abbrev nothing_stored : String → ℕ → Repository (Option ℕ) → ArtifactReuseContext
nothing_stored task version tasks = record {
  task_id = task;
  task_version = version;
  criteria_snapshot_id = none;
  search_plan_id = none;
  raw_candidate_set_id = none;
  raw_candidate_count = 0;
  filtered_candidate_set_id = none;
  filtered_candidate_count = 0;
  researched_candidate_set_id = none;
  researched_candidate_count = 0;
  verified_lead_set_id = none;
  verified_lead_count = 0;
  lead_score_set_id = none;
  scored_lead_count = 0;
  scoring_profile_id = none;
  available_candidate_fields = [];
  available_verified_fields = [];
  discovery_pushdown_fields = [];
  post_filter_fields = [];
  enrichment_fields = [];
  field_dependencies = [];
}

abbrev fresh : Fresh
fresh = record {
  mutation_id = "x1";
  plan_id = "p1";
  criteria_id = "c1";
  rule_id = "r1";
  conflict_id = λ n. "conflict";
  stamp = at_time 20 "v2";
}

abbrev as_text : Option ℕ → String
as_text v = "value"

abbrev everything : CriteriaDiff (Option ℕ)
everything = record {
  added_hard = [];
  removed_hard = [];
  changed_hard = [];
  added_soft = [];
  removed_soft = [];
  changed_soft = [];
  business_changed = true;
  region_changed = true;
  target_count_changed = true;
}

abbrev made : TaskMutation (Option ℕ)
made = mutation_of "t1" first_task 1 "m2" to_fuzhou everything full_replan fresh

abbrev moved : LeadTask (Option ℕ)
moved = record (apply_patch_pure first_task to_fuzhou) { updated_at = 20 }

moved_once :
    (mutate counts as_text "north" none nothing_stored "t1" 1 "m2" to_fuzhou none fresh start).0
    ≡ inr (made, some moved)
unfolding program
moved_once = refl

start-IsLinked : IsLinked start.requests
unfolding lookup
start-IsLinked request id h = absurd (ground arith)

mutate-Effect_example :
    Effect "north" "t1" "m2" 1 fresh start
      (mutate counts as_text "north" none nothing_stored "t1" 1 "m2" to_fuzhou none fresh start)
mutate-Effect_example =
    mutate-Effect counts as_text "north" none nothing_stored "t1" "m2" 1 to_fuzhou none fresh start
      start-IsLinked

mutate-repeats_example :
    let t =
      (mutate counts as_text "north" none nothing_stored "t1" 1 "m2" to_fuzhou none fresh
        start).1 in
    mutate counts as_text "north" none nothing_stored "t1" 7 "m2" to_fuzhou none fresh t
    ≡ (inr (made, get_task "north" (some "t1") none t.tasks), t)
mutate-repeats_example =
    mutate-repeats counts as_text "north" none nothing_stored "t1" "m2" 1 7 to_fuzhou to_fuzhou none
      none fresh fresh start made (some moved) start-IsLinked moved_once
