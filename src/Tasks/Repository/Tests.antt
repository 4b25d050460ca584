-- ===== src/Tasks/Repository/Tests.antt =====
-- One task of workspace "north", patched twice by two clients.
use enterprise_sales_intelli.Prelude.{
  ◌≡◌, refl, ℕ, String, none, some, [], string_eq, pair_eq, arith,
}
use text.Mathlib.TextEquality.{eq_iff}
use enterprise_sales_intelli.Prelude.Dict.{lookup, insert}
use enterprise_sales_intelli.Tasks.Models.{TaskPatch, LeadTask, TaskVersion, is_removal, failed}
use enterprise_sales_intelli.Tasks.Repository.{
  Repository, Stamp, empty, create_task, add_task, new_task, find_version, record_version, get_task,
  get_version, update_task, commit_patch, apply_patch, assert_current, set_status, activate_task,
  ok, err, task_not_found, version_conflict,
}
use enterprise_sales_intelli.Mutation.Preview.{
  apply_patch_pure, patch_requirements, apply_constraints, apply_constraint,
}
use enterprise_sales_intelli.Tasks.Repository.Saves.{IsConsistent}
use enterprise_sales_intelli.Tasks.Repository.Histories.{
  Step, Reach, done, then_step, created, patch_applied,
}
use enterprise_sales_intelli.Tasks.Repository.Patching.{
  history-IsConsistent, history-keeps_version, apply_patch-retry, apply_patch-conflict,
}
use enterprise_sales_intelli.Tasks.Repository.Isolation.{foreign_task-refused}

program : Unit {0}
unfolding lookup insert create_task add_task new_task find_version record_version get_task
    get_version update_task commit_patch apply_patch assert_current set_status activate_task
    apply_patch_pure patch_requirements apply_constraints apply_constraint is_removal
program = tt

abbrev at_time : ℕ → String → Stamp
at_time now id = record { now = now; new_task_id = "t1"; new_version_id = id }

abbrev in_hamburg : TaskPatch String
in_hamburg = record {
  business = some "insurance";
  region = some "Hamburg";
  target_count = some 20;
  constraints = [];
  required_fields = none;
  export_fields = none;
}

abbrev in_bremen : TaskPatch String
in_bremen = record in_hamburg { region = some "Bremen" }

abbrev opened : Repository String
opened = (create_task "north" "s1" (some "m1") (at_time 10 "v1") empty).1

abbrev patched_once : Repository String
patched_once =
    (apply_patch "north" "t1" in_hamburg (some 1) none (some "m2") (at_time 20 "v2") opened).1

opened_reached : Reach empty opened
unfolding lookup
opened_reached = then_step done (created "north" "s1" (some "m1") (at_time 10 "v1") refl)

patched-Step : Step opened patched_once
patched-Step = patch_applied "north" "t1" in_hamburg (some 1) none (some "m2") (at_time 20 "v2")

opened-IsConsistent : IsConsistent opened
opened-IsConsistent = history-IsConsistent opened_reached

patched-IsConsistent : IsConsistent patched_once
patched-IsConsistent = history-IsConsistent (then_step opened_reached patched-Step)

abbrev first_task : LeadTask String
first_task = new_task "north" "s1" (some "m1") (at_time 10 "v1")

abbrev second_task : LeadTask String
second_task = record (apply_patch_pure first_task in_hamburg) { updated_at = 20 }

patched_lookup : lookup "t1" patched_once.tasks ≡ some second_task
unfolding program
patched_lookup = refl

history-IsConsistent_example : IsConsistent patched_once
history-IsConsistent_example = history-IsConsistent (then_step opened_reached patched-Step)

abbrev first_version : TaskVersion String
first_version = record {
  version_id = "v1";
  task_id = "t1";
  version = 1;
  parent_version = none;
  requirements = first_task.requirements;
  source_message_id = some "m1";
  mutation_id = none;
  created_at = 10;
}

history-keeps_version_example : get_version "t1" 1 patched_once ≡ some first_version
unfolding program
history-keeps_version_example =
    history-keeps_version opened patched_once "t1" 1 first_version opened-IsConsistent
      (then_step done patched-Step) refl

apply_patch-retry_example :
    (y : LeadTask String) × (apply_patch "north" "t1" in_bremen none none
        (some "m2")
        (at_time 30 "v3")
        patched_once
      ≡ (ok y, patched_once))
    × (y.version ≡ 2)
    × (y.requirements ≡ second_task.requirements)
unfolding program
apply_patch-retry_example =
    apply_patch-retry "north" "t1" "m2" in_hamburg in_bremen (some 1) none none none (some "m2")
      (at_time 20 "v2") (at_time 30 "v3") opened patched_once second_task second_task refl
      opened-IsConsistent refl done refl

apply_patch-conflict_example :
    apply_patch "north" "t1" in_bremen (some 1) none (some "m3") (at_time 30 "v3") patched_once
    ≡ (err (version_conflict "t1" 1 2), patched_once)
unfolding program
apply_patch-conflict_example =
    apply_patch-conflict "north" "t1" in_hamburg in_bremen 1 none none (some "m2") (some "m3")
      (at_time 20 "v2") (at_time 30 "v3") opened second_task opened-IsConsistent refl refl refl

foreign_task-refused_example :
    (get_task "south" (some "t1") none patched_once ≡ none)
    × (assert_current "south" "t1" 2 patched_once ≡ some (task_not_found "t1"))
    × (apply_patch "south" "t1" in_bremen none none none (at_time 30 "v3") patched_once
        ≡ (err (task_not_found "t1"), patched_once))
    × (set_status "south" "t1" none (some failed) (at_time 30 "v3") patched_once
        ≡ (err (task_not_found "t1"), patched_once))
    × (activate_task "south" "s1" "t1" patched_once ≡ (err (task_not_found "t1"), patched_once))
unfolding new_task apply_patch_pure
foreign_task-refused_example =
    foreign_task-refused "south" "t1" "s1" in_bremen none none none none (some failed) 2
      (at_time 30 "v3") patched_once second_task patched_lookup
      (ground (arith, eq_iff "north" "south"))
