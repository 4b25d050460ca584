-- ===== src/Mutation/Preview/Tests.antt =====
-- A patch with three constraints, on a task with two.
use enterprise_sales_intelli.Prelude.{◌≡◌, refl, String, some, List, [], ◌∷◌, string_eq}
use enterprise_sales_intelli.Tasks.Models.{
  ConstraintPatch, Constraint, add, update, remove, is_removal,
}
use enterprise_sales_intelli.Mutation.Preview.{apply_constraint, apply_constraints, by_field, entry}
use enterprise_sales_intelli.Mutation.Preview.Constraints.{
  last_patch, IsUnique, apply_constraints-by_field, apply_constraints-IsUnique,
}

abbrev more_staff : ConstraintPatch String
more_staff = record {
  field = "employee_count";
  operation = add;
  operator = some ">=";
  value = some "50";
  constraint_type = some "HARD";
}

abbrev any_office : ConstraintPatch String
any_office = record more_staff { field = "office_count"; operation = remove }

abbrev even_more_staff : ConstraintPatch String
even_more_staff = record more_staff { operation = update; value = some "80" }

abbrev patches : List (ConstraintPatch String)
patches = more_staff ∷ any_office ∷ even_more_staff ∷ []

abbrev old : List (Constraint String)
old = entry any_office ∷ entry (record more_staff { field = "member_count" }) ∷ []

patched_list :
    apply_constraints patches old
    ≡ entry (record more_staff { field = "member_count" }) ∷ entry even_more_staff ∷ []
unfolding apply_constraints apply_constraint is_removal
patched_list = refl

apply_constraints-by_field_example :
    by_field (apply_constraints patches old) "employee_count" ≡ some (entry even_more_staff)
unfolding apply_constraints apply_constraint is_removal last_patch by_field
apply_constraints-by_field_example = apply_constraints-by_field patches old "employee_count"

apply_constraints-IsUnique_example : IsUnique (apply_constraints patches old)
unfolding by_field
apply_constraints-IsUnique_example = apply_constraints-IsUnique patches old (refl, (refl, tt))
