-- ===== src/Mutation/Preview/Constraints.antt =====
-- The loop of `apply_patch_pure` over the constraints of a patch.
use enterprise_sales_intelli.Prelude.{
  ◌≡◌, refl, inl, inr, String, not, Option, none, some, List, [], ◌∷◌, ◌++◌, keep, ◌==◌, string_eq,
  if◌then◌else◌, arith, Bool-cases,
}
use enterprise_sales_intelli.Tasks.Models.{ConstraintPatch, Constraint, is_removal}
use enterprise_sales_intelli.Mutation.Preview.{entry, apply_constraint, apply_constraints, by_field}

module _ {V : Type 0} where
  -- The last patch of a field.
  unfoldable pub last_patch : String → List (ConstraintPatch V) → Option (ConstraintPatch V)
  last_patch field [] = none
  last_patch field (p ∷ ps) = elim (last_patch field ps) [
    | some later ↦ some later
    | none ↦ if p.field == field then some p else none
  ]

  -- What a patch of its field leaves.
  abbrev pub left_by : ConstraintPatch V → Option (Constraint V)
  left_by p = if is_removal p.operation then none else some (entry p)

  -- The constraint of a field, when the patches are read from the last one back.
  abbrev pub outcome : Option (ConstraintPatch V) → Option (Constraint V) → Option (Constraint V)
  outcome none old = old
  outcome (some p) old = left_by p

  by_field-append :
      (cs : List (Constraint V)) (c : Constraint V) (f : String)
      → by_field (cs ++ (c ∷ [])) f ≡ (if c.field == f then some c else by_field cs f)
  unfolding by_field
  by_field-append [] c f = refl
  by_field-append (d ∷ cs) c f = ground (arith, by_field-append cs c f)

  by_field-keep :
      (cs : List (Constraint V)) (g f : String)
      → by_field (keep (λ (c : Constraint V). not (c.field == g)) cs) f
        ≡ (if g == f then none else by_field cs f)
  unfolding by_field
  by_field-keep [] g f = ground arith
  by_field-keep (d ∷ cs) g f = ground (
    arith,
    by_field-keep cs g f,
    string_eq.equals_iff d.field g,
    string_eq.equals_iff d.field f,
    string_eq.equals_iff g f,
  )

  by_field-apply_constraint :
      (p : ConstraintPatch V) (cs : List (Constraint V)) (f : String)
      → by_field (apply_constraint p cs) f ≡ (if p.field == f then left_by p else by_field cs f)
  unfolding apply_constraint
  by_field-apply_constraint p cs f =
      let kept = keep (λ (c : Constraint V). not (c.field == p.field)) cs in
      ground (arith, by_field-keep cs p.field f, by_field-append kept (entry p) f)

  -- After a patch a field has the constraint of its last entry in the patch, none if that entry
  -- removes or clears it, and its old one if the patch does not name the field.
  pub apply_constraints-by_field :
      (ps : List (ConstraintPatch V)) (cs : List (Constraint V)) (f : String)
      → by_field (apply_constraints ps cs) f ≡ outcome (last_patch f ps) (by_field cs f)
  unfolding apply_constraints last_patch
  apply_constraints-by_field [] cs f = refl
  apply_constraints-by_field (p ∷ ps) cs f = ground (
    arith,
    apply_constraints-by_field ps (apply_constraint p cs) f,
    by_field-apply_constraint p cs f,
  )

  -- No two constraints of one field.
  abbrev pub IsUnique : List (Constraint V) → Type 0
  IsUnique [] = Unit
  IsUnique (c ∷ cs) = (by_field cs c.field ≡ none) × IsUnique cs

  keep-IsUnique :
      (g : String) (cs : List (Constraint V))
      → IsUnique cs
      → IsUnique (keep (λ (c : Constraint V). not (c.field == g)) cs)
  keep-IsUnique g [] u = tt
  keep-IsUnique g (c ∷ cs) (alone, u) = elim (Bool-cases (c.field == g)) [
    | inl same ↦ rw (same, keep) (keep-IsUnique g cs u)
    | inr other ↦
        rw (other, keep) (ground (arith, by_field-keep cs g c.field), keep-IsUnique g cs u)
  ]

  append-IsUnique :
      (c : Constraint V) (cs : List (Constraint V))
      → by_field cs c.field ≡ none
      → IsUnique cs
      → IsUnique (cs ++ (c ∷ []))
  unfolding by_field
  append-IsUnique c [] h u = (refl, tt)
  append-IsUnique c (d ∷ cs) h (alone, u) = (
    ground (
      arith,
      by_field-append cs c d.field,
      string_eq.equals_iff c.field d.field,
      string_eq.equals_iff d.field c.field,
    ),
    append-IsUnique c cs (ground arith) u,
  )

  -- A patch keeps at most one constraint for each field.
  pub apply_constraints-IsUnique :
      (ps : List (ConstraintPatch V)) (cs : List (Constraint V))
      → IsUnique cs
      → IsUnique (apply_constraints ps cs)
  unfolding apply_constraints apply_constraint
  apply_constraints-IsUnique [] cs u = u
  apply_constraints-IsUnique (p ∷ ps) cs u =
      let kept = keep (λ (c : Constraint V). not (c.field == p.field)) cs in
      apply_constraints-IsUnique ps _ (elim (Bool-cases (is_removal p.operation)) [
        | inl gone ↦ rw (gone, apply_constraint) (keep-IsUnique p.field cs u)
        | inr set ↦
            rw (set, apply_constraint)
              (append-IsUnique (entry p) kept
                (ground
                  (arith, by_field-keep cs p.field p.field, string_eq.equals_iff p.field p.field))
                (keep-IsUnique p.field cs u))
      ])
