-- ===== src/Criteria/Diff/Fields.antt =====
-- Which fields a difference of criteria names.
use enterprise_sales_intelli.Prelude.{
  String, Bool, not, ◌&&◌, ◌||◌, List, [], ◌∷◌, ◌++◌, map, any, keep, length, All, true, Bool-cases,
  ◌≢◌, ◌≡◌, refl, ◌==◌, string_eq, arith, inl, inr, ◌∙◌, ap, ap₂, beq-cases,
}
use enterprise_sales_intelli.Prelude.Sort.{distinct, contains}
use enterprise_sales_intelli.Prelude.Sort.Members.{
  contains-append, contains-sort, contains-distinct,
}
use enterprise_sales_intelli.Criteria.Models.{Changed}
use enterprise_sales_intelli.Criteria.Diff.{
  Key, same_keys, has_items, Split, group, split_field, split_fields, all_fields, split_changes,
}

any-append :
    {A : Type 0} (p : A → Bool) (xs ys : List A) → any p (xs ++ ys) ≡ (any p xs || any p ys)
any-append p [] ys = refl
any-append p (x ∷ xs) ys = ground (arith, any-append p xs ys)

module _ {C : Type 0} (field_of : C → String) (key_of : C → Key) where
  -- Whether some item, or some change, is on a field.
  abbrev pub names : String → List C → Bool
  names field = any (λ x. field_of x == field)

  abbrev pub changes : String → List (Changed C) → Bool
  changes field = any (λ (c : Changed C). c.field == field)

  -- The items of a field differ, in their operators or values.
  unfoldable pub differs : String → List C → List C → Bool
  differs field old_items new_items = not (
      same_keys (map key_of (group field_of key_of field old_items))
        (map key_of (group field_of key_of field new_items)))

  names-group :
      (field other : String) (items : List C)
      → names field (group field_of key_of other items) ≡ (other == field && names field items)
  names-group field other [] = ground arith
  names-group field other (x ∷ xs) = ground (
    arith,
    names-group field other xs,
    string_eq.equals_iff (field_of x) other,
    string_eq.equals_iff (field_of x) field,
    string_eq.equals_iff other field,
  )

  has_items-group :
      (field : String) (items : List C)
      → has_items (group field_of key_of field items) ≡ names field items
  has_items-group field [] = refl
  has_items-group field (x ∷ xs) = ground (arith, has_items-group field xs)

  contains-fields :
      (field : String) (items : List C) → contains field (map field_of items) ≡ names field items
  unfolding contains
  contains-fields field [] = refl
  contains-fields field (x ∷ xs) = ap (λ b. field_of x == field || b) (contains-fields field xs)

  contains-all_fields :
      (field : String) (old_items new_items : List C)
      → contains field (all_fields field_of key_of old_items new_items)
        ≡ (names field old_items || names field new_items)
  unfolding all_fields
  contains-all_fields field old_items new_items =
      let both = map field_of old_items ++ map field_of new_items in
      contains-sort field (distinct both)
      ∙ contains-distinct field both
      ∙ contains-append field (map field_of old_items) (map field_of new_items)
      ∙ ap₂ (λ a b. a || b) (contains-fields field old_items) (contains-fields field new_items)

  -- What the difference says of a field, when the loop runs over given fields.
  abbrev Says : String → Bool → List C → List C → Split C → Type 0
  Says field here old_items new_items s =
      (names field s.added ≡ (here && names field new_items && not (names field old_items)))
      × (names field s.removed ≡ (here && names field old_items && not (names field new_items)))
      × (changes field s.changed ≡ (
          here
          && names field old_items
          && names field new_items
          && differs field old_items new_items))

  -- What one turn does, in terms of which fields have items.
  turn :
      (field other : String) (old_items new_items : List C) (rest : Split C)
      → let s = split_field field_of key_of other old_items new_items rest in
        let old_one = names other old_items in
        let new_one = names other new_items in
        (names field s.added ≡ (
          not old_one && names field (group field_of key_of other new_items)
          || names field rest.added))
        × (names field s.removed ≡ (
            old_one && not new_one && names field (group field_of key_of other old_items)
            || names field rest.removed))
        × (changes field s.changed ≡ (
            other == field && old_one && new_one && differs other old_items new_items
            || changes field rest.changed))
  unfolding split_field differs
  turn field other old_items new_items rest =
      let old_group = group field_of key_of other old_items in
      let new_group = group field_of key_of other new_items in
      let more_old = any-append (λ x. field_of x == field) old_group rest.removed in
      let more_new = any-append (λ x. field_of x == field) new_group rest.added in
      let has_old = has_items-group other old_items in
      let has_new = has_items-group other new_items in
      (
        ground (arith, more_new, has_old, has_new),
        ground (arith, more_old, has_old, has_new),
        ground (arith, has_old, has_new),
      )

  -- A change has the items of its field on both sides, all of them and in their order, and neither
  -- side is empty.
  abbrev pub IsWhole : List C → List C → Changed C → Type 0
  IsWhole old_items new_items c =
      (c.before ≡ keep (λ x. field_of x == c.field) old_items)
      × (c.after ≡ keep (λ x. field_of x == c.field) new_items)
      × (length c.before ≢ 0)
      × (length c.after ≢ 0)

  filled : (xs : List C) → has_items xs ≡ true → length xs ≢ 0
  filled [] h e = ground arith
  filled (x ∷ xs) h e = ground arith

  split_field-All :
      (field : String) (old_items new_items : List C) (rest : Split C)
      → All (IsWhole old_items new_items) rest.changed
      → All
          (IsWhole old_items new_items)
          (split_field field_of key_of field old_items new_items rest).changed
  unfolding split_field
  split_field-All field old_items new_items rest h =
      let old_group = group field_of key_of field old_items in
      let new_group = group field_of key_of field new_items in
      elim (Bool-cases (has_items old_group)) [
        | inr none_old ↦ rw none_old h
        | inl some_old ↦ elim (Bool-cases (has_items new_group)) [
          | inr none_new ↦ rw (some_old, none_new) h
          | inl some_new ↦
              elim (Bool-cases (same_keys (map key_of old_group) (map key_of new_group))) [
                | inl same ↦ rw (some_old, some_new, same) h
                | inr differ ↦
                    rw (some_old, some_new, differ)
                      ((refl, refl, filled old_group some_old, filled new_group some_new), h)
              ]
        ]
      ]

  split_fields-All :
      (fields : List String) (old_items new_items : List C)
      → All
          (IsWhole old_items new_items)
          (split_fields field_of key_of fields old_items new_items).changed
  unfolding split_fields
  split_fields-All [] old_items new_items = tt
  split_fields-All (field ∷ fields) old_items new_items =
      split_field-All field old_items new_items
        (split_fields field_of key_of fields old_items new_items)
        (split_fields-All fields old_items new_items)

  split_fields-Says :
      (field : String) (fields : List String) (old_items new_items : List C)
      → Says field
          (contains field fields)
          old_items
          new_items
          (split_fields field_of key_of fields old_items new_items)
  unfolding split_fields contains
  split_fields-Says field [] old_items new_items = (refl, refl, refl)
  split_fields-Says field (other ∷ fields) old_items new_items =
      let rest = split_fields field_of key_of fields old_items new_items in
      let (a, r, c) = split_fields-Says field fields old_items new_items in
      let (a', r', c') = turn field other old_items new_items rest in
      let in_old = names-group field other old_items in
      let in_new = names-group field other new_items in
      elim (beq-cases other field) [
        | inl (t, same) ↦
            let same_old = ap (λ o. names o old_items) same in
            let same_new = ap (λ o. names o new_items) same in
            let same_change = ap (λ o. differs o old_items new_items) same in
            (ground arith, ground arith, ground arith)
        | inr (f, apart) ↦ (ground arith, ground arith, ground arith)
      ]

  pub split_changes-fields :
      (field : String) (old_items new_items : List C)
      → let s = split_changes field_of key_of old_items new_items in
        (names field s.added ≡ (names field new_items && not (names field old_items)))
        × (names field s.removed ≡ (names field old_items && not (names field new_items)))
        × (changes field s.changed
            ≡ (names field old_items && names field new_items && differs field old_items new_items))
        × All (IsWhole old_items new_items) s.changed
  unfolding split_changes
  split_changes-fields field old_items new_items =
      let here = contains-all_fields field old_items new_items in
      let fields = all_fields field_of key_of old_items new_items in
      let (a, r, c) = split_fields-Says field fields old_items new_items in
      (
        ground arith,
        ground arith,
        ground arith,
        split_fields-All (all_fields field_of key_of old_items new_items) old_items new_items,
      )
