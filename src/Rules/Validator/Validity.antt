-- ===== src/Rules/Validator/Validity.antt =====
-- What a rule that passes is.
use enterprise_sales_intelli.Prelude.{
  ℕ, String, true, false, Option, ◌⊎◌, sym, string_eq, beq-cases, none, some, ◌≡◌, ◌≢◌, ap, List,
  [], ◌∷◌, ◌≤◌, ◌↔◌, refl, arith, Option-cases, inl, inr,
}
use enterprise_sales_intelli.Prelude.Sort.{contains}
use enterprise_sales_intelli.Rules.Models.{
  BusinessRule, official_requirement, model_suggestion, marketing_rule, active, ConstraintType,
  hard, soft, info, RuleModality, required, recommended, informational, is_hard, is_soft,
  is_official, is_marketing, is_suggestion, is_active, operator_eq,
}
use enterprise_sales_intelli.Rules.Registry.{
  RuleFieldDefinition, fields, catalog, in_catalog, is_business, definition_of,
}
use enterprise_sales_intelli.Prelude.Dict.{lookup}
use enterprise_sales_intelli.Rules.Validator.{
  is_empty_list, is_later, is_earlier, breaks_modality, validate,
}

-- The demands on a rule, each on its own.
pub record IsValid {V : Type 0} (rule : BusinessRule V) (today : ℕ) : Type 0 where
  pub business :
      (rule.business_code ≡ "GROUP_VNET") ⊎ (rule.business_code ≡ "ENTERPRISE_DEDICATED_LINE")
  pub operator :
      (d : RuleFieldDefinition) × (lookup rule.field fields ≡ some d)
      × (contains rule.operator d.allowed_operators ≡ true)
  pub official : rule.source_type ≡ official_requirement → rule.evidence_refs ≢ []
  pub suggestion :
      rule.source_type ≡ model_suggestion
      → (rule.constraint_type ≡ soft) × (rule.evidence_refs ≢ [])
  pub marketing : rule.source_type ≡ marketing_rule → rule.constraint_type ≢ hard
  pub status : rule.status ≡ active
  pub started : (day : ℕ) → rule.effective_from ≡ some day → day ≤ today
  pub lasting : (day : ℕ) → rule.effective_to ≡ some day → today ≤ day
  pub demanded : rule.modality ≡ some required → rule.constraint_type ≡ hard
  pub advised : rule.modality ≡ some recommended → rule.constraint_type ≡ soft
  pub told : rule.modality ≡ some informational → rule.constraint_type ≡ info

is_business_iff :
    (code : String)
    → (is_business code ≡ true) ↔ ((code ≡ "GROUP_VNET") ⊎ (code ≡ "ENTERPRISE_DEDICATED_LINE"))
unfolding is_business in_catalog catalog
is_business_iff code =
    let vnet = string_eq.equals_iff "GROUP_VNET" code in
    let line = string_eq.equals_iff "ENTERPRISE_DEDICATED_LINE" code in
    (
      λ h. elim (beq-cases "GROUP_VNET" code) [
        | inl (t, same) ↦ inl (sym same)
        | inr (f, other) ↦ inr (sym (line.0 (ground arith)))
      ],
      λ h. elim h [
        | inl same ↦ ground (arith, vnet.1 (sym same))
        | inr same ↦ ground (arith, line.1 (sym same))
      ],
    )

not_nil : {A : Type 0} (xs : List A) → is_empty_list xs ≡ false → xs ≢ []
not_nil xs h e = ground (arith, ap is_empty_list e)

nil_not : {A : Type 0} (xs : List A) → xs ≢ [] → is_empty_list xs ≡ false
nil_not [] h = absurd (h refl)
nil_not (x ∷ xs) h = refl

not_hard : (t : ConstraintType) → t ≢ hard → is_hard t ≡ false
not_hard hard h = absurd (h refl)
not_hard soft h = refl
not_hard info h = refl

-- What passes the test of the modality.
asked :
    (m : Option RuleModality) (t : ConstraintType)
    → breaks_modality m t ≡ false
    → (m ≡ some required → t ≡ hard)
      × (m ≡ some recommended → t ≡ soft)
      × (m ≡ some informational → t ≡ info)
unfolding breaks_modality
asked m t h = (λ is. ground arith, λ is. ground arith, λ is. ground arith)

asked_back :
    (m : Option RuleModality) (t : ConstraintType)
    → (m ≡ some required → t ≡ hard)
    → (m ≡ some recommended → t ≡ soft)
    → (m ≡ some informational → t ≡ info)
    → breaks_modality m t ≡ false
unfolding breaks_modality
asked_back none t h r i = refl
asked_back (some required) t h r i = rw (h refl) refl
asked_back (some recommended) t h r i = rw (r refl) refl
asked_back (some informational) t h r i = rw (i refl) refl

module _ {V : Type 0} (rule : BusinessRule V) (today : ℕ) where
  validate-IsValid : validate rule today ≡ none → IsValid rule today
  unfolding validate is_later is_earlier definition_of
  validate-IsValid h = elim (Option-cases (definition_of rule.field)) [
    | inl absent ↦ absurd (ground arith)
    | inr (d, found) ↦
        let modal = asked rule.modality rule.constraint_type (ground arith) in
        record {
          business = (is_business_iff rule.business_code).0 (ground arith);
          operator = (d, found, ground arith);
          official = λ is. not_nil rule.evidence_refs (ground (arith, ap is_official is));
          suggestion = λ is. (
            ground (arith, ap is_suggestion is),
            not_nil rule.evidence_refs (ground (arith, ap is_suggestion is)),
          );
          marketing = λ is is_hard_one. ground (arith, ap is_marketing is, ap is_hard is_hard_one);
          status = ground arith;
          started = λ day is. ground arith;
          lasting = λ day is. ground arith;
          demanded = modal.0;
          advised = modal.1;
          told = modal.2;
        }
  ]

  is_later-false :
      (o : Option ℕ) → ((day : ℕ) → o ≡ some day → day ≤ today) → is_later o today ≡ false
  unfolding is_later
  is_later-false none h = refl
  is_later-false (some day) h = ground (arith, h day refl)

  is_earlier-false :
      (o : Option ℕ) → ((day : ℕ) → o ≡ some day → today ≤ day) → is_earlier o today ≡ false
  unfolding is_earlier
  is_earlier-false none h = refl
  is_earlier-false (some day) h = ground (arith, h day refl)

  validate-none : IsValid rule today → validate rule today ≡ none
  unfolding validate definition_of
  validate-none v =
      let (d, found, allowed) = v.operator in
      let young = is_later-false rule.effective_from v.started in
      let old = is_earlier-false rule.effective_to v.lasting in
      let known = (is_business_iff rule.business_code).1 v.business in
      let modal = asked_back rule.modality rule.constraint_type v.demanded v.advised v.told in
      let official : is_official rule.source_type ≡ true
          → is_empty_list rule.evidence_refs ≡ false =
        λ is. nil_not rule.evidence_refs (v.official (ground arith)) in
      let soft_one : is_suggestion rule.source_type ≡ true → is_soft rule.constraint_type ≡ true =
        λ is. ap is_soft (v.suggestion (ground arith)).0 in
      let backed : is_suggestion rule.source_type ≡ true
          → is_empty_list rule.evidence_refs ≡ false =
        λ is. nil_not rule.evidence_refs (v.suggestion (ground arith)).1 in
      let marketing : is_marketing rule.source_type ≡ true → is_hard rule.constraint_type ≡ false =
        λ is. not_hard rule.constraint_type (v.marketing (ground arith)) in
      ground (
        arith,
        known,
        found,
        allowed,
        official,
        soft_one,
        backed,
        marketing,
        ap is_active v.status,
        young,
        old,
        modal,
      )

  -- A rule passes validation on a day exactly when it meets every demand of `IsValid`: one of the
  -- two businesses, a field and an operator of the registry, evidence behind official rules and
  -- suggestions, soft suggestions, no hard marketing rule, an active status, the day within its
  -- dates, and the constraint type that its modality asks for: hard for required, soft for
  -- recommended, info for informational.
  pub validate_iff : (validate rule today ≡ none) ↔ IsValid rule today
  validate_iff = (validate-IsValid, validate-none)
