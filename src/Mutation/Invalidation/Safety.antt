-- ===== src/Mutation/Invalidation/Safety.antt =====
-- A cheap scope is chosen only where the artifacts that it keeps still serve the changed task.
use enterprise_sales_intelli.Prelude.{
  ℕ, String, ◌≡◌, refl, ap, inl, inr, Bool, true, false, not, ◌&&◌, ◌||◌, Option, none, some, List,
  [], ◌∷◌, any, all, get_or, arith, string_eq, Bool-cases, leb,
}
use enterprise_sales_intelli.Prelude.Sort.{contains}
use enterprise_sales_intelli.Mutation.Models.{
  MutationScope, no_effect, display_only, rank_only, filter_only, enrichment_required,
  discovery_required, full_replan, TaskDiff, CriteriaDiff, ArtifactReuseContext, some_in,
}
use enterprise_sales_intelli.Mutation.Invalidation.{
  Verdict, subset, overlaps, task_changed, criteria_changed, hard_fields, soft_fields,
  removed_fields, is_enrichable, depends_on, classify_hard, classify_soft, classify_count,
  classify_shown, decreases, pool, classify_rest, classify_criteria, classify_invalidation,
}

abbrev pub Within : List String → List String → Type 0
Within xs ys = (f : String) → contains f xs ≡ true → contains f ys ≡ true

abbrev pub Apart : List String → List String → Type 0
Apart xs ys = (f : String) → contains f xs ≡ true → contains f ys ≡ false

all_sound :
    (p : String → Bool) (xs : List String) (f : String)
    → all p xs ≡ true
    → contains f xs ≡ true
    → p f ≡ true
unfolding contains
all_sound p [] f h m = cc
all_sound p (x ∷ xs) f h m = ground (arith, string_eq.equals_iff x f, all_sound p xs f)

subset-Within : (xs ys : List String) → subset xs ys ≡ true → Within xs ys
unfolding subset
subset-Within xs ys h f m = all_sound (λ x. contains x ys) xs f h m

any_sound :
    (p : String → Bool) (xs : List String) (f : String)
    → any p xs ≡ false
    → contains f xs ≡ true
    → p f ≡ false
unfolding contains
any_sound p [] f h m = cc
any_sound p (x ∷ xs) f h m = ground (arith, string_eq.equals_iff x f, any_sound p xs f)

overlaps-Apart : (xs ys : List String) → overlaps xs ys ≡ false → Apart xs ys
unfolding overlaps
overlaps-Apart xs ys h f m = any_sound (λ x. contains x ys) xs f h m

empty_of : {A : Type 0} (xs : List A) → some_in xs ≡ false → xs ≡ []
empty_of [] h = refl
empty_of (x ∷ xs) h = cc

module _ {V : Type 0} (task : TaskDiff) (criteria : CriteriaDiff V) (r : ArtifactReuseContext) where
  -- Neither diff changes the business or the region.
  abbrev pub IsUnmoved : Type 0
  IsUnmoved =
      ((task.business_changed || criteria.business_changed) ≡ false)
      × ((task.region_changed || criteria.region_changed) ≡ false)

  -- What each scope takes for granted of the artifacts that it keeps.
  abbrev pub IsCovered : MutationScope → Type 0
  IsCovered no_effect = (task_changed task ≡ false) × (criteria_changed criteria ≡ false)
  IsCovered display_only = IsUnmoved × (hard_fields criteria ≡ []) × (soft_fields criteria ≡ [])
  IsCovered rank_only =
      IsUnmoved
      × (hard_fields criteria ≡ [])
      × Within (soft_fields criteria) r.available_verified_fields
  IsCovered filter_only =
      IsUnmoved
      × Apart (removed_fields criteria) r.discovery_pushdown_fields
      × Within (hard_fields criteria) r.available_candidate_fields
  IsCovered enrichment_required =
      IsUnmoved
      × Apart (removed_fields criteria) r.discovery_pushdown_fields
      × ((f : String) → contains f (hard_fields criteria) ≡ true → is_enrichable r f ≡ true)
  IsCovered discovery_required = (task.business_changed || criteria.business_changed) ≡ false
  IsCovered full_replan = (task.business_changed || criteria.business_changed) ≡ true

  -- A verdict with what its scope takes for granted, whatever reasons it gives.
  data Covers : Verdict → Type 0 where
    nothing : {w : List String} → IsCovered no_effect → Covers (no_effect, w)
    display : {w : List String} → IsCovered display_only → Covers (display_only, w)
    rank : {w : List String} → IsCovered rank_only → Covers (rank_only, w)
    filtered : {w : List String} → IsCovered filter_only → Covers (filter_only, w)
    enriched : {w : List String} → IsCovered enrichment_required → Covers (enrichment_required, w)
    discovered : {w : List String} → IsCovered discovery_required → Covers (discovery_required, w)
    replanned : {w : List String} → IsCovered full_replan → Covers (full_replan, w)

  covers : {v : Verdict} → Covers v → IsCovered v.0
  covers (nothing h) = h
  covers (display h) = h
  covers (rank h) = h
  covers (filtered h) = h
  covers (enriched h) = h
  covers (discovered h) = h
  covers (replanned h) = h

  -- The branches on the criteria.
  module _ (u : IsUnmoved)
      (apart : Apart (removed_fields criteria) r.discovery_pushdown_fields) where
    hard-Covers : Covers (classify_hard (hard_fields criteria) (removed_fields criteria) r)
    unfolding classify_hard
    hard-Covers =
        let hard = hard_fields criteria in
        let known = subset hard r.available_candidate_fields in
        elim (Bool-cases (any (depends_on "DISCOVERY" r) hard && not known)) [
          | inl found ↦ rw found (discovered u.0)
          | inr other ↦ rw other (elim (Bool-cases known) [
            | inl has ↦ rw has (filtered (u, apart, subset-Within _ _ has))
            | inr lacks ↦ rw lacks (elim (Bool-cases (all (is_enrichable r) hard)) [
              | inl rich ↦
                  rw rich (enriched (u, apart, λ f. all_sound (is_enrichable r) hard f rich))
              | inr poor ↦ rw poor (discovered u.0)
            ])
          ])
        ]

    module _ (no_hard : hard_fields criteria ≡ []) where
      no_field : (P : String → Type 0) (f : String) → contains f (hard_fields criteria) ≡ true → P f
      unfolding contains
      no_field P f m =
          let none_left : contains f (hard_fields criteria) ≡ false = ap (contains f) no_hard in
          absurd (cc (m, none_left))

      soft-Covers : Covers (classify_soft (soft_fields criteria) r)
      unfolding classify_soft
      soft-Covers = elim (Bool-cases (subset (soft_fields criteria) r.available_verified_fields)) [
        | inl has ↦ rw has (rank (u, no_hard, subset-Within _ _ has))
        | inr lacks ↦ rw lacks (enriched (u, apart, no_field (λ f. is_enrichable r f ≡ true)))
      ]

      module _ (no_soft : soft_fields criteria ≡ []) where
        shown-Covers : Covers (classify_shown task)
        unfolding classify_shown
        shown-Covers = elim (Bool-cases task.export_fields_changed) [
          | inl exported ↦ rw exported (display (u, no_hard, no_soft))
          | inr other ↦ rw other (discovered u.0)
        ]

        no_soft_field : Within (soft_fields criteria) r.available_verified_fields
        unfolding contains
        no_soft_field f m =
            let none_left : contains f (soft_fields criteria) ≡ false = ap (contains f) no_soft in
            absurd (cc (m, none_left))

        count-Covers : (before : Option ℕ) (after : ℕ) → Covers (classify_count before after r)
        unfolding classify_count
        count-Covers before after = elim (Bool-cases (decreases before after)) [
          | inl fewer ↦ rw fewer (display (u, no_hard, no_soft))
          | inr more ↦ rw more (elim (Bool-cases (leb after r.scored_lead_count)) [
            | inl scored ↦ rw scored (display (u, no_hard, no_soft))
            | inr unscored ↦ rw unscored (elim (Bool-cases (leb after r.verified_lead_count)) [
              | inl verified ↦ rw verified (rank (u, no_hard, no_soft_field))
              | inr unverified ↦ rw unverified (elim (Bool-cases (leb after (pool r))) [
                | inl known ↦ rw known (
                    filtered
                      (u, apart, no_field (λ f. contains f r.available_candidate_fields ≡ true)))
                | inr unknown ↦ rw unknown (discovered u.0)
              ])
            ])
          ])
        ]

        rest-Covers : (before after : Option ℕ) → Covers (classify_rest task before after r)
        unfolding classify_rest
        rest-Covers before none = shown-Covers
        rest-Covers before (some after) = elim (Bool-cases task.target_count_changed) [
          | inl counted ↦ simp counted (count-Covers before after)
          | inr other ↦ simp other shown-Covers
        ]

  criteria-Covers :
      (before after : Option ℕ)
      → IsUnmoved
      → Covers (classify_criteria task criteria r before after)
  unfolding classify_criteria
  criteria-Covers before after u =
      elim (Bool-cases (overlaps (removed_fields criteria) r.discovery_pushdown_fields)) [
        | inl pushed ↦ rw pushed (discovered u.0)
        | inr free ↦
            let a = overlaps-Apart _ _ free in
            rw free (elim (Bool-cases (some_in (hard_fields criteria))) [
              | inl hard ↦ rw hard (hard-Covers u a)
              | inr no_hard ↦
                  let h = empty_of (hard_fields criteria) no_hard in
                  rw no_hard (elim (Bool-cases (some_in (soft_fields criteria))) [
                    | inl soft ↦ rw soft (soft-Covers u a h)
                    | inr no_soft ↦
                        rw no_soft
                          (rest-Covers u a h (empty_of (soft_fields criteria) no_soft) before after)
                  ])
            ])
      ]

  invalidation-Covers :
      (before after : Option ℕ) (required : Option (List String))
      → some_in (get_or required []) ≡ false
      → Covers (classify_invalidation task criteria r before after required)
  unfolding classify_invalidation
  invalidation-Covers before after required no_required =
      elim (Bool-cases (not (task_changed task) && not (criteria_changed criteria))) [
        | inl idle ↦ rw idle (nothing (ground arith))
        | inr busy ↦
            rw busy (elim (Bool-cases (task.business_changed || criteria.business_changed)) [
              | inl business ↦ rw business (replanned business)
              | inr same ↦
                  rw same (elim (Bool-cases (task.region_changed || criteria.region_changed)) [
                    | inl region ↦ rw region (discovered same)
                    | inr here ↦ rw (here, no_required) (criteria-Covers before after (same, here))
                  ])
            ])
      ]

  pub classify_invalidation-IsCovered :
      (before after : Option ℕ) (required : Option (List String))
      → some_in (get_or required []) ≡ false
      → IsCovered (classify_invalidation task criteria r before after required).0
  classify_invalidation-IsCovered before after required no_required =
      covers (invalidation-Covers before after required no_required)
