-- ===== src/Mutation/Planner/Artifacts.antt =====
-- The plan accounts for every artifact: each one that exists is either reused or invalidated.
use enterprise_sales_intelli.Prelude.{
  ℕ, String, ◌≡◌, refl, ap, ◌⊎◌, Bool, true, false, not, ◌&&◌, ◌||◌, Option, none, some, List, [],
  ◌∷◌, keep, arith, string_eq, any, ◌↔◌, beq_refl, ◌==◌, ◌≢◌, ◌∙◌, All, Bool-cases, inl, inr,
  option_eq, option_beq_iff,
}
use enterprise_sales_intelli.Prelude.Sort.{contains}
use enterprise_sales_intelli.Mutation.Models.{
  MutationScope, no_effect, display_only, rank_only, filter_only, enrichment_required,
  discovery_required, full_replan, ReuseDecision, rebuild, TaskDiff, CriteriaDiff,
  ArtifactReuseContext,
}
use enterprise_sales_intelli.Mutation.Invalidation.{classify_invalidation}
use enterprise_sales_intelli.Mutation.Planner.{
  Artifact, criteria, search_plan, raw_candidates, filtered_candidates, researched_candidates,
  verified, scores, decisions, is_rebuild, artifacts, present, invalidated, plan, path,
  external_calls,
}

-- What passes a test of texts is what `keep` keeps.
contains-keep :
    (p : String → Bool) (xs : List String) (x : String)
    → contains x (keep p xs) ≡ (contains x xs && p x)
unfolding contains
contains-keep p [] x = refl
contains-keep p (y ∷ ys) x = ground (arith, string_eq.equals_iff y x, contains-keep p ys x)

-- An invalidated artifact exists.
invalidated-present :
    (scope : MutationScope) (l : List (Artifact × Option String)) (x : String)
    → contains x (invalidated scope l) ≡ true
    → contains x (present l) ≡ true
unfolding contains invalidated present
invalidated-present scope [] x h = cc
invalidated-present scope ((k, none) ∷ rest) x h = invalidated-present scope rest x h
invalidated-present scope ((k, some id) ∷ rest) x h =
    ground (arith, invalidated-present scope rest x)

rebuild_all :
    (scope : MutationScope) (l : List (Artifact × Option String))
    → ((k : Artifact) → is_rebuild (decisions scope k) ≡ true)
    → invalidated scope l ≡ present l
unfolding invalidated present
rebuild_all scope [] h = refl
rebuild_all scope ((k, none) ∷ rest) h = rebuild_all scope rest h
rebuild_all scope ((k, some id) ∷ rest) h = ground (arith, rebuild_all scope rest h, h k)

rebuild_none :
    (scope : MutationScope) (l : List (Artifact × Option String))
    → ((k : Artifact) → is_rebuild (decisions scope k) ≡ false)
    → invalidated scope l ≡ []
unfolding invalidated
rebuild_none scope [] h = refl
rebuild_none scope ((k, none) ∷ rest) h = rebuild_none scope rest h
rebuild_none scope ((k, some id) ∷ rest) h = ground (arith, rebuild_none scope rest h, h k)

keep_all : (xs : List String) → keep (λ id. not (contains id [])) xs ≡ xs
unfolding contains
keep_all [] = refl
keep_all (x ∷ xs) = ap (λ l. x ∷ l) (keep_all xs)

keep_none :
    (xs ys : List String)
    → ((x : String) → contains x xs ≡ true → contains x ys ≡ true)
    → keep (λ id. not (contains id ys)) xs ≡ []
unfolding contains
keep_none [] ys h = refl
keep_none (x ∷ xs) ys h =
    rw (h x (rw (beq_refl x) refl), keep) (keep_none xs ys (λ z m. h z (ground arith)))

-- The identifier that the context has for a kind of artifact.
unfoldable pub id_of : ArtifactReuseContext → Artifact → Option String
id_of r criteria = r.criteria_snapshot_id
id_of r search_plan = r.search_plan_id
id_of r raw_candidates = r.raw_candidate_set_id
id_of r filtered_candidates = r.filtered_candidate_set_id
id_of r researched_candidates = r.researched_candidate_set_id
id_of r verified = r.verified_lead_set_id
id_of r scores = r.lead_score_set_id

-- A listed kind that meets a test has the identifier.
abbrev offers : String → (Artifact → Bool) → List (Artifact × Option String) → Bool
offers id test [] = false
offers id test ((k, o) ∷ rest) = test k && o == some id || offers id test rest

contains-present :
    (l : List (Artifact × Option String)) (id : String)
    → contains id (present l) ≡ (not (id == "") && offers id (λ k. true) l)
unfolding contains present
contains-present [] id = ground arith
contains-present ((k, none) ∷ rest) id = ground (arith, contains-present rest id)
contains-present ((k, some x) ∷ rest) id = ground (
  arith,
  contains-present rest id,
  string_eq.equals_iff x id,
  string_eq.equals_iff x "",
  string_eq.equals_iff id "",
)

contains-invalidated :
    (scope : MutationScope) (l : List (Artifact × Option String)) (id : String)
    → contains id (invalidated scope l)
      ≡ (not (id == "") && offers id (λ k. is_rebuild (decisions scope k)) l)
unfolding contains invalidated
contains-invalidated scope [] id = ground arith
contains-invalidated scope ((k, none) ∷ rest) id =
    ground (arith, contains-invalidated scope rest id)
contains-invalidated scope ((k, some x) ∷ rest) id = ground (
  arith,
  contains-invalidated scope rest id,
  string_eq.equals_iff x id,
  string_eq.equals_iff x "",
  string_eq.equals_iff id "",
)

offered_by :
    (r : ArtifactReuseContext) (id : String) (test : Artifact → Bool)
    (l : List (Artifact × Option String))
    → All (λ (q : Artifact × Option String). id_of r q.0 ≡ q.1) l
    → offers id test l ≡ true
    → (k : Artifact) × (id_of r k ≡ some id) × (test k ≡ true)
offered_by r id test [] own h = absurd (ground arith)
offered_by r id test ((k, o) ∷ rest) own h = elim (Bool-cases (test k && o == some id)) [
  | inl here ↦ (k, own.0 ∙ (option_beq_iff o (some id)).0 (ground arith), ground arith)
  | inr there ↦ offered_by r id test rest own.1 (ground arith)
]

offers-at :
    (r : ArtifactReuseContext) (id : String) (test : Artifact → Bool)
    → offers id test (artifacts r) ≡ true
    → (k : Artifact) × (id_of r k ≡ some id) × (test k ≡ true)
unfolding artifacts id_of
offers-at r id test h =
    offered_by r id test (artifacts r) (refl, (refl, (refl, (refl, (refl, (refl, (refl, tt))))))) h

at-offers :
    (r : ArtifactReuseContext) (id : String) (test : Artifact → Bool) (k : Artifact)
    → id_of r k ≡ some id
    → test k ≡ true
    → offers id test (artifacts r) ≡ true
unfolding artifacts id_of
at-offers r id test k at h = ground (arith, option_beq_iff (id_of r k) (some id), at, h)

is_rebuild-of : (d : ReuseDecision) → is_rebuild d ≡ true → d ≡ rebuild
is_rebuild-of d h = ground arith

not_empty : (id : String) → (id == "") ≡ false → id ≢ ""
not_empty id h same = ground (arith, string_eq.equals_iff id "")

empty_not : (id : String) → id ≢ "" → (id == "") ≡ false
empty_not id h = ground (arith, string_eq.equals_iff id "")

-- The steps that call outside providers.
unfoldable pub reaches_out : String → Bool
reaches_out step = contains step ("business_planning" ∷ "research" ∷ "targeted_enrichment" ∷ [])

-- What the table of decisions says of the extreme scopes.
keeps :
    (scope : MutationScope) (k : Artifact)
    → (scope ≡ no_effect) ⊎ (scope ≡ display_only)
    → is_rebuild (decisions scope k) ≡ false
unfolding decisions
keeps scope k h = ground arith

drops :
    (scope : MutationScope) (k : Artifact)
    → (scope ≡ discovery_required) ⊎ (scope ≡ full_replan)
    → is_rebuild (decisions scope k) ≡ true
unfolding decisions
drops scope k h = ground arith

table :
    (scope : MutationScope)
    → (external_calls scope ≡ some 0) ↔ (any reaches_out (path scope).1 ≡ false)
unfolding external_calls path reaches_out contains
table no_effect = ((λ h. refl), (λ h. refl))
table display_only = ((λ h. refl), (λ h. refl))
table rank_only = ((λ h. refl), (λ h. refl))
table filter_only = ((λ h. refl), (λ h. refl))
table enrichment_required = ((λ h. cc), (λ h. cc))
table discovery_required = ((λ h. cc), (λ h. cc))
table full_replan = ((λ h. cc), (λ h. cc))

module _ {V : Type 0} (task : TaskDiff) (diff : CriteriaDiff V) (r : ArtifactReuseContext)
    (base next : ℕ) (before after : Option ℕ) (required : Option (List String)) (plan_id : String)
    (now : ℕ) where
  -- The plan accounts for every artifact of the context. An identifier is invalidated exactly when
  -- it is not empty and some kind of artifact has it that the plan rebuilds. It is reused exactly
  -- when it is not empty, some kind has it, and the plan rebuilds no kind that has it. So each
  -- artifact is one of the two and none is both.
  pub plan-splits :
      (id : String)
      → let p = plan task diff r base next before after required plan_id now in
        ((contains id p.invalidated_artifact_ids ≡ true)
          ↔ ((id ≢ "") × (k : Artifact) × (id_of r k ≡ some id) × (p.reuse_decisions k ≡ rebuild)))
        × ((contains id p.reused_artifact_ids ≡ true) ↔ (
            (id ≢ "")
            × ((k : Artifact) × (id_of r k ≡ some id))
            × ((k : Artifact) → id_of r k ≡ some id → p.reuse_decisions k ≢ rebuild)))
  unfolding plan
  plan-splits id =
      let scope = (classify_invalidation task diff r before after required).0 in
      let l = artifacts r in
      let dropped = invalidated scope l in
      let gone = contains-invalidated scope l id in
      let here = contains-present l id in
      let both = contains-keep (λ x. not (contains x dropped)) (present l) id in
      (
        (
          λ h.
              let (k, at, rebuilt) =
                offers-at r id (λ k. is_rebuild (decisions scope k)) (ground (arith, gone, h)) in
              (not_empty id (ground (arith, gone, h)), k, at, is_rebuild-of _ rebuilt),
          λ (full, k, at, rebuilt).
              let offered =
                at-offers r id (λ k. is_rebuild (decisions scope k)) k at (rw rebuilt refl) in
              ground (arith, gone, offered, empty_not id full),
        ),
        (
          λ h.
              let (k, at, any_kind) = offers-at r id (λ k. true) (ground (arith, here, both, h)) in
              (
                not_empty id (ground (arith, here, both, h)),
                (k, at),
                λ k' at' rebuilt.
                    let offered =
                      at-offers r id (λ k. is_rebuild (decisions scope k)) k' at'
                        (rw rebuilt refl) in
                    ground (arith, gone, both, h, offered, here),
              ),
          λ (full, (k, at), stays). elim (Bool-cases (contains id dropped)) [
            | inl dropped_too ↦
                let (k', at', rebuilt) =
                  offers-at r id (λ k. is_rebuild (decisions scope k))
                    (ground (arith, gone, dropped_too)) in
                absurd (stays k' at' (is_rebuild-of _ rebuilt))
            | inr not_dropped ↦
                let offered = at-offers r id (λ k. true) k at refl in
                ground (arith, here, both, not_dropped, offered, empty_not id full)
          ],
        ),
      )

  -- A plan that only shows or repeats what is there drops nothing and reuses every artifact.
  pub plan-keeps_all :
      ((plan task diff r base next before after required plan_id now).final_scope ≡ no_effect)
        ⊎ ((plan task diff r base next before after required plan_id now).final_scope
            ≡ display_only)
      → let p = plan task diff r base next before after required plan_id now in
        (p.invalidated_artifact_ids ≡ []) × (p.reused_artifact_ids ≡ present (artifacts r))
  unfolding plan
  plan-keeps_all h =
      let scope = (classify_invalidation task diff r before after required).0 in
      let none_dropped = rebuild_none scope (artifacts r) (λ k. keeps scope k h) in
      (none_dropped, rw none_dropped (keep_all (present (artifacts r))))

  -- A plan that starts at discovery or before drops every artifact and reuses none.
  pub plan-drops_all :
      ((plan task diff r base next before after required plan_id now).final_scope
          ≡ discovery_required)
        ⊎ ((plan task diff r base next before after required plan_id now).final_scope ≡ full_replan)
      → let p = plan task diff r base next before after required plan_id now in
        (p.reused_artifact_ids ≡ []) × (p.invalidated_artifact_ids ≡ present (artifacts r))
  unfolding plan
  plan-drops_all h =
      let scope = (classify_invalidation task diff r before after required).0 in
      let all_dropped = rebuild_all scope (artifacts r) (λ k. drops scope k h) in
      (
        rw all_dropped (keep_none (present (artifacts r)) (present (artifacts r)) (λ x m. m)),
        all_dropped,
      )

  -- A plan promises no external calls exactly if none of its steps plans, searches or enriches.
  pub plan_external_calls :
      let p = plan task diff r base next before after required plan_id now in
      (p.estimated_external_calls ≡ some 0) ↔ (any reaches_out p.steps ≡ false)
  unfolding plan
  plan_external_calls = table (classify_invalidation task diff r before after required).0
