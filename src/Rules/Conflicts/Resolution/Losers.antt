-- ===== src/Rules/Conflicts/Resolution/Losers.antt =====
-- What is detected as competing, and what rules identifiers find.
use enterprise_sales_intelli.Prelude.{
  ℕ, ◌+◌, String, Bool, true, false, not, ◌&&◌, Option, none, some, List, [], ◌∷◌, ◌++◌, map, All,
  ◌≡◌, ◌≢◌, inl, inr, refl, sym, subst, ◌==◌, string_eq, if◌then◌else◌, arith, Bool-cases,
  Option-cases, some_inj,
}
use enterprise_sales_intelli.Prelude.Keys.{Eq}
use enterprise_sales_intelli.Rules.Models.{
  BusinessRule, RuleConflict, soft_conflict, is_soft, is_hard,
}
use enterprise_sales_intelli.Rules.Values.{Values}
use enterprise_sales_intelli.Rules.Conflicts.{
  pairs, detect_pair, detect_range, detect_all, clash_type, interval, is_empty, is_equal, is_range,
  is_exclusion, is_duplicate,
}
use enterprise_sales_intelli.Rules.Conflicts.Resolution.{find_rule, find_rules, weaker, weakest}

pub All-append :
    {A : Type 0} (P : A → Type 0) (xs ys : List A) → All P xs → All P ys → All P (xs ++ ys)
All-append P [] ys hx hy = hy
All-append P (x ∷ xs) ys hx hy = (hx.0, All-append P xs ys hx.1 hy)

pub All-map :
    {A B : Type 0} (P : B → Type 0) (f : A → B) (xs : List A)
    → All (λ x. P (f x)) xs
    → All P (map f xs)
All-map P f [] h = tt
All-map P f (x ∷ xs) h = (h.0, All-map P f xs h.1)

pub All-pairs :
    {A : Type 0} (P : A → Type 0) (xs : List A)
    → All P xs
    → All (λ (q : A × A). P q.0 × P q.1) (pairs xs)
unfolding pairs
All-pairs P [] h = tt
All-pairs {A} P (x ∷ xs) h =
    All-append (λ (q : A × A). P q.0 × P q.1) (map (λ y. (x, y)) xs) (pairs xs)
      (All-map (λ (q : A × A). P q.0 × P q.1) (λ y. (x, y)) xs (with_first xs h.1))
      (All-pairs P xs h.1)
  where
    with_first : (ys : List A) → All P ys → All (λ y. P x × P y) ys
    with_first [] hs = tt
    with_first (y ∷ ys) hs = ((h.0, hs.0), with_first ys hs.1)

module _ {V N : Type 0} ⦃e : Eq V⦄ (p : Values V N) (rules : List (BusinessRule V)) where
  -- A rule is the one that its identifier finds.
  abbrev pub IsNamed : BusinessRule V → Type 0
  IsNamed r = find_rule r.rule_id rules ≡ some r

  -- A soft conflict is between two soft rules.
  abbrev pub Competes : RuleConflict → Type 0
  Competes c =
      c.conflict_type ≡ soft_conflict
      → (l r : BusinessRule V) × (c.rule_ids ≡ l.rule_id ∷ r.rule_id ∷ [])
        × (IsNamed l × is_soft l.constraint_type ≡ true)
        × (IsNamed r × is_soft r.constraint_type ≡ true)

  -- The identifier of a rule that is soft.
  abbrev pub IsSoftId : String → Type 0
  IsSoftId id =
      (r : BusinessRule V) × (find_rule id rules ≡ some r) × (is_soft r.constraint_type ≡ true)

  -- What is returned, if anything is, holds competing conflicts.
  abbrev Returns : Option (List RuleConflict) → Type 0
  Returns none = Unit
  Returns (some cs) = All Competes cs

  by_test :
      (b : Bool) (x y : Option (List RuleConflict))
      → (b ≡ true → Returns x)
      → (b ≡ false → Returns y)
      → Returns (if b then x else y)
  by_test true x y hx hy = hx refl
  by_test false x y hx hy = hy refl

  clash_type-hard : (l r : BusinessRule V) → clash_type p l r ≢ soft_conflict
  unfolding clash_type
  clash_type-hard l r h = ground arith

  detect_range-Returns : (id : String) (l r : BusinessRule V) → Returns (detect_range p id l r)
  unfolding detect_range
  detect_range-Returns id l r = elim (Option-cases (interval p l.operator l.value)) [
    | inl raised ↦ rw (raised, detect_range) tt
    | inr (i, li) ↦ elim (Option-cases (interval p r.operator r.value)) [
      | inl raised ↦ rw (li, raised, detect_range) tt
      | inr (j, rj) ↦
          rw (li, rj, detect_range)
            (by_test (is_empty p i j) _ _ (λ h. (λ kind. absurd (clash_type-hard l r kind), tt))
              (λ h.
                by_test (is_hard l.constraint_type && is_hard r.constraint_type) _ _
                  (λ h'. (λ kind. absurd (ground arith), tt)) (λ h'. tt)))
    ]
  ]

  detect_pair-Returns :
      (id : String) (l r : BusinessRule V) → IsNamed l → IsNamed r → Returns (detect_pair p id l r)
  unfolding detect_pair
  detect_pair-Returns id l r nl nr =
      by_test (not (l.field == r.field)) _ _ (λ h. tt)
        (λ h.
          by_test (is_duplicate p l r) _ _ (λ h. (λ kind. absurd (ground arith), tt))
            (λ h.
              by_test (is_exclusion p l r) _ _
                (λ h. (λ kind. absurd (clash_type-hard l r kind), tt))
                (λ h.
                  by_test (is_equal l.operator && is_equal r.operator && not (l.value == r.value)) _
                    _ (λ h. (λ kind. absurd (clash_type-hard l r kind), tt))
                    (λ h.
                      by_test (is_range l.operator && is_range r.operator) _ _
                        (λ h. detect_range-Returns id l r)
                        (λ h.
                          by_test
                            (is_soft l.constraint_type
                              && is_soft r.constraint_type
                              && not (l.value == r.value))
                            _ _
                            (λ h.
                              (λ kind. (l, r, refl, (nl, ground arith), (nr, ground arith)), tt))
                            (λ h. tt))))))

  pub detect_all-Competes :
      (new_id : ℕ → String) (n : ℕ) (qs : List (BusinessRule V × BusinessRule V))
      (cs : List RuleConflict)
      → All (λ (q : BusinessRule V × BusinessRule V). IsNamed q.0 × IsNamed q.1) qs
      → detect_all p new_id n qs ≡ some cs
      → All Competes cs
  unfolding detect_all
  detect_all-Competes new_id n [] cs named h = rw (sym (some_inj h)) tt
  detect_all-Competes new_id n ((l, r) ∷ qs) cs named h =
      elim (Option-cases (detect_pair p (new_id n) l r)) [
        | inl raised ↦ absurd (ground arith)
        | inr (first, made) ↦ elim (Option-cases (detect_all p new_id (n + 1) qs)) [
          | inl raised ↦ absurd (ground arith)
          | inr (others, rest) ↦
              let both : first ++ others ≡ cs = ground arith in
              let here =
                subst Returns made (detect_pair-Returns (new_id n) l r named.0.0 named.0.1) in
              subst (All Competes) both (
                All-append Competes first others here
                  (detect_all-Competes new_id (n + 1) qs others named.1 rest))
        ]
      ]

  pub find_rule-id :
      (id : String) (rs : List (BusinessRule V)) (r : BusinessRule V)
      → find_rule id rs ≡ some r
      → r.rule_id ≡ id
  unfolding find_rule
  find_rule-id id [] r h = absurd (ground arith)
  find_rule-id id (s ∷ rs) r h =
      ground (arith, string_eq.equals_iff s.rule_id id, find_rule-id id rs r)

  pub weakest-All :
      (P : BusinessRule V → Type 0) (r : BusinessRule V) (rs : List (BusinessRule V))
      → P r
      → All P rs
      → P (weakest r rs)
  unfolding weakest
  weakest-All P r [] h hs = h
  weakest-All P r (s ∷ rs) h hs = elim (Bool-cases (weaker r (weakest s rs))) [
    | inl less ↦ rw less h
    | inr more ↦ rw more (weakest-All P s rs hs.0 hs.1)
  ]

  -- A rule that its own identifier finds and that is soft.
  abbrev pub IsSoftRule : BusinessRule V → Type 0
  IsSoftRule r = IsNamed r × is_soft r.constraint_type ≡ true

  pub find_rules-IsNamed :
      (ids : List String) (rs : List (BusinessRule V))
      → find_rules ids rules ≡ some rs
      → All IsNamed rs
  unfolding find_rules
  find_rules-IsNamed [] rs h = subst (All IsNamed) (some_inj h) tt
  find_rules-IsNamed (id ∷ ids) rs h = elim (Option-cases (find_rule id rules)) [
    | inl lost ↦ absurd (ground arith)
    | inr (r, found) ↦ elim (Option-cases (find_rules ids rules)) [
      | inl lost ↦ absurd (ground arith)
      | inr (others, rest) ↦
          let both : r ∷ others ≡ rs = ground arith in
          subst (All IsNamed) both (
            subst (λ i. find_rule i rules ≡ some r) (sym (find_rule-id id rules r found)) found,
            find_rules-IsNamed ids others rest,
          )
    ]
  ]
