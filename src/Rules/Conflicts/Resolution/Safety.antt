-- ===== src/Rules/Conflicts/Resolution/Safety.antt =====
-- Resolving what was detected suppresses soft rules alone.
use enterprise_sales_intelli.Prelude.{
  ℕ, String, Bool, true, not, some, List, [], ◌∷◌, ◌++◌, map, keep, All, ◌≡◌, inl, inr, refl, sym,
  ap, ◌∙◌, subst, ◌==◌, string_eq, arith, Bool-cases, Option-cases, some_inj,
}
use enterprise_sales_intelli.Prelude.Keys.{Eq}
use enterprise_sales_intelli.Prelude.Sort.{contains}
use enterprise_sales_intelli.Rules.Models.{
  BusinessRule, RuleConflict, RuleConflictType, narrower, direct_conflict, soft_conflict, is_soft,
  included, suppressed,
}
use enterprise_sales_intelli.Rules.Values.{Values}
use enterprise_sales_intelli.Rules.Conflicts.{pairs, detect}
use enterprise_sales_intelli.Rules.Conflicts.Resolution.{
  find_rules, weakest, softs, soft_loser, losers, all_losers, kept, dropped, is_in, resolve,
}
use enterprise_sales_intelli.Rules.Conflicts.Resolution.Losers.{
  All-append, All-pairs, IsNamed, Competes, IsSoftId, IsSoftRule, detect_all-Competes, weakest-All,
  find_rules-IsNamed,
}

-- A division of rules into included and suppressed ones, by a test that soft rules alone meet.
pub record Divided {V : Type 0} (rules inc sup : List (BusinessRule V)) : Type 0 where
  pub suppresses : BusinessRule V → Bool
  pub soft :
      All (λ (r : BusinessRule V). suppresses r ≡ true → is_soft r.constraint_type ≡ true) rules
  pub kept_rules :
      inc
      ≡ map
          (λ (r : BusinessRule V). record r { resolution_status = included })
          (keep (λ r. not (suppresses r)) rules)
  pub dropped_rules :
      sup
      ≡ map
          (λ (r : BusinessRule V). record r {
            resolution_status = suppressed;
            suppression_reason = some "SUPPRESSED_BY_USER_REQUIREMENT";
          })
          (keep suppresses rules)

module _ {V N : Type 0} ⦃e : Eq V⦄ (p : Values V N) (rules : List (BusinessRule V)) where
  soft_id : (r : BusinessRule V) → IsSoftRule p rules r → IsSoftId p rules r.rule_id
  soft_id r (named, soft) = (r, named, soft)

  softs-All :
      (found : List (BusinessRule V))
      → All (IsNamed p rules) found
      → All (IsSoftRule p rules) (softs found)
  softs-All [] named = tt
  softs-All (r ∷ rs) named = elim (Bool-cases (is_soft r.constraint_type)) [
    | inl soft ↦ rw (soft, softs, keep) ((named.0, soft), softs-All rs named.1)
    | inr other ↦ rw (other, softs, keep) (softs-All rs named.1)
  ]

  soft_loser-All :
      (found : List (BusinessRule V))
      → All (IsNamed p rules) found
      → All (IsSoftId p rules) (soft_loser found)
  unfolding soft_loser
  soft_loser-All found named = of_softs (softs found) (softs-All found named)
    where
      of_softs :
          (rs : List (BusinessRule V))
          → All (IsSoftRule p rules) rs
          → All
              (IsSoftId p rules)
              (elim rs [ [] ↦ [] | r ∷ others ↦ (weakest r others).rule_id ∷ [] ])
      of_softs [] soft = tt
      of_softs (r ∷ others) soft = (
        soft_id (weakest r others)
            (weakest-All p rules (IsSoftRule p rules) r others soft.0 soft.1),
        tt,
      )

  found_two :
      (l r : BusinessRule V)
      → IsNamed p rules l
      → IsNamed p rules r
      → find_rules (l.rule_id ∷ r.rule_id ∷ []) rules ≡ some (l ∷ r ∷ [])
  unfolding find_rules
  found_two l r nl nr = rw (nl, find_rules) (rw (nr, find_rules) refl)

  returned :
      (xs ids : List String)
      → some xs ≡ some ids
      → All (IsSoftId p rules) xs
      → All (IsSoftId p rules) ids
  returned xs ids same h = subst (All (IsSoftId p rules)) (some_inj same) h

  losers_of :
      (c : RuleConflict) (kind : RuleConflictType) (ids : List String)
      → c.conflict_type ≡ kind
      → Competes p rules c
      → losers p rules c ≡ some ids
      → All (IsSoftId p rules) ids
  unfolding losers
  losers_of c direct_conflict ids k comp h = elim (Bool-cases c.blocking) [
    | inl blocks ↦ returned [] ids (ground (arith, h, k, blocks)) tt
    | inr free ↦ elim (Option-cases (find_rules c.rule_ids rules)) [
      | inl lost ↦ absurd (ground (arith, h, k, free, lost))
      | inr (found, at) ↦
          returned (soft_loser found) ids (ground (arith, h, k, free, at))
            (soft_loser-All found (find_rules-IsNamed p rules c.rule_ids found at))
    ]
  ]
  losers_of c soft_conflict ids k comp h =
      let (l, r, ids_are, soft_l, soft_r) = comp k in
      let found = ap (λ i. find_rules i rules) ids_are ∙ found_two l r soft_l.0 soft_r.0 in
      let loser = weakest l (r ∷ []) in
      returned (loser.rule_id ∷ []) ids (ground (arith, h, k, found)) (
        soft_id loser (weakest-All p rules (IsSoftRule p rules) l (r ∷ []) soft_l (soft_r, tt)),
        tt,
      )
  losers_of c narrower ids k comp h = returned [] ids (ground (arith, h, k)) tt
  losers_of c _ ids k comp h = returned [] ids (ground (arith, h, k)) tt

  all_losers-soft :
      (cs : List RuleConflict) (ids : List String)
      → All (Competes p rules) cs
      → all_losers p rules cs ≡ some ids
      → All (IsSoftId p rules) ids
  unfolding all_losers
  all_losers-soft [] ids comp h = returned [] ids h tt
  all_losers-soft (c ∷ cs) ids comp h = elim (Option-cases (losers p rules c)) [
    | inl raised ↦ absurd (ground arith)
    | inr (first, lost) ↦ elim (Option-cases (all_losers p rules cs)) [
      | inl raised ↦ absurd (ground arith)
      | inr (others, rest) ↦ returned (first ++ others) ids (ground arith) (
          All-append (IsSoftId p rules) first others
            (losers_of c c.conflict_type first refl comp.0 lost)
            (all_losers-soft cs others comp.1 rest))
    ]
  ]

  contained :
      (id : String) (ids : List String)
      → All (IsSoftId p rules) ids
      → contains id ids ≡ true
      → IsSoftId p rules id
  unfolding contains
  contained id [] all h = absurd (ground arith)
  contained id (x ∷ xs) all h = elim (Bool-cases (x == id)) [
    | inl same ↦ subst (IsSoftId p rules) ((string_eq.equals_iff x id).0 same) all.0
    | inr other ↦ contained id xs all.1 (ground arith)
  ]

  -- A named rule whose identifier is suppressed is soft.
  suppressed_soft :
      (ids : List String) (r : BusinessRule V)
      → All (IsSoftId p rules) ids
      → IsNamed p rules r
      → is_in ids r ≡ true
      → is_soft r.constraint_type ≡ true
  suppressed_soft ids r all named h =
      let (s, found, soft) = contained r.rule_id ids all h in
      subst (λ (q : BusinessRule V). is_soft q.constraint_type ≡ true)
        (some_inj (sym found ∙ named)) soft

  -- What is suppressed is soft.
  gone_soft :
      (ids : List String) (rs : List (BusinessRule V))
      → All (IsSoftId p rules) ids
      → All (IsNamed p rules) rs
      → All (λ (r : BusinessRule V). is_in ids r ≡ true → is_soft r.constraint_type ≡ true) rs
  gone_soft ids [] all named = tt
  gone_soft ids (r ∷ rs) all named =
      (suppressed_soft ids r all named.0, gone_soft ids rs all named.1)

  -- Where each rule is the one that its identifier finds, resolving the conflicts that were
  -- detected among the rules divides them by some test that soft rules alone meet. The rules that
  -- do not meet it are the included ones, in their order, each as it was but for its status; those
  -- that do are the suppressed ones, each as it was but for its status and the reason. So every
  -- rule is on one of the two sides, and no hard requirement is dropped or changed.
  pub resolve-keeps_hard :
      (new_id : ℕ → String) (conflicts : List RuleConflict)
      (included_rules suppressed_rules : List (BusinessRule V))
      → All (IsNamed p rules) rules
      → detect p new_id rules ≡ some conflicts
      → resolve p rules conflicts ≡ some (included_rules, suppressed_rules)
      → Divided rules included_rules suppressed_rules
  unfolding resolve detect
  resolve-keeps_hard new_id conflicts inc sup named detected resolved =
      elim (Option-cases (all_losers p rules conflicts)) [
        | inl raised ↦ absurd (ground arith)
        | inr (ids, lost) ↦
            let comp =
              detect_all-Competes p rules new_id 0 (pairs rules) conflicts
                (All-pairs (IsNamed p rules) rules named) detected in
            let sides : (
              map kept (keep (λ r. not (is_in ids r)) rules),
              map dropped (keep (is_in ids) rules),
            )
                ≡ (inc, sup) =
              ground arith in
            record {
              suppresses = is_in ids;
              soft = gone_soft ids rules (all_losers-soft conflicts ids comp lost) named;
              kept_rules =
                  sym (ap (λ (s : List (BusinessRule V) × List (BusinessRule V)). s.0) sides);
              dropped_rules =
                  sym (ap (λ (s : List (BusinessRule V) × List (BusinessRule V)). s.1) sides);
            }
      ]
