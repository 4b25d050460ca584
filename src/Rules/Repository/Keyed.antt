-- ===== src/Rules/Repository/Keyed.antt =====
-- No two stored rules have one source key.
use enterprise_sales_intelli.Prelude.{
  String, Option, All, none, some, List, [], ◌∷◌, ◌≡◌, ◌≢◌, inl, inr, sym, subst, ap, ◌∙◌, get_or,
  ◌==◌, string_eq, option_eq, option_beq_iff, arith, Bool-cases, Option-cases, beq-cases,
}
use mathlib.Core.List.{Mem, mem-cons_self, mem-cons_of_mem}
use enterprise_sales_intelli.Prelude.Dict.{Dict, lookup, insert, values, lookup-insert_cases}
use enterprise_sales_intelli.Rules.Models.{BusinessRule}
use enterprise_sales_intelli.Rules.Repository.{RuleRepository, first_of, upsert}

-- Two entries with one source key, which is not empty, are one entry.
abbrev pub IsKeyed : {V : Type 0} → Dict String (BusinessRule V) → Type 0
IsKeyed {V} rules =
    (id other : String) (r q : BusinessRule V)
    → lookup id rules ≡ some r
    → lookup other rules ≡ some q
    → get_or r.source_key "" ≢ ""
    → r.source_key ≡ q.source_key
    → id ≡ other

-- A rule that is stored has no key that is not found.
first_of-none :
    {V : Type 0} (key : Option String) (id : String) (r : BusinessRule V)
    (rules : Dict String (BusinessRule V))
    → first_of (λ (q : BusinessRule V). q.source_key == key) (values rules) ≡ none
    → lookup id rules ≡ some r
    → r.source_key ≢ key
unfolding first_of lookup
first_of-none key id r [] absent found same = ground arith
first_of-none key id r ((j, q) ∷ rest) absent found same = elim (Bool-cases (q.source_key == key)) [
  | inl here ↦ absurd (ground arith)
  | inr there ↦ elim (Bool-cases (j == id)) [
    | inl at ↦ ground (arith, option_beq_iff q.source_key key)
    | inr below ↦ first_of-none key id r rest (ground arith) (ground arith) same
  ]
]

key_of : {V : Type 0} {r q : BusinessRule V} → r ≡ q → r.source_key ≡ q.source_key
key_of same = ap (λ (q : BusinessRule _). q.source_key) same

-- The first rule with a key is one of the rules, and has the key.
first_of-some :
    {V : Type 0} (key : Option String) (r : BusinessRule V) (rs : List (BusinessRule V))
    → first_of (λ (q : BusinessRule V). q.source_key == key) rs ≡ some r
    → Mem r rs × (r.source_key ≡ key)
unfolding first_of
first_of-some key r [] h = absurd (ground arith)
first_of-some key r (q ∷ rs) h = elim (Bool-cases (q.source_key == key)) [
  | inl here ↦
      let same : r ≡ q = ground arith in
      (
        subst (λ z. Mem r (z ∷ rs)) same mem-cons_self,
        ground (arith, option_beq_iff q.source_key key),
      )
  | inr there ↦
      let (in_rest, same) = first_of-some key r rs (ground arith) in
      (mem-cons_of_mem q in_rest, same)
]

first_of-All :
    {V : Type 0} (key : Option String) (rs : List (BusinessRule V))
    → first_of (λ (q : BusinessRule V). q.source_key == key) rs ≡ none
    → All (λ (q : BusinessRule V). q.source_key ≢ key) rs
unfolding first_of
first_of-All key [] h = tt
first_of-All key (q ∷ rs) h = elim (Bool-cases (q.source_key == key)) [
  | inl here ↦ absurd (ground arith)
  | inr there ↦
      (λ same. ground (arith, option_beq_iff q.source_key key), first_of-All key rs (ground arith))
]

-- What `upsert` may do: a rule that has no key, or a key that no stored rule has, is stored and
-- returned; else a stored rule with the key is returned, and nothing changes.
pub data Upserted {V E : Type 0} (rule : BusinessRule V) (s : RuleRepository V E)
    : BusinessRule V × RuleRepository V E → Type 0 where
  added :
      (get_or rule.source_key "" ≢ ""
        → All (λ (q : BusinessRule V). q.source_key ≢ rule.source_key) (values s.rules))
      → Upserted rule s (rule, record s { rules = insert rule.rule_id rule s.rules })
  found :
      (r : BusinessRule V)
      → get_or rule.source_key "" ≢ ""
      → Mem r (values s.rules)
      → r.source_key ≡ rule.source_key
      → Upserted rule s (r, s)

-- A rule whose key is its own may be stored.
insert-IsKeyed :
    {V : Type 0} (rule : BusinessRule V) (rules : Dict String (BusinessRule V))
    → IsKeyed rules
    → (get_or rule.source_key "" ≢ ""
        → (id : String) (r : BusinessRule V) → lookup id rules ≡ some r
        → r.source_key ≢ rule.source_key)
    → IsKeyed (insert rule.rule_id rule rules)
insert-IsKeyed rule rules keyed fresh id other r q hr hq full same =
    elim (lookup-insert_cases id rule.rule_id rule rules hr) [
      | inl (mine, new_r) ↦ elim (lookup-insert_cases other rule.rule_id rule rules hq) [
        | inl (yours, new_q) ↦ sym mine ∙ yours
        | inr (differ, old_q) ↦ absurd (
            fresh (λ empty. full (ap (λ k. get_or k "") (sym (key_of new_r)) ∙ empty)) other q old_q
              (sym same ∙ sym (key_of new_r)))
      ]
      | inr (differ, old_r) ↦ elim (lookup-insert_cases other rule.rule_id rule rules hq) [
        | inl (yours, new_q) ↦ absurd (
            fresh (λ empty. full (ap (λ k. get_or k "") (same ∙ sym (key_of new_q)) ∙ empty)) id r
              old_r (same ∙ sym (key_of new_q)))
        | inr (differ', old_q) ↦ keyed id other r q old_r old_q full same
      ]
    ]

-- Storing a rule keeps at most one rule for each source key. A rule without a key, or with one that
-- no stored rule has, is stored and returned; otherwise a stored rule with its key is returned and
-- nothing changes.
pub upsert-IsKeyed :
    {V E : Type 0} (rule : BusinessRule V) (s : RuleRepository V E)
    → IsKeyed s.rules
    → IsKeyed (upsert rule s).1.rules × Upserted rule s (upsert rule s)
unfolding upsert
upsert-IsKeyed rule s keyed = elim (beq-cases (get_or rule.source_key "") "") [
  | inl (t, empty) ↦
      rw (t, upsert)
        (
          insert-IsKeyed rule s.rules keyed (λ full. absurd (full empty)),
          added (λ full. absurd (full empty)),
        )
  | inr (f, full) ↦
      elim (Option-cases
        (first_of (λ (r : BusinessRule _). r.source_key == rule.source_key) (values s.rules))) [
          | inl absent ↦
              rw (f, absent, upsert)
                (
                  insert-IsKeyed rule s.rules keyed
                      (λ full' id r. first_of-none rule.source_key id r s.rules absent),
                  added (λ full'. first_of-All rule.source_key (values s.rules) absent),
                )
          | inr (existing, known) ↦
              let (stored, same) = first_of-some rule.source_key existing (values s.rules) known in
              rw (f, known, upsert) (keyed, found existing full stored same)
        ]
]
