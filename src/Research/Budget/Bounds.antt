-- ===== src/Research/Budget/Bounds.antt =====
-- The budget is never overspent.
use enterprise_sales_intelli.Prelude.{
  ℕ, ◌+◌, ◌≤◌, ◌≡◌, refl, true, false, ◌&&◌, ◌||◌, sym, ap, subst, leb, ltb, arith, inl, inr,
  Bool-cases, ◌⊎◌,
}
use enterprise_sales_intelli.Research.Models.{
  ToolOperation, enterprise_search, enterprise_profile, map_search, web_search, web_fetch,
  ResearchBudget,
}
use enterprise_sales_intelli.Research.Budget.{
  Used, BudgetGuard, limit, used_of, count, is_web_fetch, reserve,
}

-- Each count is within its limit, and the count of all calls is the sum of those of the operations.
pub record IsWithin (g : BudgetGuard) : Type 0 where
  pub calls : g.used.tool_calls ≤ g.budget.max_tool_calls
  pub operations : (o : ToolOperation) → used_of o g.used ≤ limit o g.budget
  pub pages : g.used.web_pages ≤ g.budget.max_web_pages
  pub total :
      g.used.tool_calls
      ≡ g.used.enterprise_searches + g.used.enterprise_profiles + g.used.maps + g.used.web_searches
        + g.used.web_fetches

-- What `reserve` has checked and does when it answers yes.
pub record Reserved (o : ToolOperation) (n now : ℕ) (g h : BudgetGuard) : Type 0 where
  pub in_time : now + 1 ≤ g.started_at + g.budget.max_runtime_seconds
  pub calls_left : g.used.tool_calls + n ≤ g.budget.max_tool_calls
  pub operation_left : used_of o g.used + n ≤ limit o g.budget
  pub pages_left : is_web_fetch o ≡ true → g.used.web_pages + n ≤ g.budget.max_web_pages
  pub counted : h ≡ record g { used = count o n g.used }

-- The outcomes of `reserve`.
pub reserve_cases :
    (o : ToolOperation) (n now : ℕ) (g : BudgetGuard)
    → (reserve o n now g ≡ (false, g))
      ⊎ (((reserve o n now g).0 ≡ true) × Reserved o n now g (reserve o n now g).1)
unfolding reserve
reserve_cases o n now g =
    let late = leb (g.started_at + g.budget.max_runtime_seconds) now in
    let many =
      ltb g.budget.max_tool_calls (g.used.tool_calls + n)
      || ltb (limit o g.budget) (used_of o g.used + n) in
    let pages = is_web_fetch o && ltb g.budget.max_web_pages (g.used.web_pages + n) in
    elim (Bool-cases late) [
      | inl e ↦ inl (rw (e, reserve) refl)
      | inr a ↦ elim (Bool-cases many) [
        | inl e ↦ inl (rw (a, e, reserve) refl)
        | inr b ↦ elim (Bool-cases pages) [
          | inl e ↦ inl (rw (a, b, e, reserve) refl)
          | inr c ↦
              rw (a, b, c, reserve)
                (inr (
                  refl,
                  record {
                    in_time = ground arith;
                    calls_left = ground arith;
                    operation_left = ground arith;
                    pages_left = λ w. ground arith;
                    counted = refl;
                  },
                ))
        ]
      ]
    ]

count-limit :
    (o q : ToolOperation) (n : ℕ) (u : Used) (b : ResearchBudget)
    → used_of o u + n ≤ limit o b
    → used_of q u ≤ limit q b
    → used_of q (count o n u) ≤ limit q b
unfolding used_of count limit
count-limit enterprise_search enterprise_search n u b h k = h
count-limit enterprise_search enterprise_profile n u b h k = k
count-limit enterprise_search map_search n u b h k = k
count-limit enterprise_search web_search n u b h k = k
count-limit enterprise_search web_fetch n u b h k = k
count-limit enterprise_profile enterprise_search n u b h k = k
count-limit enterprise_profile enterprise_profile n u b h k = h
count-limit enterprise_profile map_search n u b h k = k
count-limit enterprise_profile web_search n u b h k = k
count-limit enterprise_profile web_fetch n u b h k = k
count-limit map_search enterprise_search n u b h k = k
count-limit map_search enterprise_profile n u b h k = k
count-limit map_search map_search n u b h k = h
count-limit map_search web_search n u b h k = k
count-limit map_search web_fetch n u b h k = k
count-limit web_search enterprise_search n u b h k = k
count-limit web_search enterprise_profile n u b h k = k
count-limit web_search map_search n u b h k = k
count-limit web_search web_search n u b h k = h
count-limit web_search web_fetch n u b h k = k
count-limit web_fetch enterprise_search n u b h k = k
count-limit web_fetch enterprise_profile n u b h k = k
count-limit web_fetch map_search n u b h k = k
count-limit web_fetch web_search n u b h k = k
count-limit web_fetch web_fetch n u b h k = h

pub count-tool_calls :
    (o : ToolOperation) (n : ℕ) (u : Used) → (count o n u).tool_calls ≡ u.tool_calls + n
unfolding count
count-tool_calls enterprise_search n u = refl
count-tool_calls enterprise_profile n u = refl
count-tool_calls map_search n u = refl
count-tool_calls web_search n u = refl
count-tool_calls web_fetch n u = refl

count-web_pages :
    (o : ToolOperation) (n : ℕ) (u : Used) (b : ResearchBudget)
    → (is_web_fetch o ≡ true → u.web_pages + n ≤ b.max_web_pages)
    → u.web_pages ≤ b.max_web_pages
    → (count o n u).web_pages ≤ b.max_web_pages
unfolding count
count-web_pages enterprise_search n u b h k = k
count-web_pages enterprise_profile n u b h k = k
count-web_pages map_search n u b h k = k
count-web_pages web_search n u b h k = k
count-web_pages web_fetch n u b h k = h refl

abbrev by_operation : Used → ℕ
by_operation u =
    u.enterprise_searches + u.enterprise_profiles + u.maps + u.web_searches + u.web_fetches

count-by_operation :
    (o : ToolOperation) (n : ℕ) (u : Used) → by_operation (count o n u) ≡ by_operation u + n
unfolding count
count-by_operation enterprise_search n u = omega arith
count-by_operation enterprise_profile n u = omega arith
count-by_operation map_search n u = omega arith
count-by_operation web_search n u = omega arith
count-by_operation web_fetch n u = omega arith

-- A reservation, granted or not, keeps every count within its limit.
pub reserve-IsWithin :
    (o : ToolOperation) (n now : ℕ) (g : BudgetGuard) → IsWithin g → IsWithin (reserve o n now g).1
reserve-IsWithin o n now g w = elim (reserve_cases o n now g) [
  | inl same ↦ subst IsWithin (sym (ap (λ p. p.1) same)) w
  | inr (granted, r) ↦ subst IsWithin (sym r.counted) (record {
    calls = omega (arith, count-tool_calls o n g.used, r.calls_left);
    operations = λ q. count-limit o q n g.used g.budget r.operation_left (w.operations q);
    pages = count-web_pages o n g.used g.budget r.pages_left w.pages;
    total = omega (arith, count-tool_calls o n g.used, count-by_operation o n g.used, w.total);
  })
]
