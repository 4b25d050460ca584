-- ===== src/Research/Budget.antt =====
-- app/research/runtime.py, `BudgetGuard`: `reserve` runs under a lock; `now` is what `monotonic`
-- returns.
pub mod Bounds
use enterprise_sales_intelli.Prelude.{
  ℕ, ◌+◌, ◌≤◌, Bool, true, false, ◌&&◌, ◌||◌, leb, ltb, if◌then◌else◌,
}
use enterprise_sales_intelli.Research.Models.{
  ToolOperation, enterprise_search, enterprise_profile, map_search, web_search, web_fetch,
  ResearchBudget,
}

-- `self.used`: a count for each operation, for all calls and for pages.
pub record Used : Type 0 where
  pub tool_calls : ℕ
  pub enterprise_searches : ℕ
  pub enterprise_profiles : ℕ
  pub maps : ℕ
  pub web_searches : ℕ
  pub web_fetches : ℕ
  pub web_pages : ℕ

pub record BudgetGuard : Type 0 where
  pub budget : ResearchBudget
  pub used : Used
  pub started_at : ℕ

-- `getattr(self.budget, LIMIT_FIELDS[operation])`
unfoldable pub limit : ToolOperation → ResearchBudget → ℕ
limit enterprise_search b = b.max_enterprise_search_calls
limit enterprise_profile b = b.max_enterprise_profile_calls
limit map_search b = b.max_map_calls
limit web_search b = b.max_web_search_calls
limit web_fetch b = b.max_web_fetch_calls

-- `self.used[operation]`
unfoldable pub used_of : ToolOperation → Used → ℕ
used_of enterprise_search u = u.enterprise_searches
used_of enterprise_profile u = u.enterprise_profiles
used_of map_search u = u.maps
used_of web_search u = u.web_searches
used_of web_fetch u = u.web_fetches

-- The counts after a reservation.
unfoldable pub count : ToolOperation → ℕ → Used → Used
count enterprise_search n u = record u {
  tool_calls = u.tool_calls + n;
  enterprise_searches = u.enterprise_searches + n;
}
count enterprise_profile n u = record u {
  tool_calls = u.tool_calls + n;
  enterprise_profiles = u.enterprise_profiles + n;
}
count map_search n u = record u { tool_calls = u.tool_calls + n; maps = u.maps + n }
count web_search n u = record u { tool_calls = u.tool_calls + n; web_searches = u.web_searches + n }
count web_fetch n u = record u {
  tool_calls = u.tool_calls + n;
  web_fetches = u.web_fetches + n;
  web_pages = u.web_pages + n;
}

-- `operation == "web_fetch"`
abbrev pub is_web_fetch : ToolOperation → Bool
is_web_fetch web_fetch = true
is_web_fetch _ = false

unfoldable pub reserve : ToolOperation → ℕ → ℕ → BudgetGuard → Bool × BudgetGuard
reserve operation amount now g =
    if leb (g.started_at + g.budget.max_runtime_seconds) now
    then (false, g)
    else if ltb g.budget.max_tool_calls (g.used.tool_calls + amount)
        || ltb (limit operation g.budget) (used_of operation g.used + amount)
    then (false, g)
    else if is_web_fetch operation && ltb g.budget.max_web_pages (g.used.web_pages + amount)
    then (false, g)
    else (true, record g { used = count operation amount g.used })
