-- ===== src/Research/ToolRuns/Expiry.antt =====
-- What a run that is too old does to the answers.
use enterprise_sales_intelli.Prelude.{
  ℕ, ◌≤◌, ◌≡◌, refl, String, true, none, some, List, [], ◌∷◌, string_eq, arith,
}
use enterprise_sales_intelli.Prelude.Dict.{Dict, lookup, insert, values}
use enterprise_sales_intelli.Research.ToolRuns.{
  ToolRun, save_tool_run, first_success, is_expired, find_successful_tool_run,
}

module _ {D : Type 0} where
  first_success-insert :
      (hash k : String) (r old : ToolRun D) (d : Dict String (ToolRun D))
      → lookup k d ≡ none
      → first_success hash (values d) ≡ some old
      → first_success hash (values (insert k r d)) ≡ some old
  unfolding lookup insert first_success
  first_success-insert hash k r old [] fresh h = absurd (cc)
  first_success-insert hash k r old ((j, x) ∷ d) fresh h =
      ground (arith, first_success-insert hash k r old d)

  -- Runs are saved one after the other.
  unfoldable pub save_all : List (ToolRun D) → Dict String (ToolRun D) → Dict String (ToolRun D)
  save_all [] d = d
  save_all (r ∷ rs) d = save_all rs (save_tool_run r d)

  -- Each of them has an identifier that is not used yet.
  abbrev pub AreFresh : List (ToolRun D) → Dict String (ToolRun D) → Type 0
  AreFresh [] d = Unit
  AreFresh (r ∷ rs) d = (lookup r.tool_run_id d ≡ none) × AreFresh rs (save_tool_run r d)

  first_success-save_all :
      (hash : String) (rs : List (ToolRun D)) (old : ToolRun D) (d : Dict String (ToolRun D))
      → AreFresh rs d
      → first_success hash (values d) ≡ some old
      → first_success hash (values (save_all rs d)) ≡ some old
  unfolding save_all save_tool_run
  first_success-save_all hash [] old d fresh h = h
  first_success-save_all hash (r ∷ rs) old d (fresh, more) h =
      first_success-save_all hash rs old (save_tool_run r d) more
        (first_success-insert hash r.tool_run_id r old d fresh h)

  -- Once the first successful run of a request is older than the age that is asked for, the request is
  -- never answered from the stored runs again: at no later time, and whatever runs are saved, under
  -- unused identifiers, after it.
  pub expired-hides-later_runs :
      (hash : String) (age now later : ℕ) (rs : List (ToolRun D)) (old : ToolRun D)
      (d : Dict String (ToolRun D))
      → first_success hash (values d) ≡ some old
      → is_expired (some age) now old ≡ true
      → now ≤ later
      → AreFresh rs d
      → find_successful_tool_run hash (some age) later (save_all rs d) ≡ none
  unfolding find_successful_tool_run
  expired-hides-later_runs hash age now later rs old d first expired le fresh =
      let still : is_expired (some age) later old ≡ true = ground (arith, expired) in
      rw (first_success-save_all hash rs old d fresh first, still, find_successful_tool_run) refl
