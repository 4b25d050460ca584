-- ===== src/Scoring/Leads.antt =====
-- app/scoring/engine.py: `DeterministicScoringEngine.build_lead_set`, and `derive_count` of
-- app/scoring/models.py.
pub mod Ranking
mod Tests
use enterprise_sales_intelli.Prelude.{
  ℕ, String, Bool, true, false, List, map, keep, take, length, ltb, get_or, if◌then◌else◌,
}
use enterprise_sales_intelli.Prelude.Sort.{sort, text_leq}
use enterprise_sales_intelli.Scoring.Models.{
  LeadRankStatus, scored, partial_score, not_scorable, LeadScore, VerifiedLeadSet,
}

abbrev pub order : LeadRankStatus → ℕ
order scored = 0
order partial_score = 1
order not_scorable = 2

abbrev pub points : LeadScore → ℕ
points s = get_or s.total_score 0

-- Whether the key `(order, -points, enterprise_id)` of one score is at most that of another.
unfoldable pub before : LeadScore → LeadScore → Bool
before x y =
    if ltb (order x.rank_status) (order y.rank_status)
    then true
    else if ltb (order y.rank_status) (order x.rank_status)
    then false
    else if ltb (points y) (points x)
    then true
    else if ltb (points x) (points y)
    then false
    else text_leq x.enterprise_id y.enterprise_id

abbrev pub is_scorable : LeadScore → Bool
is_scorable s = elim s.rank_status [ not_scorable ↦ false | _ ↦ true ]

unfoldable pub lead_ids_of : List LeadScore → ℕ → List String
lead_ids_of scores top_n =
    take top_n (map (λ (s : LeadScore). s.enterprise_id) (keep is_scorable (sort before scores)))

-- `build_lead_set`; the task version is the default one.
unfoldable pub build_lead_set :
    String → ℕ → String → String → String → List LeadScore → ℕ → VerifiedLeadSet
build_lead_set id now task criteria profile scores top_n =
    let ids = lead_ids_of scores top_n in
    record {
      lead_set_id = id;
      task_id = task;
      task_version = 1;
      criteria_snapshot_id = criteria;
      scoring_profile_id = profile;
      lead_ids = ids;
      lead_count = length ids;
      created_at = now;
    }
