-- ===== src/Scoring/Models.antt =====
-- app/scoring/models.py and app/scoring/enums.py. Scores and weights are in hundredths, coverage in
-- ten-thousandths.
use enterprise_sales_intelli.Prelude.{ℕ, String, Option, List}

pub data MissingFieldPolicy : Type 0 where
  zero_policy neutral reweight : MissingFieldPolicy

pub data LeadRankStatus : Type 0 where
  scored partial_score not_scorable : LeadRankStatus

pub record ScoreComponentResult : Type 0 where
  pub component : String
  pub raw_score : ℕ
  pub weighted_score : ℕ
  pub weight : ℕ
  pub reason_codes : List String
  pub evidence_ids : List String

pub record LeadScore : Type 0 where
  pub lead_score_id : String
  pub task_id : String
  pub task_version : ℕ
  pub enterprise_id : String
  pub criteria_snapshot_id : String
  pub scoring_profile_id : String
  pub scoring_profile_version : ℕ
  pub total_score : Option ℕ
  pub component_scores : List ScoreComponentResult
  pub evidence_coverage : ℕ
  pub verification_status : String
  pub rank_status : LeadRankStatus
  pub created_at : ℕ

pub record VerifiedLeadSet : Type 0 where
  pub lead_set_id : String
  pub task_id : String
  pub task_version : ℕ
  pub criteria_snapshot_id : String
  pub scoring_profile_id : String
  pub lead_ids : List String
  pub lead_count : ℕ
  pub created_at : ℕ
