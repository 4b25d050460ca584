-- ===== src/Scoring/Leads/Tests.antt =====
-- Two leads with the same points, and one that cannot be scored.
use enterprise_sales_intelli.Prelude.{
  ◌≤◌, some, none, List, [], ◌∷◌, map, keep, take, length, ◌≡◌, refl,
}
use mathlib.Core.List.{Perm}
use enterprise_sales_intelli.Prelude.Sort.{sort, insert_sorted}
use enterprise_sales_intelli.Scoring.Models.{LeadScore, scored, not_scorable}
use enterprise_sales_intelli.Scoring.Leads.{before, lead_ids_of, build_lead_set}
use enterprise_sales_intelli.Scoring.Leads.Ranking.{IsRanked, makes_lead, build_lead_set-ranks}

program : Unit {0}
unfolding sort insert_sorted before lead_ids_of build_lead_set
program = tt

abbrev first : LeadScore
first = record {
  lead_score_id = "l1";
  task_id = "t1";
  task_version = 1;
  enterprise_id = "e2";
  criteria_snapshot_id = "c1";
  scoring_profile_id = "p1";
  scoring_profile_version = 1;
  total_score = some 8000;
  component_scores = [];
  evidence_coverage = 10000;
  verification_status = "VERIFIED";
  rank_status = scored;
  created_at = 1;
}

abbrev second : LeadScore
second = record first { enterprise_id = "e1" }

abbrev unscored : LeadScore
unscored = record first { enterprise_id = "e0"; total_score = none; rank_status = not_scorable }

abbrev scores : List LeadScore
scores = unscored ∷ first ∷ second ∷ []

by_identifier : (build_lead_set "s1" 1 "t1" "c1" "p1" scores 5).lead_ids ≡ "e1" ∷ "e2" ∷ []
unfolding program
by_identifier = refl

build_lead_set-ranks_example :
    (ranked : List LeadScore) × Perm ranked scores
    × IsRanked ranked
    × ((build_lead_set "s1" 1 "t1" "c1" "p1" scores 1).lead_ids
        ≡ take 1 (map (λ (s : LeadScore). s.enterprise_id) (keep makes_lead ranked)))
    × (length (build_lead_set "s1" 1 "t1" "c1" "p1" scores 1).lead_ids ≤ 1)
    × ((build_lead_set "s1" 1 "t1" "c1" "p1" scores 1).lead_count
        ≡ length (build_lead_set "s1" 1 "t1" "c1" "p1" scores 1).lead_ids)
build_lead_set-ranks_example = build_lead_set-ranks "s1" "t1" "c1" "p1" 1 1 scores
