-- ===== src/Scoring/Leads/Ranking.antt =====
-- The leads are the first of a ranking.
use enterprise_sales_intelli.Prelude.{
  ℕ, ◌≤◌, ◌<◌, String, true, false, List, [], ◌∷◌, All, get_or, ◌⊎◌, inl, inr, ap, ltb, Bool,
  Bool-cases, map, keep, take, length, length-take-le, ◌≡◌, refl, arith,
}
use mathlib.Core.List.{Perm}
use enterprise_sales_intelli.Prelude.Sort.{
  sort, text_leq, IsOrder, IsSorted, sort-perm, sort-IsSorted,
}
use enterprise_sales_intelli.Prelude.Sort.TextOrder.{text_leq-IsOrder}
use enterprise_sales_intelli.Scoring.Models.{
  LeadRankStatus, scored, partial_score, not_scorable, LeadScore,
}
use enterprise_sales_intelli.Scoring.Leads.{
  order, points, before, is_scorable, lead_ids_of, build_lead_set,
}

before_total : (x y : LeadScore) → before x y ≡ false → before y x ≡ true
unfolding before
before_total x y h = ground (arith, text_leq-IsOrder.total x.enterprise_id y.enterprise_id)

before_trans : (x y z : LeadScore) → before x y ≡ true → before y z ≡ true → before x z ≡ true
unfolding before
before_trans x y z h k =
    ground (arith, text_leq-IsOrder.trans x.enterprise_id y.enterprise_id z.enterprise_id)

before-IsOrder : IsOrder before
before-IsOrder = record { total = before_total; trans = before_trans }

-- A status that is ranked ahead of another one.
pub data IsAhead : LeadRankStatus → LeadRankStatus → Type 0 where
  scored_partial : IsAhead scored partial_score
  scored_unscored : IsAhead scored not_scorable
  partial_unscored : IsAhead partial_score not_scorable

-- A lead is ranked no later than another one: its status is ahead; or the statuses are the same and
-- it has more points, no total counting as zero; or these are the same too, and its identifier is
-- not behind the other's.
pub data RanksBefore (x y : LeadScore) : Type 0 where
  by_status : IsAhead x.rank_status y.rank_status → RanksBefore x y
  by_points :
      x.rank_status ≡ y.rank_status
      → get_or y.total_score 0 < get_or x.total_score 0
      → RanksBefore x y
  by_identifier :
      x.rank_status ≡ y.rank_status
      → get_or x.total_score 0 ≡ get_or y.total_score 0
      → text_leq x.enterprise_id y.enterprise_id ≡ true
      → RanksBefore x y

-- Each score ranks before all that come behind it.
abbrev pub IsRanked : List LeadScore → Type 0
IsRanked [] = Unit
IsRanked (x ∷ xs) = All (RanksBefore x) xs × IsRanked xs

-- The statuses of the scores that make a lead.
unfoldable pub makes_lead : LeadScore → Bool
makes_lead s = go s.rank_status
  where
    go : LeadRankStatus → Bool
    go scored = true
    go partial_score = true
    go not_scorable = false

scorable-makes_lead : (s : LeadScore) → is_scorable s ≡ makes_lead s
unfolding makes_lead
scorable-makes_lead s = go s.rank_status
  where
    go :
        (r : LeadRankStatus)
        → is_scorable (record s { rank_status = r }) ≡ makes_lead (record s { rank_status = r })
    go scored = refl
    go partial_score = refl
    go not_scorable = refl

keep-makes_lead : (xs : List LeadScore) → keep is_scorable xs ≡ keep makes_lead xs
keep-makes_lead [] = refl
keep-makes_lead (x ∷ xs) = ground (arith, scorable-makes_lead x, keep-makes_lead xs)

order_cases : (a b : LeadRankStatus) → IsAhead a b ⊎ ((a ≡ b) ⊎ (order b < order a))
order_cases scored scored = inr (inl refl)
order_cases scored partial_score = inl scored_partial
order_cases scored not_scorable = inl scored_unscored
order_cases partial_score scored = inr (inr (omega arith))
order_cases partial_score partial_score = inr (inl refl)
order_cases partial_score not_scorable = inl partial_unscored
order_cases not_scorable scored = inr (inr (omega arith))
order_cases not_scorable partial_score = inr (inr (omega arith))
order_cases not_scorable not_scorable = inr (inl refl)

before-RanksBefore : (x y : LeadScore) → before x y ≡ true → RanksBefore x y
unfolding before
before-RanksBefore x y h = elim (order_cases x.rank_status y.rank_status) [
  | inl ahead ↦ by_status ahead
  | inr (inr behind) ↦ absurd (ground arith)
  | inr (inl same) ↦
      let level : order x.rank_status ≡ order y.rank_status = ap order same in
      elim (Bool-cases (ltb (points y) (points x))) [
        | inl more ↦ by_points same (ground arith)
        | inr less ↦ by_identifier same (ground arith) (ground arith)
      ]
]

All-RanksBefore :
    (x : LeadScore) (ys : List LeadScore) → All (λ y. before x y ≡ true) ys → All (RanksBefore x) ys
All-RanksBefore x [] h = tt
All-RanksBefore x (y ∷ ys) h = (before-RanksBefore x y h.0, All-RanksBefore x ys h.1)

IsSorted-IsRanked : (xs : List LeadScore) → IsSorted before xs → IsRanked xs
IsSorted-IsRanked [] h = tt
IsSorted-IsRanked (x ∷ xs) h = (All-RanksBefore x xs h.0, IsSorted-IsRanked xs h.1)

-- The leads of a set are the identifiers of the first scores, as many as are wanted, of a ranking
-- from which those that cannot be scored are left out. The ranking is a permutation of all the
-- scores in which each one is ahead of the later ones: by a better status, or with the same status
-- by more points, or with the same points too by an identifier that is not behind. The number of
-- leads is at most the number that is wanted, and is the lead count.
pub build_lead_set-ranks :
    (id task criteria profile : String) (now top_n : ℕ) (scores : List LeadScore)
    → let set = build_lead_set id now task criteria profile scores top_n in
      (ranked : List LeadScore) × Perm ranked scores
      × IsRanked ranked
      × (set.lead_ids
          ≡ take top_n (map (λ (s : LeadScore). s.enterprise_id) (keep makes_lead ranked)))
      × (length set.lead_ids ≤ top_n)
      × (set.lead_count ≡ length set.lead_ids)
unfolding build_lead_set lead_ids_of
build_lead_set-ranks id task criteria profile now top_n scores =
    let ranked = sort before scores in
    (
      ranked,
      sort-perm before scores,
      IsSorted-IsRanked ranked (sort-IsSorted before before-IsOrder scores),
      ap (λ l. take top_n (map (λ (s : LeadScore). s.enterprise_id) l)) (keep-makes_lead ranked),
      length-take-le top_n (map (λ (s : LeadScore). s.enterprise_id) (keep is_scorable ranked)),
      refl,
    )
