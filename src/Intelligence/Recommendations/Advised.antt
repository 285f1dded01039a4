-- ===== src/Intelligence/Recommendations/Advised.antt =====
-- What the list of recommendations holds.
use moment_flow.Common.{
  is_empty, ℕ, ◌+◌, ◌==◌, ◌≡◌, refl, ◌∙◌, Bool, true, false, ◌&&◌, ◌||◌, not, Option, is_some, List,
  [], ◌∷◌, arith, inl, inr, Bool-cases, if◌then◌else◌,
}
use moment_flow.Store.Exec.{ok}
use moment_flow.Intelligence.{Formats, CampaignDataBundle, CampaignRequest, ActionType}
use moment_flow.Intelligence.Sorting.{count, IsSorted, sort-count, sort-IsSorted, key_at_most_total}
use moment_flow.Intelligence.Moments.Detected.{bit}
use moment_flow.Intelligence.Moments.Reported.{reference_of}
use moment_flow.Intelligence.Scoring.{Floats, Grade}
use moment_flow.Intelligence.Scoring.Scores.{has_subject}
use moment_flow.Intelligence.Scoring.Engine.{ScoreSet, ScoringResponse, has_no_score, score}
use moment_flow.Intelligence.Scoring.Overflow.{has_traction_data}
use moment_flow.Intelligence.Scoring.Scored.{Computes, score-Computes}
use moment_flow.Intelligence.Recommendations.{Recommendation}
use moment_flow.Intelligence.Recommendations.Engine.{
  RecommendationsResponse, action_value, goes_before, sort_recommendations, wait_for_more_data,
  fired, or_no_action, advise, recommend,
}
use moment_flow.Intelligence.Recommendations.Fired.{
  is_supported, action_index, is_action, rule_for, fired-count, fired-supported,
}

-- Whether there is anything to score: the artist and the goals are not.
abbrev pub has_data : CampaignDataBundle → Bool
has_data d = has_subject d || has_traction_data d

-- Whether an action is advised.
abbrev pub is_advised : Formats → CampaignDataBundle → Option ℕ → ActionType → Bool
is_advised f d day ActionType.wait_for_more_data = not (has_data d)
is_advised f d day ActionType.no_action = has_data d && is_empty (fired f d day)
is_advised f d day u = has_data d && is_some (rule_for f d day u)

-- The scores are all missing where there is nothing to score.
pub no_score-has_data :
    (d : CampaignDataBundle) (s : ScoreSet) (g : Grade)
    → Computes d s g
    → has_no_score s ≡ not (has_data d)
unfolding has_no_score
no_score-has_data d s g (ea, em, eo, ed, ep, _) = rw (ea, em, eo, ed, ep) ground arith

goes_before_total : (a b : Recommendation) → goes_before a b ≡ false → goes_before b a ≡ true
unfolding goes_before
goes_before_total a b h =
    key_at_most_total a.priority a.confidence (action_value a.action) b.priority b.confidence
      (action_value b.action) h

sort-recommendations-IsSorted :
    (recs : List Recommendation) → IsSorted goes_before (sort_recommendations recs)
unfolding sort_recommendations
sort-recommendations-IsSorted recs = sort-IsSorted goes_before goes_before_total recs

sort_recommendations-count :
    (p : Recommendation → Bool) (recs : List Recommendation)
    → count p (sort_recommendations recs) ≡ count p recs
unfolding sort_recommendations
sort_recommendations-count p recs = sort-count goes_before p recs

-- The actions of the rules, or of none.
or_no_action-count :
    (u : ActionType) (recs : List Recommendation) (n : ℕ)
    → count (is_action u) recs ≡ n
    → count (is_action u) (or_no_action recs)
      ≡ (if action_index u == 8 then bit (is_empty recs) else 0) + n
or_no_action-count u [] n h = ground arith
or_no_action-count u (rec ∷ recs) n h = ground arith

or_no_action-supported :
    (recs : List Recommendation)
    → count (λ rec. not (is_supported rec)) recs ≡ 0
    → count (λ rec. not (is_supported rec)) (or_no_action recs) ≡ 0
or_no_action-supported [] h = refl
or_no_action-supported (rec ∷ recs) h = h

module _ (f : Formats) (d : CampaignDataBundle) (day : Option ℕ) where
  advised-index :
      (u : ActionType)
      → has_data d ≡ true
      → (if action_index u == 8 then bit (is_empty (fired f d day)) else 0)
          + bit (is_some (rule_for f d day u))
        ≡ bit (is_advised f d day u)
  advised-index ActionType.create_release_post h = ground arith
  advised-index ActionType.create_story h = ground arith
  advised-index ActionType.create_milestone_post h = ground arith
  advised-index ActionType.create_weekly_growth_post h = ground arith
  advised-index ActionType.create_media_kit h = ground arith
  advised-index ActionType.create_report h = ground arith
  advised-index ActionType.improve_smart_link h = ground arith
  advised-index ActionType.wait_for_more_data h = ground arith
  advised-index ActionType.no_action h = ground arith

  advised-count :
      (u : ActionType)
      → has_data d ≡ true
      → count (is_action u) (or_no_action (fired f d day)) ≡ bit (is_advised f d day u)
  advised-count u h =
      or_no_action-count u (fired f d day) (bit (is_some (rule_for f d day u)))
        (fired-count f d day u)
      ∙ advised-index u h

  waiting-count :
      (u : ActionType)
      → has_data d ≡ false
      → count (is_action u) (wait_for_more_data ∷ []) ≡ bit (is_advised f d day u)
  waiting-count ActionType.create_release_post h = ground arith
  waiting-count ActionType.create_story h = ground arith
  waiting-count ActionType.create_milestone_post h = ground arith
  waiting-count ActionType.create_weekly_growth_post h = ground arith
  waiting-count ActionType.create_media_kit h = ground arith
  waiting-count ActionType.create_report h = ground arith
  waiting-count ActionType.improve_smart_link h = ground arith
  waiting-count ActionType.wait_for_more_data h = ground arith
  waiting-count ActionType.no_action h = ground arith

module _ (f : Formats) (r : CampaignRequest) (s : ScoringResponse) where
  advise-count :
      (u : ActionType)
      → has_no_score s.scores ≡ not (has_data r.bundle)
      → count (is_action u) (advise f r s).recommendations
        ≡ bit (is_advised f r.bundle (reference_of f r) u)
  unfolding advise
  advise-count u h = elim (Bool-cases (has_no_score s.scores)) [
    | inl t ↦ rw (t, advise) (waiting-count f r.bundle (reference_of f r) u (ground arith))
    | inr n ↦
        rw (n, advise)
          (sort_recommendations-count (is_action u)
              (or_no_action (fired f r.bundle (reference_of f r)))
            ∙ advised-count f r.bundle (reference_of f r) u (ground arith))
  ]

  advise-IsSorted : IsSorted goes_before (advise f r s).recommendations
  unfolding advise
  advise-IsSorted = elim (Bool-cases (has_no_score s.scores)) [
    | inl t ↦ rw (t, advise) tt
    | inr n ↦
        rw (n, advise)
          (sort-recommendations-IsSorted (or_no_action (fired f r.bundle (reference_of f r))))
  ]

  advise-supported : count (λ rec. not (is_supported rec)) (advise f r s).recommendations ≡ 0
  unfolding advise
  advise-supported = elim (Bool-cases (has_no_score s.scores)) [
    | inl t ↦ rw (t, advise) refl
    | inr n ↦
        let recs = fired f r.bundle (reference_of f r) in
        rw (n, advise)
          (sort_recommendations-count (λ rec. not (is_supported rec)) (or_no_action recs)
            ∙ or_no_action-supported recs (fired-supported f r.bundle (reference_of f r)))
  ]

-- A list in order, with exactly the actions that are advised, once each, all in the catalogue.
abbrev pub IsAdvice : Formats → CampaignRequest → List Recommendation → Type 0
IsAdvice f r recs =
    IsSorted goes_before recs
    × (count (λ rec. not (is_supported rec)) recs ≡ 0)
    × ((u : ActionType)
        → count (is_action u) recs ≡ bit (is_advised f r.bundle (reference_of f r) u))

module _ {F : Type 0} (x : Floats F) (f : Formats) (r : CampaignRequest) where
  -- Where the scoring engine answers a request, so does the recommender, whose list is in order of priority,
  -- confidence and action; it names only packs and templates of the catalogue; and it holds exactly
  -- one recommendation of each action whose rule fires, `no_action` alone where none does, and
  -- `wait_for_more_data` alone where campaign, track, statistics, content, reports and media kits
  -- are all missing.
  pub recommend-IsAdvice :
      (scoring : ScoringResponse)
      → score x f r ≡ ok scoring
      → (answer : RecommendationsResponse) × (recommend x f r ≡ ok answer)
        × IsAdvice f r answer.recommendations
  unfolding recommend
  recommend-IsAdvice s scored = (
    advise f r s,
    rw (scored, recommend) refl,
    (
      advise-IsSorted f r s,
      advise-supported f r s,
      λ u.
          advise-count f r s u
            (no_score-has_data r.bundle s.scores s.grade (score-Computes x f r s scored)),
    ),
  )
