-- ===== src/Intelligence/Orchestrator/Composed.antt =====
-- What the diagnostic holds where its stages answer, and where they raise.
use mathlib.Core.Path.{subst}
use moment_flow.Common.{
  ◌≡◌, refl, sym, true, false, some, [], map, find?, Text, str, text_eq, arith, inl, inr,
  Bool-cases,
}
use moment_flow.Store.Exec.{Error, ok, err, Result-cases}
use moment_flow.Intelligence.{Formats, CampaignRequest}
use moment_flow.Intelligence.Moments.{is_insufficient}
use moment_flow.Intelligence.Moments.Rules.{content_gap}
use moment_flow.Intelligence.Moments.Detector.{MomentsResponse, detect}
use moment_flow.Intelligence.Moments.Ordered.{IsOrdered}
use moment_flow.Intelligence.Moments.Reported.{
  reference_of, detect-IsOrdered, detect_returns, detect_insufficient, same_moments, detect_raised,
}
use moment_flow.Intelligence.Scoring.{Floats, Grade}
use moment_flow.Intelligence.Scoring.Engine.{ScoringResponse, score}
use moment_flow.Intelligence.Scoring.Overflow.{raises}
use moment_flow.Intelligence.Scoring.Scored.{Computes, score-Computes, score_early}
use moment_flow.Intelligence.Analysis.Service.{analyse}
use moment_flow.Intelligence.Analysis.{CampaignAnalysisResponse}
use moment_flow.Intelligence.Analysis.Assessed.{health_of, analyse_answers}
use moment_flow.Intelligence.Recommendations.Engine.{RecommendationsResponse, recommend}
use moment_flow.Intelligence.Recommendations.Advised.{IsAdvice, recommend-IsAdvice}
use moment_flow.Intelligence.Orchestrator.{
  IntelligenceResponse, default_analysis, no_scores, unavailable, failures, merged_warnings,
  merged_explanations, run,
}
use moment_flow.Intelligence.Orchestrator.Deduplicated.{
  IsDistinct, dedup_by_code-IsDistinct, find?-dedup_by_code,
}

module _ {F : Type 0} (x : Floats F) (f : Formats) (r : CampaignRequest) where
  -- A diagnostic tells of no code twice: of each code that the stages warn of or explain by, it keeps
  -- the first that is told, and no other code.
  pub run-IsDistinct :
      (IsDistinct (map (λ w. w.code) (run x f r).warnings)
        × IsDistinct (map (λ e. e.code) (run x f r).explanations))
      × ((t : Text)
          → (find? (λ w. text_eq t w.code) (run x f r).warnings
              ≡ find? (λ w. text_eq t w.code) (merged_warnings x f r))
            × (find? (λ e. text_eq t e.code) (run x f r).explanations
                ≡ find? (λ e. text_eq t e.code) (merged_explanations x f r)))
  unfolding run
  run-IsDistinct = (
    (
      dedup_by_code-IsDistinct (λ w. w.code) (merged_warnings x f r),
      dedup_by_code-IsDistinct (λ e. e.code) (merged_explanations x f r),
    ),
    λ t. (
      find?-dedup_by_code (λ w. w.code) t (merged_warnings x f r),
      find?-dedup_by_code (λ e. e.code) t (merged_explanations x f r),
    ),
  )

-- The moments of an answer are in order, with or without data.
detected-IsOrdered :
    (f : Formats) (r : CampaignRequest) (answer : MomentsResponse)
    → detect f r ≡ ok answer
    → IsOrdered answer.moments
detected-IsOrdered f r answer h = elim (Bool-cases (is_insufficient r.bundle)) [
  | inl t ↦
      subst (λ ms. IsOrdered ms)
        (sym (same_moments answer _ (detect f r) h (detect_insufficient f r t))) tt
  | inr enough ↦ elim (Result-cases (content_gap f r.bundle (reference_of f r))) [
    | inr (e, raised) ↦ ground (arith, detect_raised f r e enough raised)
    | inl (gap, made) ↦
        let (a, ea, sorted, _) = detect-IsOrdered f r gap enough made in
        subst (λ ms. IsOrdered ms) (sym (same_moments answer a (detect f r) h ea)) sorted
  ]
]

-- Where nothing raises in the scores, nothing does in the moments.
detect_ok :
    (f : Formats) (r : CampaignRequest)
    → raises f r.bundle (reference_of f r) ≡ false
    → (answer : MomentsResponse) × (detect f r ≡ ok answer)
detect_ok f r h = elim (detect_returns f r) [
  | inl (_, answered) ↦ answered
  | inr (t, raised) ↦ ground arith
]

-- The four sections, by what the data holds.
abbrev pub IsWhole : Formats → CampaignRequest → IntelligenceResponse → Type 0
IsWhole f r answer =
    (answer.analysis.campaign_health ≡ health_of f r.bundle)
    × Computes r.bundle answer.scores answer.grade
    × IsOrdered answer.moments
    × IsAdvice f r answer.recommendations

module _ {F : Type 0} (x : Floats F) (f : Formats) (r : CampaignRequest) where
  score_ok_raises :
      (scoring : ScoringResponse)
      → score x f r ≡ ok scoring
      → raises f r.bundle (reference_of f r) ≡ false
  score_ok_raises s h = elim (Bool-cases (raises f r.bundle (reference_of f r))) [
    | inl t ↦ ground (arith, score_early x f r t)
    | inr n ↦ n
  ]

  stages-IsWhole :
      (a : CampaignAnalysisResponse) (s : ScoringResponse) (m : MomentsResponse)
      (p : RecommendationsResponse)
      → analyse f r ≡ ok a
      → score x f r ≡ ok s
      → detect f r ≡ ok m
      → recommend x f r ≡ ok p
      → a.result.campaign_health ≡ health_of f r.bundle
      → IsAdvice f r p.recommendations
      → IsWhole f r (run x f r) × (failures x f r ≡ [])
  unfolding run
  stages-IsWhole a s m p ea es em ep health advice =
      rw (ea, es, em, ep, run)
        ((health, score-Computes x f r s es, detected-IsOrdered f r m em, advice), refl)

  analyse_raised :
      raises f r.bundle (reference_of f r) ≡ true → analyse f r ≡ err Error.overflow_error
  analyse_raised h = elim (analyse_answers f r) [
    | inl (_, raised) ↦ raised
    | inr (n, _) ↦ ground arith
  ]

  recommend_raised :
      raises f r.bundle (reference_of f r) ≡ true → recommend x f r ≡ err Error.overflow_error
  unfolding recommend
  recommend_raised h = rw (score_early x f r h, recommend) refl

module _ {F : Type 0} (x : Floats F) (f : Formats) (r : CampaignRequest) where
  -- Where the scoring engine answers a request, the diagnostic is whole: no stage is unavailable, the
  -- health is the one that the data calls for, the scores and the grade are computed as the data
  -- allows, the moments are in order, and the recommendations are exactly the advised actions.
  pub run-IsWhole :
      (scoring : ScoringResponse)
      → score x f r ≡ ok scoring
      → IsWhole f r (run x f r) × (failures x f r ≡ [])
  run-IsWhole s scored = elim (analyse_answers f r) [
    | inl (t, _) ↦ ground (arith, score_ok_raises x f r s scored)
    | inr (n, (a, ea, health)) ↦
        let (m, em) = detect_ok f r n in
        let (p, ep, advice) = recommend-IsAdvice x f r s scored in
        stages-IsWhole x f r a s m p ea scored em ep health advice
  ]

  -- Where there is completed content and the reference date is among the first fourteen days of the
  -- calendar, the diagnostic still answers: without analysis, scores, grade and recommendations, and
  -- with the warnings that the analysis and the scoring are unavailable.
  pub run_degraded :
      raises f r.bundle (reference_of f r) ≡ true
      → ((run x f r).analysis ≡ default_analysis)
        × ((run x f r).scores ≡ no_scores)
        × ((run x f r).grade ≡ Grade.grade_unknown)
        × ((run x f r).recommendations ≡ [])
        × (find? (λ w. text_eq (str "analysis_unavailable") w.code) (run x f r).warnings
            ≡ some (unavailable (str "analysis")))
        × (find? (λ w. text_eq (str "scoring_unavailable") w.code) (run x f r).warnings
            ≡ some (unavailable (str "scoring")))
  unfolding run text_eq
  run_degraded h =
      rw
        (
          find?-dedup_by_code (λ w. w.code) (str "analysis_unavailable") (merged_warnings x f r),
          find?-dedup_by_code (λ w. w.code) (str "scoring_unavailable") (merged_warnings x f r),
          analyse_raised x f r h,
          score_early x f r h,
          recommend_raised x f r h,
          run,
        )
        (refl, refl, refl, refl, refl, refl)
