-- ===== src/Examples/EngineExamples.antt =====
-- The scoring engine, the recommender, the analysis and the diagnostic on concrete campaigns.
use Prim.Native.Nat.{◌/◌}
use moment_flow.Common.{
  is_some, ℕ, ◌+◌, ◌*◌, ltb, pos, pos_part, ◌≡◌, refl, true, false, none, some, List, [], ◌∷◌, ◌++◌,
  ◌⊎◌, map, find?, Text, str, text_eq, if◌then◌else◌, strip, rstrip, lstrip, is_space, negate, ◌+ℤ◌,
}
use moment_flow.Store.Exec.{Error, ok, err}
use moment_flow.Intelligence.{CampaignDataBundle, CampaignRequest, RawDate, Severity}
use moment_flow.Intelligence.Moments.{
  parse_reference_date, completed_outputs, has_usable_media_kit, clicks_7d, total_clicks,
  has_recent_report, has_activity, has_negative, has_recent_output, is_active, is_finished,
  status_of, is_insufficient,
}
use moment_flow.Intelligence.Moments.Reported.{reference_of}
use moment_flow.Intelligence.Moments.Rules.{Moment, content_gap, gap_moment, low_engagement}
use moment_flow.Intelligence.Scoring.{
  Floats, Grade, scored, to_score, saturate, code_of, int_text, join_comma, priority_weight,
}
use moment_flow.Intelligence.Scoring.Scores.{
  momentum_score, opportunity_score, recent_content_value, content_gap_value, readiness_score,
  clicks_30d, count_within, has_quality_issues, is_overdue, link_inactivity_value, risk_score,
  timing_relevance,
}
use moment_flow.Intelligence.Scoring.Engine.{
  ScoringResponse, score, validated, is_valid_score_set, check_consistency, collect, has_no_score,
}
use moment_flow.Intelligence.Scoring.Overflow.{raises, overflows}
use moment_flow.Intelligence.Scoring.Justified.{warning_codes}
use moment_flow.Intelligence.Scoring.Scored.{IsToldOf, scoring_warnings, score-codes}
use moment_flow.Intelligence.Scoring.Returned.{IsRefused, score_returns}
use moment_flow.Intelligence.Recommendations.Engine.{RecommendationsResponse, recommend}
use moment_flow.Intelligence.Recommendations.Advised.{IsAdvice, has_data, recommend-IsAdvice}
use moment_flow.Intelligence.Recommendations.Warned.{recommend-codes}
use moment_flow.Intelligence.Analysis.{
  CampaignAnalysisResponse, eval_content_outputs, derive_health, eval_risk, eval_smart_links,
  eval_reports, eval_media_kit,
}
use moment_flow.Intelligence.Analysis.Service.{analyse, eval_rest}
use moment_flow.Intelligence.Analysis.Assessed.{health_of, analyse_answers}
use moment_flow.Intelligence.Analysis.Critical.{critical-detected}
use moment_flow.Intelligence.Orchestrator.{
  part_of, default_analysis, no_scores, unavailable, failures, merged_warnings, merged_explanations,
  run,
}
use moment_flow.Intelligence.Orchestrator.Deduplicated.{IsDistinct}
use moment_flow.Intelligence.Orchestrator.Composed.{
  IsWhole, run-IsDistinct, run-IsWhole, run_degraded,
}
use moment_flow.Intelligence.Scoring.Blends.{
  blend, grade_for, grade_of, grade_text, priority_of, priority_shares, standing_shares,
}
use moment_flow.Examples.IntelligenceExamples.{formats, bundle, request}

-- Ten-thousandths, for the numbers that are met here.
abbrev sum_of : List ℕ → ℕ
sum_of [] = 0
sum_of (n ∷ ns) = n + sum_of ns

abbrev fixed : Floats ℕ
fixed = record {
  hundredths = λ n. n * 100;
  of_int = λ n. pos_part n * 10000;
  multiply = λ a b. a * b / 10000;
  total = sum_of;
  ratio = λ a b. some (a * 10000 / b);
  divide = λ a b. a * 10000 / b;
  less = ltb;
  round = λ a. pos ((a + 5000) / 10000);
  fixed_2 = λ a. formats.number_text (a / 100);
}

-- What a result holds, or a response to a request without data.
abbrev blank : ScoringResponse
blank = record {
  request_id = [];
  workspace_id = [];
  payload_version = [];
  scores = no_scores;
  grade = Grade.grade_unknown;
  explanations = [];
  warnings = [];
}

abbrev scoring : ScoringResponse
scoring = part_of (λ s. s) blank (score fixed formats request)

scored_request : score fixed formats request ≡ ok scoring
unfolding text_eq strip rstrip lstrip is_space negate ◌+ℤ◌ has_usable_media_kit clicks_7d
    total_clicks has_recent_report has_activity has_negative has_recent_output is_active is_finished
    parse_reference_date status_of completed_outputs scored to_score saturate code_of int_text
    join_comma priority_weight recent_content_value content_gap_value readiness_score clicks_30d
    count_within has_quality_issues is_overdue link_inactivity_value risk_score timing_relevance
    momentum_score opportunity_score blend grade_for grade_of grade_text priority_of priority_shares
    standing_shares is_valid_score_set check_consistency collect has_no_score score validated
scored_request = refl

score-codes_example : IsToldOf formats request scoring
score-codes_example = score-codes fixed formats request scoring scored_request

score_returns_example :
    ((overflows fixed formats bundle (some 1000) ≡ true)
      × (score fixed formats request ≡ err Error.overflow_error))
    ⊎ ((overflows fixed formats bundle (some 1000) ≡ false)
        × (((answer : ScoringResponse) × (score fixed formats request ≡ ok answer))
            ⊎ IsRefused fixed formats request))
unfolding parse_reference_date
score_returns_example = score_returns fixed formats request

recommend-IsAdvice_example :
    (answer : RecommendationsResponse) × (recommend fixed formats request ≡ ok answer)
    × IsAdvice formats request answer.recommendations
recommend-IsAdvice_example = recommend-IsAdvice fixed formats request scoring scored_request

recommend-codes_example :
    (answer : RecommendationsResponse) × (recommend fixed formats request ≡ ok answer)
    × (warning_codes answer.warnings
        ≡ warning_codes (scoring_warnings formats request)
          ++ (if has_data bundle then [] else str "insufficient_data" ∷ []))
recommend-codes_example = recommend-codes fixed formats request scoring scored_request

analyse_answers_example :
    ((raises formats bundle (reference_of formats request) ≡ true)
      × (analyse formats request ≡ err Error.overflow_error))
    ⊎ ((raises formats bundle (reference_of formats request) ≡ false)
        × ((answer : CampaignAnalysisResponse) × (analyse formats request ≡ ok answer)
            × (answer.result.campaign_health ≡ health_of formats bundle)))
analyse_answers_example = analyse_answers formats request

run-IsDistinct_example :
    (IsDistinct (map (λ w. w.code) (run fixed formats request).warnings)
      × IsDistinct (map (λ e. e.code) (run fixed formats request).explanations))
    × ((t : Text)
        → (find? (λ w. text_eq t w.code) (run fixed formats request).warnings
            ≡ find? (λ w. text_eq t w.code) (merged_warnings fixed formats request))
          × (find? (λ e. text_eq t e.code) (run fixed formats request).explanations
              ≡ find? (λ e. text_eq t e.code) (merged_explanations fixed formats request)))
run-IsDistinct_example = run-IsDistinct fixed formats request

run-IsWhole_example :
    IsWhole formats request (run fixed formats request) × (failures fixed formats request ≡ [])
run-IsWhole_example = run-IsWhole fixed formats request scoring scored_request

-- An active campaign with nothing behind it: critical.
abbrev idle_bundle : CampaignDataBundle
idle_bundle = record {
  campaign = bundle.campaign;
  artist = none;
  track = none;
  smart_link_stats = some (record {
    total_clicks = some (pos 0);
    clicks_last_7_days = none;
    clicks_last_30_days = none;
    active_links = none;
  });
  content_outputs = [];
  previous_reports = [];
  media_kits = [];
  goals = [];
}

abbrev request_for : RawDate → CampaignDataBundle → CampaignRequest
request_for date d = record {
  request_id = str "r2";
  workspace_id = str "w1";
  payload_version = str "1.0";
  reference_date = date;
  bundle = d;
}

abbrev idle : CampaignRequest
idle = request_for (RawDate.of_date 1000) idle_bundle

abbrev no_answer : CampaignAnalysisResponse
no_answer = record {
  request_id = [];
  workspace_id = [];
  payload_version = [];
  result = default_analysis;
  explanations = [];
  warnings = [];
}

abbrev idle_answer : CampaignAnalysisResponse
idle_answer = part_of (λ a. a) no_answer (analyse formats idle)

critical-detected_example :
    (content_gap formats idle_bundle (some 1000) ≡ ok (some (gap_moment formats idle_bundle)))
    × ((gap_moment formats idle_bundle).severity ≡ Severity.high)
    × (is_some (low_engagement formats idle_bundle) ≡ true)
    × ((m : Moment) → low_engagement formats idle_bundle ≡ some m → m.severity ≡ Severity.high)
unfolding analyse parse_reference_date is_insufficient eval_content_outputs completed_outputs
    derive_health eval_rest eval_risk is_active text_eq status_of eval_smart_links has_activity
    eval_reports eval_media_kit has_usable_media_kit has_recent_report
critical-detected_example = critical-detected formats idle idle_answer refl refl

-- Completed content, and a reference date on the third day of the calendar.
abbrev early_bundle : CampaignDataBundle
early_bundle = record {
  campaign = bundle.campaign;
  artist = none;
  track = none;
  smart_link_stats = none;
  content_outputs = record { status = some (str "completed"); created_at = some 2 } ∷ [];
  previous_reports = [];
  media_kits = [];
  goals = [];
}

abbrev early : CampaignRequest
early = request_for (RawDate.of_date 3) early_bundle

run_degraded_example :
    ((run fixed formats early).analysis ≡ default_analysis)
    × ((run fixed formats early).scores ≡ no_scores)
    × ((run fixed formats early).grade ≡ Grade.grade_unknown)
    × ((run fixed formats early).recommendations ≡ [])
    × (find? (λ w. text_eq (str "analysis_unavailable") w.code) (run fixed formats early).warnings
        ≡ some (unavailable (str "analysis")))
    × (find? (λ w. text_eq (str "scoring_unavailable") w.code) (run fixed formats early).warnings
        ≡ some (unavailable (str "scoring")))
unfolding parse_reference_date completed_outputs text_eq
run_degraded_example = run_degraded fixed formats early refl
