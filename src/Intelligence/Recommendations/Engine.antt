-- ===== src/Intelligence/Recommendations/Engine.antt =====
-- A request answered with recommendations, on the scores of the scoring engine
-- (intelligence_engine/app/services/recommendation_engine.py).
use moment_flow.Common.{
  ℕ, ℤ, Bool, Option, none, some, is_some, List, [], ◌∷◌, ◌++◌, select, Text, str, if◌then◌else◌,
}
use moment_flow.Store.Exec.{Result, ok}
use moment_flow.Intelligence.{
  Formats, CampaignDataBundle, CampaignRequest, Explanation, Warning, warning, Severity, ActionType,
  ◌>>=◌,
}
use moment_flow.Intelligence.Sorting.{key_at_most, sort_by}
use moment_flow.Intelligence.Moments.{is_one_of, parse_reference_date}
use moment_flow.Intelligence.Scoring.{Floats, int_text}
use moment_flow.Intelligence.Scoring.Engine.{ScoreSet, ScoringResponse, has_no_score, score}
use moment_flow.Intelligence.Recommendations.{Recommendation, explained}
use moment_flow.Intelligence.Recommendations.Rules.{
  recommend_release, recommend_milestone, recommend_growth, recommend_media_kit, recommend_report,
  recommend_story, recommend_smart_link,
}

pub record RecommendationsResponse : Type 0 where
  pub request_id : Text
  pub workspace_id : Text
  pub payload_version : Text
  pub recommendations : List Recommendation
  pub explanations : List Explanation
  pub warnings : List Warning

-- The texts of the actions.
unfoldable pub action_value : ActionType → Text
action_value ActionType.create_release_post = str "create_release_post"
action_value ActionType.create_story = str "create_story"
action_value ActionType.create_milestone_post = str "create_milestone_post"
action_value ActionType.create_weekly_growth_post = str "create_weekly_growth_post"
action_value ActionType.create_media_kit = str "create_media_kit"
action_value ActionType.create_report = str "create_report"
action_value ActionType.improve_smart_link = str "improve_smart_link"
action_value ActionType.wait_for_more_data = str "wait_for_more_data"
action_value ActionType.no_action = str "no_action"

-- The key of the sort: priority, then the higher confidence, then the action.
unfoldable pub goes_before : Recommendation → Recommendation → Bool
goes_before a b =
    key_at_most a.priority a.confidence (action_value a.action) b.priority b.confidence
      (action_value b.action)

-- `_sorted`
unfoldable pub sort_recommendations : List Recommendation → List Recommendation
sort_recommendations recs = sort_by goes_before recs

-- `_no_action`
abbrev pub no_action : Recommendation
no_action = record {
  action = ActionType.no_action;
  priority = Severity.low;
  confidence = 50;
  reason = str "The campaign looks healthy; no campaign action is needed right now.";
  suggested_content_pack = none;
  expected_outputs = [];
  explanations =
      explained (str "campaign_healthy")
        (str "No release, milestone, growth, content or smart-link trigger fired.");
}

-- `_wait_for_more_data`
abbrev pub wait_for_more_data : Recommendation
wait_for_more_data = record {
  action = ActionType.wait_for_more_data;
  priority = Severity.low;
  confidence = 30;
  reason = str "There is not enough campaign data to recommend an action yet.";
  suggested_content_pack = none;
  expected_outputs = [];
  explanations =
      explained (str "insufficient_data")
        (str "No score could be computed from the provided data.");
}

-- `str` of a score that may be missing
abbrev pub score_text : Formats → Option ℤ → Text
score_text f none = str "None"
score_text f (some n) = int_text f n

-- `_envelope_explanations`
abbrev pub envelope_explanations : Formats → ScoreSet → List Explanation
envelope_explanations f s = explained (str "scoring_basis") (
    str "Recommendations derived from scores — readiness="
    ++ (score_text f s.campaign_readiness_score
        ++ (str ", momentum="
            ++ (score_text f s.momentum_score
                ++ (str ", opportunity="
                    ++ (score_text f s.content_opportunity_score
                        ++ (str ", risk="
                            ++ (score_text f s.risk_score
                                ++ (str ", priority="
                                    ++ (score_text f s.priority_score ++ str "."))))))))))

-- `_CARRIED_WARNING_CODES`
abbrev pub carried_codes : List Text
carried_codes =
    str "inconsistent_campaign_dates"
    ∷ str "negative_smart_link_stats"
    ∷ str "future_content_output_date"
    ∷ str "invalid_reference_date"
    ∷ []

abbrev pub is_carried : Warning → Bool
is_carried w = is_one_of carried_codes w.code

-- `_maybe`, on a bucket that is filled from the front
abbrev pub maybe : Option Recommendation → List Recommendation → List Recommendation
maybe none recs = recs
maybe (some rec) recs = rec ∷ recs

-- The recommendations of the rules, in the order in which they fire.
unfoldable pub fired : Formats → CampaignDataBundle → Option ℕ → List Recommendation
fired f d day =
    let weekly = recommend_growth f d in
    maybe (recommend_release f d day) (
      maybe (recommend_milestone f d) (
        maybe weekly (
          maybe (recommend_media_kit f d) (
            maybe (recommend_report f d day) (
              maybe (recommend_story f d (is_some weekly))
                (maybe (recommend_smart_link f d) []))))))

-- `if not recommendations: recommendations.append(self._no_action())`
abbrev pub or_no_action : List Recommendation → List Recommendation
or_no_action [] = no_action ∷ []
or_no_action (rec ∷ recs) = rec ∷ recs

-- `_build`
abbrev pub respond :
    Formats
    → CampaignRequest
    → ScoreSet
    → List Recommendation
    → List Warning
    → RecommendationsResponse
respond f r scores recs warnings = record {
  request_id = r.request_id;
  workspace_id = r.workspace_id;
  payload_version = r.payload_version;
  recommendations = recs;
  explanations = envelope_explanations f scores;
  warnings = warnings;
}

abbrev pub too_little_data : Warning
too_little_data =
    warning (str "insufficient_data") (str "Not enough campaign data to recommend an action yet.")

-- `recommend` once the scores are computed
unfoldable pub advise : Formats → CampaignRequest → ScoringResponse → RecommendationsResponse
advise f r scoring =
    let warnings = select is_carried scoring.warnings in
    let day = (parse_reference_date f r.reference_date).0 in
    if has_no_score scoring.scores
    then respond f r scoring.scores (wait_for_more_data ∷ []) (warnings ++ (too_little_data ∷ []))
    else respond f r scoring.scores (sort_recommendations (or_no_action (fired f r.bundle day)))
        warnings

module _ {F : Type 0} (x : Floats F) (f : Formats) where
  unfoldable pub recommend : CampaignRequest → Result RecommendationsResponse
  recommend r = do scoring ← score x f r; ok (advise f r scoring)
