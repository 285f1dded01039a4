-- ===== src/Intelligence/Orchestrator.antt =====
-- The four services run for one diagnostic
-- (intelligence_engine/app/services/intelligence_orchestrator.py).
pub mod Deduplicated
pub mod Composed
use moment_flow.Common.{
  ℕ, ℤ, Bool, Option, none, some, List, [], ◌∷◌, ◌++◌, length, any, Text, str, text_eq,
  if◌then◌else◌,
}
use moment_flow.Store.Exec.{Result, ok, err}
use moment_flow.Intelligence.{Formats, CampaignRequest, Explanation, Warning}
use moment_flow.Intelligence.Moments.Rules.{Moment}
use moment_flow.Intelligence.Moments.Detector.{MomentsResponse, detect}
use moment_flow.Intelligence.Scoring.{Floats, Grade, int_text}
use moment_flow.Intelligence.Scoring.Blends.{grade_text}
use moment_flow.Intelligence.Scoring.Engine.{ScoreSet, ScoringResponse, score}
use moment_flow.Intelligence.Analysis.{
  CampaignHealth, CampaignAnalysisResult, CampaignAnalysisResponse, health_text,
}
use moment_flow.Intelligence.Analysis.Service.{analyse}
use moment_flow.Intelligence.Recommendations.{Recommendation}
use moment_flow.Intelligence.Recommendations.Engine.{
  RecommendationsResponse, action_value, recommend,
}

pub record IntelligenceResponse : Type 0 where
  pub request_id : Text
  pub workspace_id : Text
  pub payload_version : Text
  pub analysis : CampaignAnalysisResult
  pub scores : ScoreSet
  pub grade : Grade
  pub moments : List Moment
  pub recommendations : List Recommendation
  pub summary : Text
  pub explanations : List Explanation
  pub warnings : List Warning

-- `CampaignAnalysisResult()` and `ScoreSet()`
abbrev pub default_analysis : CampaignAnalysisResult
default_analysis = record {
  campaign_health = CampaignHealth.unknown_health;
  summary = str "";
  strengths = [];
  weaknesses = [];
  opportunities = [];
  risks = [];
}

abbrev pub no_scores : ScoreSet
no_scores = record {
  campaign_readiness_score = none;
  momentum_score = none;
  content_opportunity_score = none;
  risk_score = none;
  priority_score = none;
}

abbrev pub unavailable : Text → Warning
unavailable stage = record {
  code = stage ++ str "_unavailable";
  message = str "The " ++ (stage ++ str " stage could not be completed; its section was omitted.");
  details = (str "stage", stage) ∷ [];
}

-- `_safe`: what is left of a stage that raised is a warning
module _ {A : Type 0} where
  abbrev pub failure_of : Text → Result A → List Warning
  failure_of stage (ok a) = []
  failure_of stage (err e) = unavailable stage ∷ []

  -- `resp.… if resp else …`
  abbrev pub part_of : {B : Type 0} → (A → B) → B → Result A → B
  part_of part default (ok a) = part a
  part_of part default (err e) = default

-- `_dedup_by_code`: the first of each code, in order
module _ {A : Type 0} (code : A → Text) where
  unfoldable pub dedup_after : List Text → List A → List A
  dedup_after seen [] = []
  dedup_after seen (item ∷ items) =
      if any (text_eq (code item)) seen
      then dedup_after seen items
      else item ∷ dedup_after (code item ∷ seen) items

  abbrev pub dedup_by_code : List A → List A
  dedup_by_code items = dedup_after [] items

-- `fmt`
abbrev pub fmt : Formats → Option ℤ → Text
fmt f none = str "n/a"
fmt f (some n) = int_text f n

abbrev pub top_action : List Recommendation → Text
top_action [] = []
top_action (rec ∷ recs) = str ", top action " ++ action_value rec.action

-- `_summary`
abbrev pub counts_text : Formats → List Moment → List Recommendation → Text
counts_text f moments recs =
    f.number_text (length moments)
    ++ (str " moment(s) detected; "
        ++ (f.number_text (length recs)
            ++ (str " recommendation(s)" ++ (top_action recs ++ str "."))))

abbrev pub scores_text : Formats → ScoreSet → Text
scores_text f s =
    str "Scores — readiness "
    ++ (fmt f s.campaign_readiness_score
        ++ (str ", momentum "
            ++ (fmt f s.momentum_score
                ++ (str ", opportunity "
                    ++ (fmt f s.content_opportunity_score
                        ++ (str ", risk "
                            ++ (fmt f s.risk_score
                                ++ (str ", priority "
                                    ++ (fmt f s.priority_score ++ str ". ")))))))))

abbrev pub run_summary :
    Formats → CampaignHealth → ScoreSet → Grade → List Moment → List Recommendation → Text
run_summary f health scores grade moments recs =
    str "Campaign health '"
    ++ (health_text health
        ++ (str "', grade "
            ++ (grade_text grade
                ++ (str ". " ++ (scores_text f scores ++ counts_text f moments recs)))))

module _ {F : Type 0} (x : Floats F) (f : Formats) (r : CampaignRequest) where
  -- The warnings of the stages that raised, in the order of the stages.
  abbrev pub failures : List Warning
  failures =
      failure_of (str "analysis") (analyse f r)
      ++ (failure_of (str "scoring") (score x f r)
          ++ (failure_of (str "moments") (detect f r)
              ++ failure_of (str "recommendations") (recommend x f r)))

  -- What the stages say, put together. The detector's envelope explains nothing.
  abbrev pub merged_explanations : List Explanation
  merged_explanations =
      part_of (λ a. a.explanations) [] (analyse f r)
      ++ (part_of (λ s. s.explanations) [] (score x f r)
          ++ part_of (λ a. a.explanations) [] (recommend x f r))

  abbrev pub merged_warnings : List Warning
  merged_warnings =
      failures
      ++ (part_of (λ a. a.warnings) [] (analyse f r)
          ++ (part_of (λ s. s.warnings) [] (score x f r)
              ++ (part_of (λ m. m.warnings) [] (detect f r)
                  ++ part_of (λ a. a.warnings) [] (recommend x f r))))

  -- `run`, which has no error to raise
  unfoldable pub run : IntelligenceResponse
  run =
      let analysis = part_of (λ a. a.result) default_analysis (analyse f r) in
      let scores = part_of (λ s. s.scores) no_scores (score x f r) in
      let grade = part_of (λ s. s.grade) Grade.grade_unknown (score x f r) in
      let moments = part_of (λ m. m.moments) [] (detect f r) in
      let recommendations = part_of (λ a. a.recommendations) [] (recommend x f r) in
      record {
        request_id = r.request_id;
        workspace_id = r.workspace_id;
        payload_version = r.payload_version;
        analysis = analysis;
        scores = scores;
        grade = grade;
        moments = moments;
        recommendations = recommendations;
        summary = run_summary f analysis.campaign_health scores grade moments recommendations;
        explanations = dedup_by_code (λ e. e.code) merged_explanations;
        warnings = dedup_by_code (λ w. w.code) merged_warnings;
      }
