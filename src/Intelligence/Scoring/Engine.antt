-- ===== src/Intelligence/Scoring/Engine.antt =====
-- A request scored (intelligence_engine/app/services/scoring_engine.py).
use moment_flow.Common.{
  ℕ, ltb, ◌==◌, ℤ, pos, leb_ℤ, Bool, true, false, ◌&&◌, not, Option, none, some, is_some, List, [],
  ◌∷◌, ◌++◌, length, select, Text, str, if◌then◌else◌,
}
use moment_flow.Store.Exec.{Error, Result, ok, err}
use moment_flow.Intelligence.{
  Formats, SmartLinkStats, ContentOutputSummary, CampaignDataBundle, CampaignRequest, Explanation,
  Warning, warning, ◌>>=◌,
}
use moment_flow.Intelligence.Moments.{has_negative, parse_reference_date, date_warnings}
use moment_flow.Intelligence.Scoring.{Floats, Grade, Outcome}
use moment_flow.Intelligence.Scoring.Scores.{
  readiness_score, momentum_score, opportunity_score, risk_score,
}
use moment_flow.Intelligence.Scoring.Blends.{
  priority_shares, standing_shares, priority_of, grade_of,
}

pub record ScoreSet : Type 0 where
  pub campaign_readiness_score : Option ℤ
  pub momentum_score : Option ℤ
  pub content_opportunity_score : Option ℤ
  pub risk_score : Option ℤ
  pub priority_score : Option ℤ

pub record ScoringResponse : Type 0 where
  pub request_id : Text
  pub workspace_id : Text
  pub payload_version : Text
  pub scores : ScoreSet
  pub grade : Grade
  pub explanations : List Explanation
  pub warnings : List Warning

-- What is explained and warned of so far.
pub record Tally : Type 0 where
  pub explanations : List Explanation
  pub warnings : List Warning

abbrev pub listed {ℓ} : {A : Type ℓ} → Option A → List A
listed none = []
listed (some a) = a ∷ []

-- `_collect`: the value is returned by its caller.
unfoldable pub collect : Outcome → Tally → Tally
collect o t = record {
  explanations = t.explanations ++ listed o.explanation;
  warnings = t.warnings ++ listed o.warning;
}

abbrev pub is_after : ℕ → Option ℕ → Bool
is_after day none = false
is_after day (some created) = ltb day created

-- The outputs that are dated after the day.
abbrev pub dated_after : ℕ → List ContentOutputSummary → ℕ
dated_after day outs = length (select (λ o. is_after day o.created_at) outs)

abbrev pub future_warnings : Formats → Text → Option ℕ → List ContentOutputSummary → List Warning
future_warnings f purpose none outs = []
future_warnings f purpose (some day) outs =
    if dated_after day outs == 0
    then []
    else warning (str "future_content_output_date") (
        f.number_text (dated_after day outs)
        ++ (str " content output(s) are dated after the reference date; excluded from recency "
            ++ (purpose ++ str ".")))
      ∷ []

abbrev pub clamp_warnings : Option SmartLinkStats → List Warning
clamp_warnings none = []
clamp_warnings (some s) =
    if has_negative s
    then warning (str "negative_smart_link_stats")
        (str "Smart-link statistics contain negative values; clamped to zero.")
      ∷ []
    else []

-- `_check_consistency`
unfoldable pub check_consistency : Formats → CampaignDataBundle → Option ℕ → List Warning
check_consistency f d day =
    date_warnings d.campaign
    ++ (clamp_warnings d.smart_link_stats
        ++ future_warnings f (str "scoring") day d.content_outputs)

-- The range that the response's model allows a score: others are refused.
abbrev pub in_range : Option ℤ → Bool
in_range none = true
in_range (some n) = leb_ℤ (pos 0) n && leb_ℤ n (pos 100)

unfoldable pub is_valid_score_set : ScoreSet → Bool
is_valid_score_set s =
    in_range s.campaign_readiness_score
    && in_range s.momentum_score
    && in_range s.content_opportunity_score
    && in_range s.risk_score
    && in_range s.priority_score

-- Whether all five scores are missing.
unfoldable pub has_no_score : ScoreSet → Bool
has_no_score s =
    not (is_some s.campaign_readiness_score)
    && not (is_some s.momentum_score)
    && not (is_some s.content_opportunity_score)
    && not (is_some s.risk_score)
    && not (is_some s.priority_score)

-- `insufficient_data`, where no score is computed
abbrev pub no_score_warnings : ScoreSet → List Warning
no_score_warnings s =
    if has_no_score s
    then warning (str "insufficient_data") (str "Not enough campaign data to compute any score.")
      ∷ []
    else []

module _ {F : Type 0} (x : Floats F) (f : Formats) where
  -- What is told of five scores, in the order of their computation.
  abbrev pub tally_of : List Warning → Outcome → Outcome → Outcome → Outcome → Outcome → Tally
  tally_of warnings readiness momentum opportunity risk priority = collect priority (
      collect risk (
        collect opportunity (
          collect momentum
            (collect readiness (record { explanations = []; warnings = warnings })))))

  abbrev pub score_set : Outcome → Outcome → Outcome → Outcome → Outcome → ScoreSet
  score_set readiness momentum opportunity risk priority = record {
    campaign_readiness_score = readiness.value;
    momentum_score = momentum.value;
    content_opportunity_score = opportunity.value;
    risk_score = risk.value;
    priority_score = priority.value;
  }

  -- `_build`, with what the grade and the missing scores add
  abbrev pub build :
      CampaignRequest → ScoreSet → Tally → Grade × List Explanation × List Warning → ScoringResponse
  build r scores tally graded = record {
    request_id = r.request_id;
    workspace_id = r.workspace_id;
    payload_version = r.payload_version;
    scores = scores;
    grade = graded.0;
    explanations = tally.explanations ++ graded.1;
    warnings = tally.warnings ++ (graded.2 ++ no_score_warnings scores);
  }

  -- `score` from the four scores on
  abbrev pub priority_for : Outcome → Outcome → Outcome → Outcome → Outcome
  priority_for readiness momentum opportunity risk =
      priority_of x f (priority_shares readiness.value momentum.value opportunity.value risk.value)

  abbrev pub concluded :
      CampaignRequest → List Warning → Outcome → Outcome → Outcome → Outcome → ScoringResponse
  concluded r warnings readiness momentum opportunity risk =
      let priority = priority_for readiness momentum opportunity risk in
      build r (score_set readiness momentum opportunity risk priority)
        (tally_of warnings readiness momentum opportunity risk priority)
        (grade_of x f (standing_shares readiness.value momentum.value risk.value))

  -- The model of the scores refuses one that is out of range.
  unfoldable pub validated : ScoringResponse → Result ScoringResponse
  validated answer =
      if is_valid_score_set answer.scores
      then ok answer
      else err (Error.validation_error (str "scores"))

  unfoldable pub score : CampaignRequest → Result ScoringResponse
  score r =
      let (day, warnings) = parse_reference_date f r.reference_date in
      do
        momentum ← momentum_score x f r.bundle day
        opportunity ← opportunity_score x f r.bundle day
        validated (
            concluded r (warnings ++ check_consistency f r.bundle day)
              (readiness_score x f r.bundle) momentum opportunity (risk_score x f r.bundle day))
