-- ===== src/Intelligence/Analysis/Service.antt =====
-- A request analysed (intelligence_engine/app/services/campaign_analysis.py).
use moment_flow.Common.{ℕ, Bool, Option, List, [], ◌∷◌, ◌++◌, str, if◌then◌else◌}
use moment_flow.Store.Exec.{Result, ok}
use moment_flow.Intelligence.{
  Formats, CampaignDataBundle, CampaignRequest, Explanation, Warning, warning, ◌>>=◌,
}
use moment_flow.Intelligence.Moments.{
  is_insufficient, parse_reference_date, date_warnings, stats_warnings,
}
use moment_flow.Intelligence.Scoring.Engine.{future_warnings}
use moment_flow.Intelligence.Analysis.{
  CampaignHealth, CampaignAnalysisResult, CampaignAnalysisResponse, Signals, eval_content_outputs,
  eval_smart_links, eval_reports, eval_media_kit, eval_risk, derive_health, summary_text,
}

-- `_check_consistency`
abbrev pub analysis_warnings : Formats → CampaignDataBundle → Option ℕ → List Warning
analysis_warnings f d day =
    date_warnings d.campaign
    ++ (stats_warnings d.smart_link_stats
        ++ future_warnings f (str "analysis") day d.content_outputs)

-- `_build`
abbrev pub analysis_of :
    CampaignRequest
    → CampaignAnalysisResult
    → List Explanation
    → List Warning
    → CampaignAnalysisResponse
analysis_of r result explanations warnings = record {
  request_id = r.request_id;
  workspace_id = r.workspace_id;
  payload_version = r.payload_version;
  result = result;
  explanations = explanations;
  warnings = warnings;
}

abbrev pub insufficient_result : CampaignAnalysisResult
insufficient_result = record {
  campaign_health = CampaignHealth.unknown_health;
  summary = str "Insufficient data to analyse this campaign.";
  strengths = [];
  weaknesses = [];
  opportunities = [];
  risks = [];
}

abbrev pub no_analysis : Warning
no_analysis =
    warning (str "insufficient_data") (str "Not enough campaign data to produce an analysis.")

abbrev pub no_signals : List Warning → Signals
no_signals warnings = record {
  strengths = [];
  weaknesses = [];
  opportunities = [];
  risks = [];
  explanations = [];
  warnings = warnings;
}

-- The result that is read from the lists.
abbrev pub result_of : Formats → Signals → CampaignAnalysisResult
result_of f s =
    let health = derive_health s.strengths s.weaknesses s.risks in
    record {
      campaign_health = health;
      summary = summary_text f health s;
      strengths = s.strengths;
      weaknesses = s.weaknesses;
      opportunities = s.opportunities;
      risks = s.risks;
    }

-- The rules after the one on content.
unfoldable pub eval_rest : Formats → CampaignDataBundle → Option ℕ → Bool → Signals → Signals
eval_rest f d day content_gap s =
    let (smart_link_active, linked) = eval_smart_links f d s in
    eval_risk f d content_gap smart_link_active (eval_media_kit f d (eval_reports f d day linked))

-- `analyse`
unfoldable pub analyse : Formats → CampaignRequest → Result CampaignAnalysisResponse
analyse f r =
    let (day, warnings) = parse_reference_date f r.reference_date in
    if is_insufficient r.bundle
    then ok (analysis_of r insufficient_result [] (warnings ++ (no_analysis ∷ [])))
    else do
      (content_gap, started) ←
          eval_content_outputs f r.bundle day
            (no_signals (warnings ++ analysis_warnings f r.bundle day))
      let signals = eval_rest f r.bundle day content_gap started
      ok (analysis_of r (result_of f signals) signals.explanations signals.warnings)
