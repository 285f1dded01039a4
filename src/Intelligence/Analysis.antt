-- ===== src/Intelligence/Analysis.antt =====
-- Campaign analysis: rules that add to lists of signals, and the health read from the lists
-- (intelligence_engine/app/services/campaign_analysis.py), on the predicates of the moment detector.
pub mod Service
pub mod Assessed
pub mod Critical
use moment_flow.Common.{
  is_empty, ℕ, ◌-◌, leb, ◌==◌, Bool, true, false, ◌&&◌, ◌||◌, not, Option, none, some, is_some,
  List, [], ◌∷◌, ◌++◌, length, select, Text, str, if◌then◌else◌,
}
use moment_flow.Store.Exec.{Error, Result, ok, err}
use moment_flow.Intelligence.{
  Formats, SmartLinkStats, ContentOutputSummary, CampaignDataBundle, CampaignRequest, Explanation,
  explanation, Warning, warning, ◌>>=◌,
}
use moment_flow.Intelligence.Moments.{
  is_active, has_activity, completed_outputs, within, has_usable_media_kit,
  has_recent_completed_report, is_insufficient, parse_reference_date, date_warnings, stats_warnings,
}
use moment_flow.Intelligence.Scoring.Engine.{future_warnings}

pub data CampaignHealth : Type 0 where
  good needs_attention critical unknown_health : CampaignHealth

unfoldable pub health_text : CampaignHealth → Text
health_text CampaignHealth.good = str "good"
health_text CampaignHealth.needs_attention = str "warning"
health_text CampaignHealth.critical = str "critical"
health_text CampaignHealth.unknown_health = str "unknown"

pub record CampaignAnalysisResult : Type 0 where
  pub campaign_health : CampaignHealth
  pub summary : Text
  pub strengths : List Text
  pub weaknesses : List Text
  pub opportunities : List Text
  pub risks : List Text

pub record CampaignAnalysisResponse : Type 0 where
  pub request_id : Text
  pub workspace_id : Text
  pub payload_version : Text
  pub result : CampaignAnalysisResult
  pub explanations : List Explanation
  pub warnings : List Warning

-- The lists that the rules add to.
pub record Signals : Type 0 where
  pub strengths : List Text
  pub weaknesses : List Text
  pub opportunities : List Text
  pub risks : List Text
  pub explanations : List Explanation
  pub warnings : List Warning

abbrev pub add_strength : Text → Explanation → Signals → Signals
add_strength t e s = record {
  strengths = s.strengths ++ (t ∷ []);
  weaknesses = s.weaknesses;
  opportunities = s.opportunities;
  risks = s.risks;
  explanations = s.explanations ++ (e ∷ []);
  warnings = s.warnings;
}

abbrev pub add_weakness : Text → Explanation → Signals → Signals
add_weakness t e s = record {
  strengths = s.strengths;
  weaknesses = s.weaknesses ++ (t ∷ []);
  opportunities = s.opportunities;
  risks = s.risks;
  explanations = s.explanations ++ (e ∷ []);
  warnings = s.warnings;
}

abbrev pub add_opportunity : Text → Explanation → Signals → Signals
add_opportunity t e s = record {
  strengths = s.strengths;
  weaknesses = s.weaknesses;
  opportunities = s.opportunities ++ (t ∷ []);
  risks = s.risks;
  explanations = s.explanations ++ (e ∷ []);
  warnings = s.warnings;
}

abbrev pub add_risk : Text → Explanation → Signals → Signals
add_risk t e s = record {
  strengths = s.strengths;
  weaknesses = s.weaknesses;
  opportunities = s.opportunities;
  risks = s.risks ++ (t ∷ []);
  explanations = s.explanations ++ (e ∷ []);
  warnings = s.warnings;
}

abbrev pub add_warning : Warning → Signals → Signals
add_warning w s = record {
  strengths = s.strengths;
  weaknesses = s.weaknesses;
  opportunities = s.opportunities;
  risks = s.risks;
  explanations = s.explanations;
  warnings = s.warnings ++ (w ∷ []);
}

-- The recent ones of some outputs, where there is a date fourteen days before.
abbrev pub recent_outputs : List ContentOutputSummary → ℕ → Result (List ContentOutputSummary)
recent_outputs outs day =
    if leb day 14
    then err Error.overflow_error
    else ok (select (λ o. within (day - 14) day o.created_at) outs)

module _ (f : Formats) (d : CampaignDataBundle) where
  abbrev pub note_recent : List ContentOutputSummary → Signals → Signals
  note_recent [] s = s
  note_recent (o ∷ outs) s =
      add_strength (str "Recent content output activity.")
        (explanation (str "recent_content_outputs")
          (f.number_text (length (o ∷ outs))
            ++ (str " content output(s) produced within the last "
                ++ (f.number_text 14 ++ str " days.")))
          (some 25))
        s

  -- `_eval_content_outputs`: whether there is a content gap, with the lists
  unfoldable pub eval_content_outputs : Option ℕ → Signals → Result (Bool × Signals)
  eval_content_outputs day s =
      let completed = completed_outputs f d in
      let gap =
        add_opportunity (str "No content has been produced for this campaign yet.")
          (explanation (str "content_gap") (str "The campaign has no completed content outputs.")
            (some 30))
          s in
      let produced =
        add_strength (str "The campaign has produced content outputs.")
          (explanation (str "has_content_outputs")
            (f.number_text (length completed) ++ str " completed content output(s) found.")
            (some 20))
          s in
      if is_empty completed then ok (true, gap) else elim day [
        | none ↦ ok (false, produced)
        | some today ↦ do
          recent ← recent_outputs completed today
          ok (false, note_recent recent produced)
      ]

  -- `_eval_smart_links`: whether the links show activity, with the lists
  unfoldable pub eval_smart_links : Signals → Bool × Signals
  eval_smart_links s =
      if not (is_some d.smart_link_stats)
      then (
        false,
        add_warning
            (warning (str "smart_link_stats_missing")
              (str "No smart-link statistics were provided; engagement was not assessed."))
            s,
      )
      else if has_activity d.smart_link_stats
      then (
        true,
        add_strength (str "Smart links are receiving activity.")
            (explanation (str "smart_link_activity")
              (str "Smart links show positive click/engagement activity.") (some 20))
            s,
      )
      else (
        false,
        add_weakness (str "Smart links show no activity.")
            (explanation (str "smart_link_no_activity")
              (str "Smart-link statistics are present but show no clicks or active links.")
              (some 20))
            s,
      )

  -- `_eval_reports`
  unfoldable pub eval_reports : Option ℕ → Signals → Signals
  eval_reports day s =
      if has_recent_completed_report f d day
      then s
      else add_opportunity (str "No recent report is available for this campaign.")
          (explanation (str "report_due")
            (str "There is no recent completed report; a report may be due.") (some 20))
          s

  -- `_eval_media_kit`
  unfoldable pub eval_media_kit : Signals → Signals
  eval_media_kit s =
      if has_usable_media_kit f d
      then s
      else add_opportunity (str "No media kit is available for this campaign.")
          (explanation (str "media_kit_missing")
            (str "The campaign has no generated or published media kit.") (some 15))
          s

  -- `_eval_risk`
  unfoldable pub eval_risk : Bool → Bool → Signals → Signals
  eval_risk content_gap smart_link_active s =
      if is_active f d && content_gap && not smart_link_active
      then add_risk (str "Active campaign with no content and no smart-link traction.")
          (explanation (str "active_campaign_no_traction")
            (str
              "The campaign is active but has neither produced content nor gained smart-link traction.")
            (some 40))
          s
      else s

-- `_derive_health`
unfoldable pub derive_health : List Text → List Text → List Text → CampaignHealth
derive_health strengths weaknesses risks =
    if not (is_empty risks) && is_empty strengths
    then CampaignHealth.critical
    else if not (is_empty risks) || not (is_empty weaknesses)
    then CampaignHealth.needs_attention
    else if not (is_empty strengths)
    then CampaignHealth.good
    else CampaignHealth.needs_attention

-- `_summary`
abbrev pub summary_text : Formats → CampaignHealth → Signals → Text
summary_text f health s =
    str "Campaign health assessed as '"
    ++ (health_text health
        ++ (str "'. Signals — strengths: "
            ++ (f.number_text (length s.strengths)
                ++ (str ", weaknesses: "
                    ++ (f.number_text (length s.weaknesses)
                        ++ (str ", opportunities: "
                            ++ (f.number_text (length s.opportunities)
                                ++ (str ", risks: "
                                    ++ (f.number_text (length s.risks) ++ str ".")))))))))
