-- ===== src/Intelligence/Moments/Detector.antt =====
-- The moments of a request, in order (intelligence_engine/app/services/moment_detector.py).
use moment_flow.Common.{
  ℕ, Bool, Option, none, some, is_some, List, [], ◌∷◌, ◌++◌, Text, str, if◌then◌else◌,
}
use moment_flow.Store.Exec.{Result, ok, err}
use moment_flow.Intelligence.{
  CampaignRequest, Formats, CampaignDataBundle, Warning, warning, MomentType,
}
use moment_flow.Intelligence.Sorting.{key_at_most, sort_by}
use moment_flow.Intelligence.Moments.{
  is_insufficient, parse_reference_date, date_warnings, stats_warnings,
}
use moment_flow.Intelligence.Moments.Rules.{
  Moment, release_window, weekly_growth, milestone_reached, low_engagement, content_gap, report_due,
  media_kit_missing, smart_link_activity,
}

pub record MomentsResponse : Type 0 where
  pub request_id : Text
  pub workspace_id : Text
  pub payload_version : Text
  pub moments : List Moment
  pub warnings : List Warning

-- The texts of the types.
unfoldable pub moment_type_value : MomentType → Text
moment_type_value MomentType.release_window = str "release_window"
moment_type_value MomentType.weekly_growth = str "weekly_growth"
moment_type_value MomentType.milestone_reached = str "milestone_reached"
moment_type_value MomentType.low_engagement = str "low_engagement"
moment_type_value MomentType.content_gap = str "content_gap"
moment_type_value MomentType.report_due = str "report_due"
moment_type_value MomentType.media_kit_missing = str "media_kit_missing"
moment_type_value MomentType.smart_link_activity = str "smart_link_activity"

-- The key of the sort: severity, then the higher confidence, then the type.
unfoldable pub at_most : Moment → Moment → Bool
at_most m n =
    key_at_most m.severity m.confidence (moment_type_value m.type) n.severity n.confidence
      (moment_type_value n.type)

-- `_sorted`
unfoldable pub sort_moments : List Moment → List Moment
sort_moments ms = sort_by at_most ms

-- `_maybe`, on a bucket that is filled from the front
abbrev pub maybe : Option Moment → List Moment → List Moment
maybe none ms = ms
maybe (some m) ms = m ∷ ms

-- The moments in the order of their detection.
unfoldable pub detected : Formats → CampaignDataBundle → Option ℕ → Option Moment → List Moment
detected f d day gap =
    let weekly = weekly_growth f d in
    maybe (release_window f d day) (
      maybe weekly (
        maybe (milestone_reached f d) (
          maybe (low_engagement f d) (
            maybe gap (
              maybe (report_due f d day) (
                maybe (media_kit_missing f d)
                  (maybe (smart_link_activity d (is_some weekly)) [])))))))

-- `_build`
abbrev pub response : CampaignRequest → List Moment → List Warning → MomentsResponse
response r ms ws = record {
  request_id = r.request_id;
  workspace_id = r.workspace_id;
  payload_version = r.payload_version;
  moments = ms;
  warnings = ws;
}

abbrev pub insufficient_data : Warning
insufficient_data =
    warning (str "insufficient_data") (str "Not enough campaign data to detect any moment.")

abbrev pub consistency_warnings : CampaignDataBundle → List Warning
consistency_warnings d = date_warnings d.campaign ++ stats_warnings d.smart_link_stats

-- `detect` once the reference date is read
unfoldable pub detect_at :
    Formats → CampaignRequest → Option ℕ → List Warning → Result MomentsResponse
detect_at f r day warnings =
    if is_insufficient r.bundle
    then ok (response r [] (warnings ++ (insufficient_data ∷ [])))
    else elim (content_gap f r.bundle day) [
      | err e ↦ err e
      | ok gap ↦ ok (response r (sort_moments (detected f r.bundle day gap)) warnings)
    ]

unfoldable pub detect : Formats → CampaignRequest → Result MomentsResponse
detect f r =
    let (day, warnings) = parse_reference_date f r.reference_date in
    detect_at f r day (warnings ++ consistency_warnings r.bundle)
