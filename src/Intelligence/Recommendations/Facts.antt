-- ===== src/Intelligence/Recommendations/Facts.antt =====
-- What the recommender reads of the data (intelligence_engine/app/services/recommendation_engine.py):
-- its own copies of what the detector reads.
use moment_flow.Common.{
  is_empty, ℕ, ◌+◌, leb, Bool, true, false, ◌&&◌, ◌||◌, not, Option, none, some, is_some, List, [],
  ◌∷◌, str, Text, text_eq, any, select, if◌then◌else◌,
}
use moment_flow.Intelligence.{
  Formats, SmartLinkStats, ContentOutputSummary, ReportSummary, Goal, CampaignDataBundle,
}
use moment_flow.Intelligence.Moments.{is_one_of, lowered, clamped, is_positive, ends}
use moment_flow.Intelligence.Moments.Rules.{is_text}

-- `_status`, `_campaign_type`
unfoldable pub campaign_status : Formats → CampaignDataBundle → Text
campaign_status f d = elim d.campaign [ some c ↦ lowered f c.status | none ↦ [] ]

unfoldable pub campaign_kind : Formats → CampaignDataBundle → Text
campaign_kind f d = elim d.campaign [ some c ↦ lowered f c.campaign_type | none ↦ [] ]

-- `self._status(data) == "active"`
abbrev pub is_running : Formats → CampaignDataBundle → Bool
is_running f d = text_eq (campaign_status f d) (str "active")

-- `campaign is None or status in _FINISHED_CAMPAIGN_STATUSES`
abbrev pub is_closed : Formats → CampaignDataBundle → Bool
is_closed f d =
    not (is_some d.campaign)
    || is_one_of (str "completed" ∷ str "archived" ∷ []) (campaign_status f d)

-- `_total_clicks`, `_clicks_7d`
unfoldable pub all_clicks : Option SmartLinkStats → ℕ
all_clicks none = 0
all_clicks (some s) = clamped s.total_clicks

unfoldable pub weekly_clicks : Option SmartLinkStats → ℕ
weekly_clicks none = 0
weekly_clicks (some s) = clamped s.clicks_last_7_days

-- `_smart_link_has_activity`
unfoldable pub smart_link_has_activity : Option SmartLinkStats → Bool
smart_link_has_activity none = false
smart_link_has_activity (some s) =
    any is_positive
      (s.total_clicks ∷ s.clicks_last_7_days ∷ s.clicks_last_30_days ∷ s.active_links ∷ [])

-- `_completed_outputs`
unfoldable pub outputs_completed : Formats → CampaignDataBundle → List ContentOutputSummary
outputs_completed f d =
    select (λ o. text_eq (lowered f o.status) (str "completed")) d.content_outputs

-- `_has_usable_media_kit`
unfoldable pub has_media_kit : Formats → CampaignDataBundle → Bool
has_media_kit f d =
    any (λ k. is_one_of (str "generated" ∷ str "published" ∷ []) (lowered f k.status)) d.media_kits

-- `_has_recent_completed_report`, below the selection of the completed reports
unfoldable pub has_report_of : List ReportSummary → Option ℕ → Bool
has_report_of [] day = false
has_report_of (r ∷ rs) none = true
has_report_of (r ∷ rs) (some day) =
    let dated = ends (r ∷ rs) in if is_empty dated then true else any (λ e. leb day (e + 30)) dated

unfoldable pub has_recent_report_at : Formats → CampaignDataBundle → Option ℕ → Bool
has_recent_report_at f d day =
    has_report_of (select (λ r. text_eq (lowered f r.status) (str "completed")) d.previous_reports)
      day

-- The condition on a goal in `_milestone`.
unfoldable pub is_achieved_goal : Goal → Bool
is_achieved_goal g = is_text (str "milestone") g.goal_type && is_text (str "achieved") g.status

-- `has_substance` of `_report`
abbrev pub is_reportable : Formats → CampaignDataBundle → Bool
is_reportable f d =
    not (is_empty (outputs_completed f d))
    || smart_link_has_activity d.smart_link_stats
    || text_eq (campaign_status f d) (str "completed")
