-- ===== src/Intelligence/Recommendations/Agreed.antt =====
-- The detector and the recommender fire on the same campaigns.
use moment_flow.Common.{ℕ, ◌≡◌, refl, List, [], ◌∷◌, any, true, Option, none, some, is_some, arith}
use moment_flow.Intelligence.{
  Formats, CampaignDataBundle, SmartLinkStats, ReportSummary, Goal, ActionType,
}
use moment_flow.Intelligence.Moments.{
  status_of, campaign_type_of, is_finished, total_clicks, has_activity, completed_outputs,
  has_usable_media_kit, completed_reports, has_recent_report, has_recent_completed_report,
}
use moment_flow.Intelligence.Recommendations.Facts.{
  campaign_status, campaign_kind, all_clicks, smart_link_has_activity, outputs_completed,
  has_media_kit, has_report_of, has_recent_report_at, is_achieved_goal,
}
use moment_flow.Intelligence.Moments.Rules.{
  is_achieved, Moment, recommended, release_window, milestone_reached, low_engagement, report_due,
  media_kit_missing,
}
use moment_flow.Intelligence.Recommendations.{Recommendation}
use moment_flow.Intelligence.Recommendations.Rules.{
  recommend_release, recommend_milestone, recommend_media_kit, recommend_report,
  recommend_smart_link,
}

-- The action that a moment calls for, and that a recommendation is for.
abbrev pub called_for : Option Moment → Option ActionType
called_for none = none
called_for (some m) = some m.recommended_action

abbrev pub action_of : Option Recommendation → Option ActionType
action_of none = none
action_of (some r) = some r.action

module _ (f : Formats) (d : CampaignDataBundle) where
  status-agrees : campaign_status f d ≡ status_of f d
  unfolding campaign_status status_of
  status-agrees = refl

  campaign_type-agrees : campaign_kind f d ≡ campaign_type_of f d
  unfolding campaign_kind campaign_type_of
  campaign_type-agrees = refl

  clicks-agree : (s : Option SmartLinkStats) → all_clicks s ≡ total_clicks s
  unfolding all_clicks total_clicks
  clicks-agree none = refl
  clicks-agree (some s) = refl

  activity-agrees : (s : Option SmartLinkStats) → smart_link_has_activity s ≡ has_activity s
  unfolding smart_link_has_activity has_activity
  activity-agrees none = refl
  activity-agrees (some s) = refl

  outputs-agree : outputs_completed f d ≡ completed_outputs f d
  unfolding outputs_completed completed_outputs
  outputs-agree = refl

  kit-agrees : has_media_kit f d ≡ has_usable_media_kit f d
  unfolding has_media_kit has_usable_media_kit
  kit-agrees = refl

  has_report_of-agrees :
      (rs : List ReportSummary) (day : Option ℕ) → has_report_of rs day ≡ has_recent_report rs day
  unfolding has_report_of has_recent_report
  has_report_of-agrees [] day = refl
  has_report_of-agrees (r ∷ rs) none = refl
  has_report_of-agrees (r ∷ rs) (some day) = refl

  recent_report-agrees :
      (day : Option ℕ) → has_recent_report_at f d day ≡ has_recent_completed_report f d day
  unfolding has_recent_report_at
  recent_report-agrees day = has_report_of-agrees (completed_reports f d) day

  goal-agrees : (g : Goal) → is_achieved_goal g ≡ is_achieved g
  unfolding is_achieved_goal
  goal-agrees g = refl

  goals-agree : (gs : List Goal) → any is_achieved_goal gs ≡ any is_achieved gs
  goals-agree [] = refl
  goals-agree (g ∷ gs) = rw (goal-agrees g, goals-agree gs) refl

  media_kit-agrees : called_for (media_kit_missing f d) ≡ action_of (recommend_media_kit f d)
  unfolding media_kit_missing recommend_media_kit recommended
  media_kit-agrees = rw (status-agrees, campaign_type-agrees, kit-agrees) (ground arith)

  report-agrees :
      (day : Option ℕ) → called_for (report_due f d day) ≡ action_of (recommend_report f d day)
  unfolding report_due recommend_report recommended
  report-agrees day =
      rw
        (status-agrees, outputs-agree, activity-agrees d.smart_link_stats, recent_report-agrees day)
        (ground arith)

  smart_link-agrees : called_for (low_engagement f d) ≡ action_of (recommend_smart_link f d)
  unfolding low_engagement recommend_smart_link recommended
  smart_link-agrees = rw (status-agrees, activity-agrees d.smart_link_stats) (ground arith)

  milestone-agrees :
      is_some d.campaign ≡ true
      → called_for (milestone_reached f d) ≡ action_of (recommend_milestone f d)
  unfolding milestone_reached recommend_milestone recommended is_finished
  milestone-agrees h =
      rw (status-agrees, campaign_type-agrees, clicks-agree d.smart_link_stats, goals-agree d.goals)
        (ground arith)

  -- The detector and the recommender, which each write out their own rules, agree on a campaign: the
  -- moments for a reached milestone, low engagement, a due report and a missing media kit are detected exactly where
  -- the action that each calls for is recommended.
  pub recommended_agrees :
      (day : Option ℕ)
      → is_some d.campaign ≡ true
      → (called_for (milestone_reached f d) ≡ action_of (recommend_milestone f d))
        × (called_for (low_engagement f d) ≡ action_of (recommend_smart_link f d))
        × (called_for (report_due f d day) ≡ action_of (recommend_report f d day))
        × (called_for (media_kit_missing f d) ≡ action_of (recommend_media_kit f d))
  recommended_agrees day present =
      (milestone-agrees present, smart_link-agrees, report-agrees day, media_kit-agrees)

  -- Where a release moment is detected for a campaign, the recommender advises the action that the
  -- moment calls for.
  pub release_window-recommended :
      (day : Option ℕ) (m : Moment)
      → is_some d.campaign ≡ true
      → release_window f d day ≡ some m
      → action_of (recommend_release f d day) ≡ some m.recommended_action
  unfolding release_window recommend_release recommended is_finished
  release_window-recommended day m present fired =
      rw (status-agrees, campaign_type-agrees) (ground arith)
