-- ===== src/Intelligence/Recommendations/Rules.antt =====
-- The seven rules (intelligence_engine/app/services/recommendation_engine.py).
use moment_flow.Common.{
  ℕ, leb, Bool, ◌&&◌, ◌||◌, not, Option, none, some, is_some, List, [], ◌∷◌, ◌++◌, str, text_eq,
  any, if◌then◌else◌,
}
use moment_flow.Intelligence.{Formats, CampaignDataBundle, Explanation, Severity, ActionType}
use moment_flow.Intelligence.Moments.{is_one_of}
use moment_flow.Intelligence.Recommendations.Facts.{
  campaign_status, campaign_kind, is_running, is_closed, all_clicks, weekly_clicks,
  smart_link_has_activity, has_media_kit, has_recent_report_at, is_achieved_goal, is_reportable,
}
use moment_flow.Intelligence.Recommendations.{
  Recommendation, explained, post_output, story_output, carousel_output, media_kit_output,
  report_output, in_release_window, is_release_campaign,
}

abbrev pub release_post : Severity → ℕ → List Explanation → Recommendation
release_post priority confidence signal = record {
  action = ActionType.create_release_post;
  priority = priority;
  confidence = confidence;
  reason = str "The campaign is in its release moment; publish a release post.";
  suggested_content_pack = some (str "release_pack");
  expected_outputs = post_output ∷ [];
  explanations = signal;
}

-- `_release`
unfoldable pub recommend_release : Formats → CampaignDataBundle → Option ℕ → Option Recommendation
recommend_release f d day =
    if is_closed f d
    then none
    else if in_release_window d day
    then some (
        release_post Severity.high 85 (
          explained (str "release_window")
            (str "The track release date is within the release window.")))
    else if is_release_campaign f d
    then some (
        release_post Severity.medium 70 (
          explained (str "release_campaign_active") (
            str "Release-type campaign ("
            ++ (campaign_kind f d ++ (str ") is " ++ (campaign_status f d ++ str "."))))))
    else none

abbrev pub milestone_post : Severity → ℕ → List Explanation → Recommendation
milestone_post priority confidence signal = record {
  action = ActionType.create_milestone_post;
  priority = priority;
  confidence = confidence;
  reason = str "The campaign reached a milestone worth celebrating.";
  suggested_content_pack = some (str "milestone_pack");
  expected_outputs = post_output ∷ carousel_output ∷ [];
  explanations = signal;
}

-- `_milestone`
unfoldable pub recommend_milestone : Formats → CampaignDataBundle → Option Recommendation
recommend_milestone f d =
    let clicks = all_clicks d.smart_link_stats in
    if is_closed f d
    then none
    else if any is_achieved_goal d.goals
    then some (
        milestone_post Severity.high 80
          (explained (str "milestone_goal_achieved") (str "A milestone goal has been achieved.")))
    else if text_eq (campaign_kind f d) (str "milestone_campaign")
    then some (
        milestone_post Severity.high 75
          (explained (str "milestone_campaign_type") (str "Campaign type is milestone_campaign.")))
    else if leb 1000 clicks
    then some (
        milestone_post Severity.medium 65 (
          explained (str "milestone_click_threshold") (
            str "Smart-link total clicks ("
            ++ (f.number_text clicks
                ++ (str ") crossed the milestone threshold ("
                    ++ (f.number_text 1000 ++ str ")."))))))
    else none

abbrev pub growth_post : ℕ → List Explanation → Recommendation
growth_post confidence signal = record {
  action = ActionType.create_weekly_growth_post;
  priority = Severity.medium;
  confidence = confidence;
  reason = str "The campaign shows weekly growth worth highlighting.";
  suggested_content_pack = some (str "weekly_growth_pack");
  expected_outputs = post_output ∷ story_output ∷ [];
  explanations = signal;
}

-- `_weekly_growth`
unfoldable pub recommend_growth : Formats → CampaignDataBundle → Option Recommendation
recommend_growth f d =
    let clicks = weekly_clicks d.smart_link_stats in
    if not (is_some d.campaign) || not (is_running f d)
    then none
    else if text_eq (campaign_kind f d) (str "weekly_growth_campaign")
    then some (
        growth_post 75 (
          explained (str "weekly_growth_campaign_type")
            (str "Campaign type is weekly_growth_campaign.")))
    else if leb 20 clicks
    then some (
        growth_post 65 (
          explained (str "weekly_growth_signal") (
            str "Smart-link clicks in the last 7 days ("
            ++ (f.number_text clicks
                ++ (str ") cleared the weekly growth threshold ("
                    ++ (f.number_text 20 ++ str ")."))))))
    else none

-- `_media_kit`
unfoldable pub recommend_media_kit : Formats → CampaignDataBundle → Option Recommendation
recommend_media_kit f d =
    let is_media = text_eq (campaign_kind f d) (str "media_campaign") in
    if not (is_some d.campaign) || has_media_kit f d
    then none
    else if text_eq (campaign_status f d) (str "draft") && not is_media
    then none
    else some (record {
      action = ActionType.create_media_kit;
      priority = if is_media then Severity.high else Severity.medium;
      confidence = 70;
      reason = str "The campaign has no media kit; generate one for outreach.";
      suggested_content_pack = some (str "auto_media_kit");
      expected_outputs = media_kit_output ∷ [];
      explanations =
          explained (str "media_kit_missing")
            (str "No generated or published media kit exists for the campaign.");
    })

-- `_report`
unfoldable pub recommend_report : Formats → CampaignDataBundle → Option ℕ → Option Recommendation
recommend_report f d day =
    if not (is_some d.campaign)
    then none
    else if not
        (is_one_of (str "active" ∷ str "completed" ∷ str "paused" ∷ []) (campaign_status f d))
    then none
    else if has_recent_report_at f d day
    then none
    else if not (is_reportable f d)
    then none
    else some (record {
      action = ActionType.create_report;
      priority = Severity.medium;
      confidence = 70;
      reason = str "No recent report is available; generate a campaign report.";
      suggested_content_pack = none;
      expected_outputs = report_output ∷ [];
      explanations =
          explained (str "report_due")
            (str "There is no recent completed report for the campaign.");
    })

-- `_story`
unfoldable pub recommend_story : Formats → CampaignDataBundle → Bool → Option Recommendation
recommend_story f d weekly_fired =
    if weekly_fired || not (is_running f d)
    then none
    else if smart_link_has_activity d.smart_link_stats
    then some (record {
      action = ActionType.create_story;
      priority = Severity.low;
      confidence = 60;
      reason = str "The active campaign has smart-link activity; post a story to sustain it.";
      suggested_content_pack = none;
      expected_outputs = story_output ∷ [];
      explanations =
          explained (str "engagement_opportunity")
            (str "Active campaign with positive smart-link activity.");
    })
    else none

-- `_improve_smart_link`
unfoldable pub recommend_smart_link : Formats → CampaignDataBundle → Option Recommendation
recommend_smart_link f d =
    if not (is_some d.smart_link_stats) || smart_link_has_activity d.smart_link_stats
    then none
    else some (record {
      action = ActionType.improve_smart_link;
      priority = if is_running f d then Severity.high else Severity.medium;
      confidence = 70;
      reason = str "Smart links are configured but show no activity; improve them.";
      suggested_content_pack = none;
      expected_outputs = [];
      explanations =
          explained (str "smart_link_inactive")
            (str "Smart-link statistics are present but show no clicks or active links.");
    })
