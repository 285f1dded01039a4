-- ===== src/Intelligence/Moments/Rules.antt =====
-- The eight rules of the detector (intelligence_engine/app/services/moment_detector.py). A confidence is in
-- hundredths.
use moment_flow.Common.{
  is_empty, ℕ, ◌+◌, ◌-◌, ltb, leb, Bool, false, ◌&&◌, ◌||◌, not, Option, none, some, is_some, List,
  [], ◌∷◌, ◌++◌, Text, str, text_eq, any, if◌then◌else◌,
}
use moment_flow.Store.Exec.{Result, ok, err}
use moment_flow.Intelligence.{
  Formats, CampaignDataBundle, Goal, Explanation, explanation, Severity, ActionType, MomentType,
}
use moment_flow.Intelligence.Moments.{
  status_of, campaign_type_of, is_finished, is_active, is_one_of, total_clicks, clicks_7d,
  has_activity, completed_outputs, has_recent_output, has_usable_media_kit,
  has_recent_completed_report,
}

pub record Moment : Type 0 where
  pub type : MomentType
  pub severity : Severity
  pub confidence : ℕ
  pub summary : Text
  pub recommended_action : ActionType
  pub explanations : List Explanation

-- `RECOMMENDED_ACTION`
unfoldable pub recommended : MomentType → ActionType
recommended MomentType.release_window = ActionType.create_release_post
recommended MomentType.weekly_growth = ActionType.create_weekly_growth_post
recommended MomentType.milestone_reached = ActionType.create_milestone_post
recommended MomentType.low_engagement = ActionType.improve_smart_link
recommended MomentType.content_gap = ActionType.create_release_post
recommended MomentType.report_due = ActionType.create_report
recommended MomentType.media_kit_missing = ActionType.create_media_kit
recommended MomentType.smart_link_activity = ActionType.create_story

-- `_moment`
abbrev pub moment : MomentType → Severity → ℕ → Text → Text → Text → Moment
moment ty severity confidence summary code message = record {
  type = ty;
  severity = severity;
  confidence = confidence;
  summary = summary;
  recommended_action = recommended ty;
  explanations = explanation code message none ∷ [];
}

-- `abs((a - b).days)`
abbrev pub distance : ℕ → ℕ → ℕ
distance a b = (a - b) + (b - a)

abbrev pub release_moment : Formats → ℕ → Moment
release_moment f delta =
    let imminent = leb delta 3 in
    moment MomentType.release_window (if imminent then Severity.high else Severity.medium)
      (if imminent then 90 else 80)
      (str "The track release date is within "
        ++ (f.number_text delta ++ str " day(s) of the reference date."))
      (str "release_window_detected")
      (str "Track release_date is "
        ++ (f.number_text delta
            ++ (str " day(s) from the reference date (window " ++ (f.number_text 14 ++ str "d)."))))

abbrev pub release_date_of : CampaignDataBundle → Option ℕ
release_date_of d = elim d.track [ some t ↦ t.release_date | none ↦ none ]

-- `_release_window`
unfoldable pub release_window : Formats → CampaignDataBundle → Option ℕ → Option Moment
release_window f d none = none
release_window f d (some day) = elim (release_date_of d) [
  | none ↦ none
  | some release ↦
      if is_finished f d
      then none
      else if ltb 14 (distance release day)
      then none
      else some (release_moment f (distance release day))
]

abbrev pub growth_moment : ℕ → Text → Moment
growth_moment confidence detail =
    moment MomentType.weekly_growth Severity.medium confidence
      (str "The campaign shows weekly growth worth highlighting.") (str "weekly_growth_detected")
      detail

-- `_weekly_growth`
unfoldable pub weekly_growth : Formats → CampaignDataBundle → Option Moment
weekly_growth f d =
    let clicks = clicks_7d d.smart_link_stats in
    if text_eq (campaign_type_of f d) (str "weekly_growth_campaign")
    then some (growth_moment 75 (str "Campaign type is weekly_growth_campaign."))
    else if leb 20 clicks
    then some (
        growth_moment 65 (
          str "Smart-link clicks in the last 7 days ("
          ++ (f.number_text clicks
              ++ (str ") cleared the weekly growth threshold ("
                  ++ (f.number_text 20 ++ str ").")))))
    else none

abbrev pub is_text : Text → Option Text → Bool
is_text t none = false
is_text t (some u) = text_eq u t

abbrev pub is_achieved : Goal → Bool
is_achieved g = is_text (str "milestone") g.goal_type && is_text (str "achieved") g.status

abbrev pub milestone_moment : Severity → ℕ → Text → Moment
milestone_moment severity confidence detail =
    moment MomentType.milestone_reached severity confidence
      (str "The campaign reached a milestone worth celebrating.") (str "milestone_detected") detail

-- `_milestone_reached`
unfoldable pub milestone_reached : Formats → CampaignDataBundle → Option Moment
milestone_reached f d =
    let clicks = total_clicks d.smart_link_stats in
    if is_finished f d
    then none
    else if any is_achieved d.goals
    then some (milestone_moment Severity.high 85 (str "A milestone goal has been achieved."))
    else if text_eq (campaign_type_of f d) (str "milestone_campaign")
    then some (milestone_moment Severity.high 80 (str "Campaign type is milestone_campaign."))
    else if leb 1000 clicks
    then some (
        milestone_moment Severity.medium 65 (
          str "Smart-link total clicks ("
          ++ (f.number_text clicks
              ++ (str ") crossed the milestone threshold (" ++ (f.number_text 1000 ++ str ").")))))
    else none

abbrev pub if_active : Formats → CampaignDataBundle → Severity
if_active f d = if is_active f d then Severity.high else Severity.medium

-- `_low_engagement`
unfoldable pub low_engagement : Formats → CampaignDataBundle → Option Moment
low_engagement f d =
    if not (is_some d.smart_link_stats) || has_activity d.smart_link_stats
    then none
    else some (
        moment MomentType.low_engagement (if_active f d) 75
          (str "Smart links are configured but show no engagement.") (str "low_engagement_detected")
          (str "Smart-link statistics are present but show no clicks or active links."))

abbrev pub gap_moment : Formats → CampaignDataBundle → Moment
gap_moment f d =
    moment MomentType.content_gap (if_active f d) 80
      (str "No completed content outputs exist for the campaign.") (str "content_gap_detected")
      (str "The campaign has no completed content outputs.")

abbrev pub stale_moment : Formats → Moment
stale_moment f =
    moment MomentType.content_gap Severity.low 60
      (str "The campaign's content is stale (nothing within the recent window).")
      (str "content_gap_stale_detected")
      (str "No completed content output within the last "
        ++ (f.number_text 14 ++ str " days of the reference date."))

abbrev pub stale_unless : Formats → Result Bool → Result (Option Moment)
stale_unless f (err e) = err e
stale_unless f (ok recent) = ok (if recent then none else some (stale_moment f))

-- `_content_gap`
unfoldable pub content_gap : Formats → CampaignDataBundle → Option ℕ → Result (Option Moment)
content_gap f d day =
    if not (is_some d.campaign)
    then ok none
    else if is_empty (completed_outputs f d)
    then ok (some (gap_moment f d))
    else elim day [
      | none ↦ ok none
      | some today ↦ stale_unless f (has_recent_output (completed_outputs f d) today)
    ]

abbrev pub has_substance : Formats → CampaignDataBundle → Bool
has_substance f d =
    not (is_empty (completed_outputs f d))
    || has_activity d.smart_link_stats
    || text_eq (status_of f d) (str "completed")

-- `_report_due`
unfoldable pub report_due : Formats → CampaignDataBundle → Option ℕ → Option Moment
report_due f d day =
    if not (is_some d.campaign)
    then none
    else if not (is_one_of (str "active" ∷ str "completed" ∷ str "paused" ∷ []) (status_of f d))
    then none
    else if has_recent_completed_report f d day
    then none
    else if not (has_substance f d)
    then none
    else some (
        moment MomentType.report_due Severity.medium 70
          (str "No recent report is available for the campaign.") (str "report_due_detected")
          (str "There is no recent completed report for the campaign."))

-- `_media_kit_missing`
unfoldable pub media_kit_missing : Formats → CampaignDataBundle → Option Moment
media_kit_missing f d =
    let is_media = text_eq (campaign_type_of f d) (str "media_campaign") in
    if not (is_some d.campaign) || has_usable_media_kit f d
    then none
    else if text_eq (status_of f d) (str "draft") && not is_media
    then none
    else some (
        moment MomentType.media_kit_missing (if is_media then Severity.high else Severity.medium) 70
          (str "The campaign has no usable media kit.") (str "media_kit_missing_detected")
          (str "No generated or published media kit exists for the campaign."))

-- `_smart_link_activity`
unfoldable pub smart_link_activity : CampaignDataBundle → Bool → Option Moment
smart_link_activity d weekly_fired =
    if weekly_fired
    then none
    else if has_activity d.smart_link_stats
    then some (
        moment MomentType.smart_link_activity Severity.low 70
          (str "Smart links are receiving active engagement.") (str "smart_link_activity_detected")
          (str "Smart-link statistics show positive click or active-link activity."))
    else none
