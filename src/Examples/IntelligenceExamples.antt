-- ===== src/Examples/IntelligenceExamples.antt =====
-- The moment detector on a concrete campaign.
use moment_flow.Common.{◌+◌, pos, ◌≡◌, refl, true, false, none, some, [], ◌∷◌, ◌⊎◌, is_some, str}
use moment_flow.Store.Exec.{Error, ok, err}
use moment_flow.Intelligence.{CampaignRequest, Formats, CampaignDataBundle, RawDate, MomentType}
use moment_flow.Intelligence.Moments.{is_insufficient, parse_reference_date, completed_outputs}
use moment_flow.Intelligence.Moments.Rules.{
  gap_moment, content_gap, milestone_reached, low_engagement, report_due, media_kit_missing,
}
use moment_flow.Intelligence.Recommendations.Rules.{
  recommend_milestone, recommend_smart_link, recommend_report, recommend_media_kit,
}
use moment_flow.Intelligence.Recommendations.Agreed.{called_for, action_of, recommended_agrees}
use moment_flow.Intelligence.Moments.Detector.{MomentsResponse, detect}
use moment_flow.Intelligence.Moments.Ordered.{IsOrdered, count}
use moment_flow.Intelligence.Moments.Detected.{is_type, bit, rule_of}
use moment_flow.Intelligence.Moments.Reported.{
  reference_of, overflows, detect-IsOrdered, detect_returns,
}

abbrev pub formats : Formats
formats = record { lower = λ t. t; iso_date = λ t. none; number_text = λ n. (n + 48) ∷ [] }

-- An active release: ten days before its date, with clicks, without content.
abbrev pub bundle : CampaignDataBundle
bundle = record {
  campaign = some (record {
    campaign_type = some (str "single_release");
    status = some (str "active");
    start_date = some 990;
    end_date = some 1090;
    primary_goal = none;
  });
  artist = none;
  track = some (record { release_date = some 1010 });
  smart_link_stats = some (record {
    total_clicks = some (pos 1500);
    clicks_last_7_days = some (pos 25);
    clicks_last_30_days = none;
    active_links = some (pos 1);
  });
  content_outputs = [];
  previous_reports = [];
  media_kits = [];
  goals = [];
}

abbrev pub request : CampaignRequest
request = record {
  request_id = str "r1";
  workspace_id = str "w1";
  payload_version = str "1";
  reference_date = RawDate.of_date 1000;
  bundle = bundle;
}

detect-IsOrdered_example :
    (answer : MomentsResponse) × (detect formats request ≡ ok answer)
    × IsOrdered answer.moments
    × ((u : MomentType)
        → count (is_type u) answer.moments
          ≡ bit (is_some (rule_of formats bundle (some 1000) (some (gap_moment formats bundle)) u)))
unfolding is_insufficient parse_reference_date content_gap completed_outputs
detect-IsOrdered_example =
    detect-IsOrdered formats request (some (gap_moment formats bundle)) refl refl

detect_returns_example :
    ((overflows formats bundle (reference_of formats request) ≡ false)
      × ((answer : MomentsResponse) × (detect formats request ≡ ok answer)))
    ⊎ ((overflows formats bundle (reference_of formats request) ≡ true)
        × (detect formats request ≡ err Error.overflow_error))
detect_returns_example = detect_returns formats request

recommended_agrees_example :
    (called_for (milestone_reached formats bundle) ≡ action_of (recommend_milestone formats bundle))
    × (called_for (low_engagement formats bundle) ≡ action_of (recommend_smart_link formats bundle))
    × (called_for (report_due formats bundle (some 1000))
        ≡ action_of (recommend_report formats bundle (some 1000)))
    × (called_for (media_kit_missing formats bundle)
        ≡ action_of (recommend_media_kit formats bundle))
recommended_agrees_example = recommended_agrees formats bundle (some 1000) refl
