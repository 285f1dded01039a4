-- ===== src/Intelligence/Recommendations.antt =====
-- Recommendations, and what their rules share
-- (intelligence_engine/app/services/recommendation_engine.py), on the data as Facts reads it. A
-- confidence is in hundredths.
pub mod Facts
pub mod Rules
pub mod Agreed
pub mod Engine
pub mod Fired
pub mod Advised
pub mod Warned
use moment_flow.Common.{
  ℕ, leb, Bool, true, false, ◌&&◌, ◌||◌, not, Option, none, some, is_some, List, [], ◌∷◌, ◌++◌,
  Text, str, text_eq, any, if◌then◌else◌,
}
use moment_flow.Intelligence.{
  Formats, CampaignDataBundle, Explanation, explanation, Severity, ActionType,
}
use moment_flow.Intelligence.Moments.{is_one_of}
use moment_flow.Intelligence.Moments.Rules.{distance, release_date_of}
use moment_flow.Intelligence.Recommendations.Facts.{campaign_status, campaign_kind}

pub record ExpectedOutput : Type 0 where
  pub output_type : Text
  pub format : Text
  pub template_key : Text

-- `priority` has the three values of a severity.
pub record Recommendation : Type 0 where
  pub action : ActionType
  pub priority : Severity
  pub confidence : ℕ
  pub reason : Text
  pub suggested_content_pack : Option Text
  pub expected_outputs : List ExpectedOutput
  pub explanations : List Explanation

abbrev pub explained : Text → Text → List Explanation
explained code message = explanation code message none ∷ []

abbrev pub post_output : ExpectedOutput
post_output = record {
  output_type = str "post";
  format = str "png";
  template_key = str "system_post";
}

abbrev pub story_output : ExpectedOutput
story_output = record {
  output_type = str "story";
  format = str "png";
  template_key = str "system_story";
}

abbrev pub carousel_output : ExpectedOutput
carousel_output = record {
  output_type = str "carousel";
  format = str "png";
  template_key = str "system_carousel";
}

abbrev pub media_kit_output : ExpectedOutput
media_kit_output = record {
  output_type = str "media_kit";
  format = str "pdf";
  template_key = str "system_media_kit";
}

abbrev pub report_output : ExpectedOutput
report_output = record {
  output_type = str "report";
  format = str "pdf";
  template_key = str "system_report";
}

-- `_in_release_window`
abbrev pub in_release_window : CampaignDataBundle → Option ℕ → Bool
in_release_window d none = false
in_release_window d (some day) = elim (release_date_of d) [
  | some release ↦ leb (distance release day) 14
  | none ↦ false
]

abbrev pub is_release_campaign : Formats → CampaignDataBundle → Bool
is_release_campaign f d =
    is_one_of (str "single_release" ∷ str "music_video_release" ∷ str "album_release" ∷ [])
      (campaign_kind f d)
    && is_one_of (str "active" ∷ str "scheduled" ∷ []) (campaign_status f d)
