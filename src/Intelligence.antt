-- ===== src/Intelligence.antt =====
-- The intelligence engine (intelligence_engine/app): what a request brings, by the fields that the
-- heuristics read (schemas/campaign.py, schemas/common.py). A date is its ordinal, from 1 on.
pub mod Sorting
pub mod Moments
pub mod Recommendations
pub mod Scoring
pub mod Analysis
pub mod Orchestrator
use moment_flow.Store.Exec.{Result, ok, err}
use moment_flow.Common.{ℕ, ℤ, pos_part, Option, none, some, List, [], Text, get_or_default}

-- Python's `str.lower`, `date.fromisoformat` and the digits of a number.
pub record Formats : Type 0 where
  pub lower : Text → Text
  pub iso_date : Text → Option ℕ
  pub number_text : ℕ → Text

pub record CampaignInfo : Type 0 where
  pub campaign_type : Option Text
  pub status : Option Text
  pub start_date : Option ℕ
  pub end_date : Option ℕ
  pub primary_goal : Option Text

-- An artist is only asked for its presence.
pub record ArtistInfo : Type 0 where
  pub name : Option Text

pub record TrackInfo : Type 0 where
  pub release_date : Option ℕ

pub record SmartLinkStats : Type 0 where
  pub total_clicks : Option ℤ
  pub clicks_last_7_days : Option ℤ
  pub clicks_last_30_days : Option ℤ
  pub active_links : Option ℤ

pub record ContentOutputSummary : Type 0 where
  pub status : Option Text
  pub created_at : Option ℕ

pub record ReportSummary : Type 0 where
  pub status : Option Text
  pub period_end : Option ℕ

pub record MediaKitSummary : Type 0 where
  pub status : Option Text

-- An entry of `goals`, which is a mapping.
pub record Goal : Type 0 where
  pub goal_type : Option Text
  pub status : Option Text

pub record CampaignDataBundle : Type 0 where
  pub campaign : Option CampaignInfo
  pub artist : Option ArtistInfo
  pub track : Option TrackInfo
  pub smart_link_stats : Option SmartLinkStats
  pub content_outputs : List ContentOutputSummary
  pub previous_reports : List ReportSummary
  pub media_kits : List MediaKitSummary
  pub goals : List Goal

-- `context["reference_date"]`
pub data RawDate : Type 0 where
  absent other : RawDate
  of_date : ℕ → RawDate
  of_text : Text → RawDate

-- The fields of a request that the services read.
pub record CampaignRequest : Type 0 where
  pub request_id : Text
  pub workspace_id : Text
  pub payload_version : Text
  pub reference_date : RawDate
  pub bundle : CampaignDataBundle

-- `details` of a warning: keys with texts.
pub record Warning : Type 0 where
  pub code : Text
  pub message : Text
  pub details : List (Text × Text)

-- A weight is in hundredths.
pub record Explanation : Type 0 where
  pub code : Text
  pub message : Text
  pub weight : Option ℕ

abbrev pub warning : Text → Text → Warning
warning code message = record { code = code; message = message; details = [] }

abbrev pub explanation : Text → Text → Option ℕ → Explanation
explanation code message weight = record { code = code; message = message; weight = weight }

pub data Severity : Type 0 where
  low medium high : Severity

pub data ActionType : Type 0 where
  create_release_post create_story create_milestone_post create_weekly_growth_post : ActionType
  create_media_kit create_report improve_smart_link wait_for_more_data no_action : ActionType

pub data MomentType : Type 0 where
  release_window weekly_growth milestone_reached low_engagement : MomentType
  content_gap report_due media_kit_missing smart_link_activity : MomentType

-- A chain of calls that return or raise.
infixl 5 ◌>>=◌
abbrev pub ◌>>=◌ : {A B : Type 0} → Result A → (A → Result B) → Result B
m >>= f = elim m [ ok a ↦ f a | err e ↦ err e ]
