-- ===== src/Store/Actions.antt =====
-- Rows of campaign_actions/models.py.
use moment_flow.Common.{ℕ, Option, Text}
use moment_flow.Store.Log.{Metadata}

pub data ActionType : Type 0 where
  content_pack report_request media_kit_request manual_task mark_reviewed dismiss : ActionType

pub data ActionStatus : Type 0 where
  pending in_progress completed failed dismissed cancelled : ActionStatus

pub data Priority : Type 0 where
  low medium high urgent : Priority

pub data Source : Type 0 where
  recommendation manual : Source

pub record CampaignAction : Type 0 where
  pub id : ℕ
  pub workspace : ℕ
  pub campaign : ℕ
  pub recommendation_ref : Text
  pub title : Text
  pub description : Text
  pub action_type : ActionType
  pub status : ActionStatus
  pub priority : Priority
  pub source : Source
  pub dismiss_reason : Text
  pub metadata : Metadata
  pub completed_at : Option ℕ
  pub cancelled_at : Option ℕ
  pub updated_by : Option ℕ
  pub updated_at : ℕ
