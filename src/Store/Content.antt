-- ===== src/Store/Content.antt =====
-- Rows of content/models.py and the `Asset` of core/models.py.
use moment_flow.Common.{ℕ, ℤ, Option, Text}
use moment_flow.Store.Log.{Metadata}

pub data TemplateStatus : Type 0 where
  draft active deprecated archived : TemplateStatus

pub record Template : Type 0 where
  pub id : ℕ
  pub template_key : Text

pub record TemplateVersion : Type 0 where
  pub id : ℕ
  pub template : ℕ
  pub status : TemplateStatus

-- What a pack's metadata has under `credit_cost`: nothing or a false value, a number, or a text that
-- `Decimal` refuses.
pub data CreditCost : Type 0 where
  absent malformed : CreditCost
  amount : ℤ → CreditCost

pub record ContentPack : Type 0 where
  pub id : ℕ
  pub workspace : Option ℕ
  pub pack_key : Text
  pub status : TemplateStatus
  pub credit_cost : CreditCost

-- A row of the link table, which is in the model's order (`sort_order`, `created_at`).
pub record PackTemplate : Type 0 where
  pub content_pack : ℕ
  pub template : ℕ
  pub output_type : Text

pub record Campaign : Type 0 where
  pub id : ℕ
  pub workspace : ℕ
  pub track : Option ℕ
  pub artist : Option ℕ

pub data RequestStatus : Type 0 where
  draft queued processing partially_completed completed failed cancelled expired : RequestStatus

-- `campaign` holds the row that the foreign key leads to.
pub record PackRequest : Type 0 where
  pub id : ℕ
  pub workspace : ℕ
  pub campaign : Campaign
  pub track : Option ℕ
  pub artist : Option ℕ
  pub content_pack : ℕ
  pub requested_by : Option ℕ
  pub status : RequestStatus
  pub completed_at : Option ℕ
  pub failed_at : Option ℕ
  pub error_message : Text
  pub usage_event_id : Option ℕ
  pub metadata : Metadata
  pub correlation_id : Text

pub data OutputStatus : Type 0 where
  queued validating processing rendering uploading completed failed cancelled expired archived :
      OutputStatus

pub record Output : Type 0 where
  pub id : ℕ
  pub workspace : ℕ
  pub campaign : ℕ
  pub track : Option ℕ
  pub artist : Option ℕ
  pub content_pack_request : ℕ
  pub template : ℕ
  pub template_version : Option ℕ
  pub output_type : Text
  pub format : Text
  pub status : OutputStatus
  pub title : Text
  pub caption : Text
  pub cta : Text
  pub storage_asset : Option ℕ
  pub created_by : Option ℕ
  pub metadata : Metadata

pub data AssetType : Type 0 where
  artist_photo cover logo template_asset report_pdf media_kit_asset uploaded_image generated_output
        audio_preview other :
      AssetType

-- Without `duration_seconds`, a float that is only passed on.
pub record Asset : Type 0 where
  pub id : ℕ
  pub workspace : ℕ
  pub asset_type : AssetType
  pub storage_provider : Text
  pub bucket : Text
  pub storage_key : Text
  pub file_name : Text
  pub mime_type : Text
  pub file_size_bytes : Option ℕ
  pub width : Option ℕ
  pub height : Option ℕ
  pub checksum : Text
  pub public_url : Text
  pub created_by : Option ℕ
  pub metadata : Metadata
