-- ===== src/Store/Reports.antt =====
-- Rows of reports/models.py, without the fields that no modelled code reads.
use moment_flow.Common.{ℕ, Option, Text}
use moment_flow.Store.Log.{Metadata}

pub data ReportStatus : Type 0 where
  queued processing completed failed archived : ReportStatus

pub record Report : Type 0 where
  pub id : ℕ
  pub workspace : ℕ
  pub title : Text
  pub status : ReportStatus
  pub requested_by : Option ℕ
  pub storage_asset : Option ℕ
  pub metadata : Metadata
  pub correlation_id : Text

pub data MediaKitStatus : Type 0 where
  draft generated published archived : MediaKitStatus

pub record MediaKit : Type 0 where
  pub id : ℕ
  pub workspace : ℕ
  pub title : Text
  pub status : MediaKitStatus
  pub created_by : Option ℕ
  pub storage_asset : Option ℕ
  pub metadata : Metadata
  pub correlation_id : Text
