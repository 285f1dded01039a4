-- ===== src/Reports/Callbacks.antt =====
-- The effects of report and media kit callbacks (reports/callbacks.py), each in one transaction that
-- moves the job at last.
use moment_flow.Common.{
  ℕ, Bool, true, false, Option, none, some, [], ◌∷◌, Text, str, is_blank, is_some, if◌then◌else◌,
}
use moment_flow.Store.{Env, Db}
use moment_flow.Store.Content.{AssetType}
use moment_flow.Store.Jobs.{JobStatus}
use moment_flow.Store.Log.{MetaValue, Metadata, ActorType, NotificationType, put}
use moment_flow.Store.Reports.{Report, ReportStatus, MediaKit, MediaKitStatus}
use moment_flow.Store.Exec.{ok, Exec, pure, modify, atomic, ◌>>=◌, ◌>>◌}
use moment_flow.Audit.{record_audit_event}
use moment_flow.Notify.{notify_once}
use moment_flow.Payload.{Payload}
use moment_flow.Jobs.{Callback, apply_job_callback}
use moment_flow.Reports.{
  resolve_report, resolve_media_kit, asset_data, link_asset, with_result, error_message,
  save_report, save_media_kit,
}

-- `_FAILURE_STATUSES`
abbrev pub is_failure_status : JobStatus → Bool
is_failure_status JobStatus.failed = true
is_failure_status JobStatus.timeout = true
is_failure_status JobStatus.expired = true
is_failure_status _ = false

-- `_create_asset` under its guard; the id of the asset that the entity has then
unfoldable pub linked : ℕ → AssetType → Option Payload → Option ℕ → Option ℕ → Exec Db (Option ℕ)
linked ws ty result created_by held db =
    let (asset, db') = link_asset ws ty (asset_data result) created_by held db in (ok asset, db')

abbrev pub completed_report : Option ℕ → Metadata → Report → Report
completed_report asset meta r = record r {
  status = ReportStatus.completed;
  storage_asset = asset;
  metadata = meta;
}

-- The audit event of an outcome.
unfoldable pub audit_outcome : Env → Text → ℕ → Text → ℕ → Metadata → Exec Db (Unit {0})
audit_outcome env action ws entity_type id after =
    record_audit_event (record {
      action = action;
      workspace = some ws;
      actor_user = none;
      actor_type = some ActorType.system;
      entity_type = entity_type;
      entity_id = env.uuid_text id;
      before_data = [];
      after_data = after;
    })
    >> pure tt

unfoldable pub finish_report : Env → Report → Option Payload → Option ℕ → Exec Db (Unit {0})
finish_report env report result asset = do
  modify (save_report report.id (completed_report asset (with_result result report.metadata)))
  notify_once report.workspace (str "report") (env.uuid_text report.id) report.requested_by
      (str "report_ready") NotificationType.report_ready (str "Your report is ready") report.title
  audit_outcome env (str "report.completed") report.workspace (str "report") report.id (
      (str "status", MetaValue.text (str "completed"))
      ∷ (str "has_asset", MetaValue.flag (is_some asset))
      ∷ [])

-- `_report_completed`
unfoldable pub report_completed : Env → Callback Payload → Report → Exec Db (Unit {0})
report_completed env cb report = atomic (do
  asset ←
      linked report.workspace AssetType.report_pdf cb.result report.requested_by
        report.storage_asset
  finish_report env report cb.result asset
  apply_job_callback env cb.job cb.status [] cb.metadata)

abbrev pub failed_report : Text → Metadata → Report → Report
failed_report message meta r = record r {
  status = ReportStatus.failed;
  metadata = put (str "error") (MetaValue.text message) meta;
}

unfoldable pub fail_report : Env → Report → Text → Exec Db (Unit {0})
fail_report env report message = do
  modify (save_report report.id (failed_report message report.metadata))
  notify_once report.workspace (str "report") (env.uuid_text report.id) report.requested_by
      (str "report_failed") NotificationType.system (str "Report generation failed")
      (if is_blank message then str "The report could not be generated." else message)
  audit_outcome env (str "report.failed") report.workspace (str "report") report.id
      ((str "status", MetaValue.text (str "failed")) ∷ (str "error", MetaValue.text message) ∷ [])

-- `_report_failed`
unfoldable pub report_failed : Env → Callback Payload → Report → Exec Db (Unit {0})
report_failed env cb report = atomic (do
  fail_report env report (error_message cb)
  apply_job_callback env cb.job cb.status (error_message cb) cb.metadata)

unfoldable pub apply_report_generation_callback : Env → Callback Payload → Exec Db (Unit {0})
apply_report_generation_callback env cb db = elim (resolve_report env cb.job db) [
  | none ↦ apply_job_callback env cb.job cb.status cb.message cb.metadata db
  | some report ↦
      if is_failure_status cb.status
      then report_failed env cb report db
      else report_completed env cb report db
]

abbrev pub generated_media_kit : Option ℕ → Metadata → MediaKit → MediaKit
generated_media_kit asset meta k = record k {
  status = MediaKitStatus.generated;
  storage_asset = asset;
  metadata = meta;
}

unfoldable pub finish_media_kit : Env → MediaKit → Option Payload → Option ℕ → Exec Db (Unit {0})
finish_media_kit env kit result asset = do
  modify (save_media_kit kit.id (generated_media_kit asset (with_result result kit.metadata)))
  notify_once kit.workspace (str "media_kit") (env.uuid_text kit.id) kit.created_by
      (str "media_kit_ready") NotificationType.media_kit_ready (str "Your media kit is ready")
      kit.title
  audit_outcome env (str "media_kit.completed") kit.workspace (str "media_kit") kit.id (
      (str "status", MetaValue.text (str "generated"))
      ∷ (str "has_asset", MetaValue.flag (is_some asset))
      ∷ [])

-- `_media_kit_completed`
unfoldable pub media_kit_completed : Env → Callback Payload → MediaKit → Exec Db (Unit {0})
media_kit_completed env cb kit = atomic (do
  asset ← linked kit.workspace AssetType.media_kit_asset cb.result kit.created_by kit.storage_asset
  finish_media_kit env kit cb.result asset
  apply_job_callback env cb.job cb.status [] cb.metadata)

-- A media kit has no failed status: the metadata says so.
abbrev pub failed_media_kit : Text → Metadata → MediaKit → MediaKit
failed_media_kit message meta k = record k {
  metadata =
      put (str "error") (MetaValue.text message)
        (put (str "generation_status") (MetaValue.text (str "failed")) meta);
}

unfoldable pub fail_media_kit : Env → MediaKit → Text → Exec Db (Unit {0})
fail_media_kit env kit message = do
  modify (save_media_kit kit.id (failed_media_kit message kit.metadata))
  notify_once kit.workspace (str "media_kit") (env.uuid_text kit.id) kit.created_by
      (str "media_kit_failed") NotificationType.system (str "Media kit generation failed")
      (if is_blank message then str "The media kit could not be generated." else message)
  audit_outcome env (str "media_kit.failed") kit.workspace (str "media_kit") kit.id (
      (str "generation_status", MetaValue.text (str "failed"))
      ∷ (str "error", MetaValue.text message)
      ∷ [])

-- `_media_kit_failed`
unfoldable pub media_kit_failed : Env → Callback Payload → MediaKit → Exec Db (Unit {0})
media_kit_failed env cb kit = atomic (do
  fail_media_kit env kit (error_message cb)
  apply_job_callback env cb.job cb.status (error_message cb) cb.metadata)

unfoldable pub apply_media_kit_generation_callback : Env → Callback Payload → Exec Db (Unit {0})
apply_media_kit_generation_callback env cb db = elim (resolve_media_kit env cb.job db) [
  | none ↦ apply_job_callback env cb.job cb.status cb.message cb.metadata db
  | some kit ↦
      if is_failure_status cb.status
      then media_kit_failed env cb kit db
      else media_kit_completed env cb kit db
]
