-- ===== src/Reports/Handler.antt =====
-- The callbacks of reports and media kits are handlers as the bridge relies on, and leave the ledger
-- alone.
use moment_flow.Common.{[], ℕ, refl, Option, none, some, Text, Option-cases, Bool-cases, inl, inr}
use moment_flow.Core.{
  core, ledger_of, jobs-core, ledger-core, record_audit_event-Keeps, notify_once-Keeps,
}
use moment_flow.Store.{Env, Db}
use moment_flow.Store.Content.{AssetType}
use moment_flow.Store.Log.{Metadata}
use moment_flow.Store.Reports.{Report, MediaKit}
use moment_flow.Store.Keeps.{Keeps, keeps_rules, modify-Keeps, then-Keeps, bind-Keeps, atomic-Keeps}
use moment_flow.Payload.{Payload}
use moment_flow.Jobs.{Callback, IsHandler, Handled, apply_job_callback}
use moment_flow.Jobs.Landing.{apply-Lands, bind-Lands, then-Lands, atomic-Lands}
use moment_flow.Reports.{
  resolve_report, resolve_media_kit, asset_data, link_asset, with_result, error_message,
  save_report, save_media_kit,
}
use moment_flow.Reports.Callbacks.{
  is_failure_status, linked, completed_report, audit_outcome, finish_report, report_completed,
  failed_report, fail_report, report_failed, apply_report_generation_callback, generated_media_kit,
  finish_media_kit, media_kit_completed, failed_media_kit, fail_media_kit, media_kit_failed,
  apply_media_kit_generation_callback,
}

linked-Keeps :
    (ws : ℕ) (ty : AssetType) (result : Option Payload) (created_by held : Option ℕ)
    → Keeps core (linked ws ty result created_by held)
unfolding linked link_asset
linked-Keeps ws ty result created_by (some id) = record { keeps = λ db. refl }
linked-Keeps ws ty result created_by none = record {
  keeps =
      λ db. elim (Option-cases (asset_data result)) [ inl n ↦ rw n refl | inr (a, s) ↦ rw s refl ];
}

audit_outcome-Keeps :
    (env : Env) (action : Text) (ws : ℕ) (entity_type : Text) (id : ℕ) (after : Metadata)
    → Keeps core (audit_outcome env action ws entity_type id after)
unfolding audit_outcome
audit_outcome-Keeps env action ws entity_type id after =
    search (keeps_rules, record_audit_event-Keeps)

finish_report-Keeps :
    (env : Env) (report : Report) (result : Option Payload) (asset : Option ℕ)
    → Keeps core (finish_report env report result asset)
unfolding finish_report
finish_report-Keeps env report result asset =
    then-Keeps
      (modify-Keeps
        (save_report report.id (completed_report asset (with_result result report.metadata)))
        (λ db. refl))
      (then-Keeps (notify_once-Keeps _ _ _ _ _ _ _ _) (audit_outcome-Keeps env _ _ _ _ _))

fail_report-Keeps :
    (env : Env) (report : Report) (message : Text) → Keeps core (fail_report env report message)
unfolding fail_report
fail_report-Keeps env report message =
    then-Keeps
      (modify-Keeps (save_report report.id (failed_report message report.metadata)) (λ db. refl))
      (then-Keeps (notify_once-Keeps _ _ _ _ _ _ _ _) (audit_outcome-Keeps env _ _ _ _ _))

finish_media_kit-Keeps :
    (env : Env) (kit : MediaKit) (result : Option Payload) (asset : Option ℕ)
    → Keeps core (finish_media_kit env kit result asset)
unfolding finish_media_kit
finish_media_kit-Keeps env kit result asset =
    then-Keeps
      (modify-Keeps
        (save_media_kit kit.id (generated_media_kit asset (with_result result kit.metadata)))
        (λ db. refl))
      (then-Keeps (notify_once-Keeps _ _ _ _ _ _ _ _) (audit_outcome-Keeps env _ _ _ _ _))

fail_media_kit-Keeps :
    (env : Env) (kit : MediaKit) (message : Text) → Keeps core (fail_media_kit env kit message)
unfolding fail_media_kit
fail_media_kit-Keeps env kit message =
    then-Keeps
      (modify-Keeps (save_media_kit kit.id (failed_media_kit message kit.metadata)) (λ db. refl))
      (then-Keeps (notify_once-Keeps _ _ _ _ _ _ _ _) (audit_outcome-Keeps env _ _ _ _ _))

module _ (env : Env) (cb : Callback Payload) where
  report_completed-Lands :
      (report : Report) (db : Db) → Handled env cb db (report_completed env cb report db)
  unfolding report_completed
  report_completed-Lands report = atomic-Lands env cb.job cb.status [] cb.metadata _ (
      bind-Lands env cb.job cb.status [] cb.metadata
        (jobs-core (
          linked-Keeps report.workspace AssetType.report_pdf cb.result report.requested_by
            report.storage_asset))
        (λ asset.
          then-Lands env cb.job cb.status [] cb.metadata
            (jobs-core (finish_report-Keeps env report cb.result asset))
            (apply-Lands env cb.job cb.status [] cb.metadata)))

  report_failed-Lands :
      (report : Report) (db : Db) → Handled env cb db (report_failed env cb report db)
  unfolding report_failed
  report_failed-Lands report = atomic-Lands env cb.job cb.status (error_message cb) cb.metadata _ (
      then-Lands env cb.job cb.status (error_message cb) cb.metadata
        (jobs-core (fail_report-Keeps env report (error_message cb)))
        (apply-Lands env cb.job cb.status (error_message cb) cb.metadata))

  media_kit_completed-Lands :
      (kit : MediaKit) (db : Db) → Handled env cb db (media_kit_completed env cb kit db)
  unfolding media_kit_completed
  media_kit_completed-Lands kit = atomic-Lands env cb.job cb.status [] cb.metadata _ (
      bind-Lands env cb.job cb.status [] cb.metadata
        (jobs-core (
          linked-Keeps kit.workspace AssetType.media_kit_asset cb.result kit.created_by
            kit.storage_asset))
        (λ asset.
          then-Lands env cb.job cb.status [] cb.metadata
            (jobs-core (finish_media_kit-Keeps env kit cb.result asset))
            (apply-Lands env cb.job cb.status [] cb.metadata)))

  media_kit_failed-Lands :
      (kit : MediaKit) (db : Db) → Handled env cb db (media_kit_failed env cb kit db)
  unfolding media_kit_failed
  media_kit_failed-Lands kit = atomic-Lands env cb.job cb.status (error_message cb) cb.metadata _ (
      then-Lands env cb.job cb.status (error_message cb) cb.metadata
        (jobs-core (fail_media_kit-Keeps env kit (error_message cb)))
        (apply-Lands env cb.job cb.status (error_message cb) cb.metadata))

pub report-IsHandler : IsHandler Payload apply_report_generation_callback
unfolding apply_report_generation_callback apply_job_callback
report-IsHandler env cb db = elim (Option-cases (resolve_report env cb.job db)) [
  | inl n ↦ rw (n, apply_report_generation_callback) (inl (cb.message, refl, refl))
  | inr (report, found) ↦ elim (Bool-cases (is_failure_status cb.status)) [
    | inl bad ↦
        rw (found, bad, apply_report_generation_callback) (report_failed-Lands env cb report db)
    | inr good ↦
        rw (found, good, apply_report_generation_callback) (report_completed-Lands env cb report db)
  ]
]

pub media_kit-IsHandler : IsHandler Payload apply_media_kit_generation_callback
unfolding apply_media_kit_generation_callback apply_job_callback
media_kit-IsHandler env cb db = elim (Option-cases (resolve_media_kit env cb.job db)) [
  | inl n ↦ rw (n, apply_media_kit_generation_callback) (inl (cb.message, refl, refl))
  | inr (kit, found) ↦ elim (Bool-cases (is_failure_status cb.status)) [
    | inl bad ↦
        rw (found, bad, apply_media_kit_generation_callback) (media_kit_failed-Lands env cb kit db)
    | inr good ↦
        rw (found, good, apply_media_kit_generation_callback)
          (media_kit_completed-Lands env cb kit db)
  ]
]

-- Reports and media kits are not charged here: their callbacks leave the ledger alone.
module _ (env : Env) (cb : Callback Payload) where
  applied-ledger :
      (message : Text)
      → Keeps ledger_of (apply_job_callback env cb.job cb.status message cb.metadata)
  unfolding apply_job_callback
  applied-ledger message = record { keeps = λ db. refl }

  report_completed-ledger : (report : Report) → Keeps ledger_of (report_completed env cb report)
  unfolding report_completed
  report_completed-ledger report = atomic-Keeps (
      bind-Keeps
        (ledger-core (
          linked-Keeps report.workspace AssetType.report_pdf cb.result report.requested_by
            report.storage_asset))
        (λ asset.
          then-Keeps (ledger-core (finish_report-Keeps env report cb.result asset))
            (applied-ledger [])))

  report_failed-ledger : (report : Report) → Keeps ledger_of (report_failed env cb report)
  unfolding report_failed
  report_failed-ledger report = atomic-Keeps (
      then-Keeps (ledger-core (fail_report-Keeps env report (error_message cb)))
        (applied-ledger (error_message cb)))

  media_kit_completed-ledger : (kit : MediaKit) → Keeps ledger_of (media_kit_completed env cb kit)
  unfolding media_kit_completed
  media_kit_completed-ledger kit = atomic-Keeps (
      bind-Keeps
        (ledger-core (
          linked-Keeps kit.workspace AssetType.media_kit_asset cb.result kit.created_by
            kit.storage_asset))
        (λ asset.
          then-Keeps (ledger-core (finish_media_kit-Keeps env kit cb.result asset))
            (applied-ledger [])))

  media_kit_failed-ledger : (kit : MediaKit) → Keeps ledger_of (media_kit_failed env cb kit)
  unfolding media_kit_failed
  media_kit_failed-ledger kit = atomic-Keeps (
      then-Keeps (ledger-core (fail_media_kit-Keeps env kit (error_message cb)))
        (applied-ledger (error_message cb)))

  pub report-Keeps : Keeps ledger_of (apply_report_generation_callback env cb)
  unfolding apply_report_generation_callback
  report-Keeps = record {
    keeps = λ db. elim (Option-cases (resolve_report env cb.job db)) [
      | inl n ↦ rw (n, apply_report_generation_callback) ((applied-ledger cb.message).keeps db)
      | inr (report, found) ↦ elim (Bool-cases (is_failure_status cb.status)) [
        | inl bad ↦
            rw (found, bad, apply_report_generation_callback)
              ((report_failed-ledger report).keeps db)
        | inr good ↦
            rw (found, good, apply_report_generation_callback)
              ((report_completed-ledger report).keeps db)
      ]
    ];
  }

  pub media_kit-Keeps : Keeps ledger_of (apply_media_kit_generation_callback env cb)
  unfolding apply_media_kit_generation_callback
  media_kit-Keeps = record {
    keeps = λ db. elim (Option-cases (resolve_media_kit env cb.job db)) [
      | inl n ↦ rw (n, apply_media_kit_generation_callback) ((applied-ledger cb.message).keeps db)
      | inr (kit, found) ↦ elim (Bool-cases (is_failure_status cb.status)) [
        | inl bad ↦
            rw (found, bad, apply_media_kit_generation_callback)
              ((media_kit_failed-ledger kit).keeps db)
        | inr good ↦
            rw (found, good, apply_media_kit_generation_callback)
              ((media_kit_completed-ledger kit).keeps db)
      ]
    ];
  }
