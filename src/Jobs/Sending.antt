-- ===== src/Jobs/Sending.antt =====
-- `_submit_job` of integrations_bridge/services.py and what it calls. The settings and the HTTP client
-- are parameters.
use moment_flow.Common.{
  ℕ, ◌==◌, Bool, true, false, ◌&&◌, not, Option, none, some, [], ◌∷◌, Text, str, is_blank, text_eq,
  any, if◌then◌else◌,
}
use moment_flow.Store.{Env, Db}
use moment_flow.Store.Jobs.{Job, JobType, Provider, JobStatus}
use moment_flow.Store.Log.{MetaValue, ActorType}
use moment_flow.Store.Exec.{Error, Result, ok, err, Exec, pure, ◌>>◌}
use moment_flow.Audit.{record_audit_event}
use moment_flow.Jobs.{
  job_type_value, provider_value, status_value, resolve_provider, save_job, Callback, Entities,
}
use moment_flow.Jobs.Callbacks.{audited_type, audited_id}

-- What `client.post_json` comes to: an answer with the service's own job id or without, a timeout, or
-- an error, with the text of the exception.
pub data Answer : Type 0 where
  accepted : Option Text → Answer
  timed_out : Text → Answer
  refused : Text → Answer

-- The settings (`EXTERNAL_JOBS_ENABLED`, `EXTERNAL_JOBS_DRY_RUN`, the base URLs), the message for a
-- service that cannot be resolved, a fresh request id, and the HTTP client.
pub record Gateway : Type 0 where
  pub enabled : Bool
  pub dry_run : Bool
  pub is_configured : Provider → Bool
  pub not_resolved : Text
  pub fresh_request_id : Text
  pub post_json : Job → Answer

-- `_audit_submission`
unfoldable pub audit_submission : Env → Text → Bool → JobStatus → Job → Exec Db (Unit {0})
unfolding record_audit_event
audit_submission env action simulated status j =
    record_audit_event (record {
      action = action;
      workspace = j.workspace;
      actor_user = j.requested_by;
      actor_type = elim j.requested_by [ some u ↦ none | none ↦ some ActorType.system ];
      entity_type = audited_type j;
      entity_id = audited_id env j;
      before_data = [];
      after_data =
          (str "job_id", MetaValue.text (env.uuid_text j.id))
          ∷ (str "job_type", MetaValue.text (job_type_value j.job_type))
          ∷ (str "provider", MetaValue.text (provider_value j.provider))
          ∷ (str "status", MetaValue.text (status_value status))
          ∷ (str "request_id", MetaValue.text j.request_id)
          ∷ (str "dry_run", MetaValue.flag simulated)
          ∷ [];
    })
    >> pure tt

-- The fields of `_mark_failed` and `_mark_timeout`.
abbrev pub unsubmitted : ℕ → JobStatus → Text → Job → Job
unsubmitted now status message j = record j {
  status = status;
  failed_at = some now;
  error_message = message;
}

-- The fields of a submission.
abbrev pub submitted_job : ℕ → Job → Job
submitted_job now j = record j { status = JobStatus.submitted; submitted_at = some now }

abbrev pub with_external : Text → Job → Job
with_external external j = if is_blank external then j else record j { external_job_id = external }

-- The unique constraint on provider and external job id, against the other rows.
abbrev pub is_taken : Job → Text → Db → Bool
is_taken j external db =
    not (is_blank external)
    && any
        (λ r.
          not (r.id == j.id)
          && text_eq (provider_value r.provider) (provider_value j.provider)
          && text_eq r.external_job_id external)
        db.jobs

-- `except Exception` around an entity's handler
abbrev pub swallow : Result (Unit {0}) × Db → Result (Unit {0}) × Db
swallow (r, db) = (ok tt, db)

abbrev pub submission_failure : {P : Type 0} → Job → JobStatus → Text → Callback P
submission_failure j status message = record {
  job = j;
  status = status;
  result = none;
  error = none;
  message = message;
  metadata = [];
}

-- `resolve_service(job.job_type)` succeeds
unfoldable pub is_resolved : Gateway → JobType → Bool
is_resolved gateway ty = elim (resolve_provider ty) [
  | ok p ↦ gateway.is_configured p
  | err e ↦ false
]

module _ {P : Type 0} (entities : Entities P) where
  -- `_propagate_submission_failure`
  unfoldable pub propagate_failure : JobType → Env → Callback P → Exec Db (Unit {0})
  propagate_failure JobType.report_generation env cb db = swallow (entities.report env cb db)
  propagate_failure JobType.media_kit_generation env cb db = swallow (entities.media_kit env cb db)
  propagate_failure JobType.content_generation env cb db = swallow (entities.content env cb db)
  propagate_failure _ env cb db = (ok tt, db)

  -- `_mark_failed` and `_mark_timeout`
  unfoldable pub mark_unsubmitted : Env → JobStatus → Text → Job → Exec Db (Unit {0})
  mark_unsubmitted env status message j db =
      let failed = unsubmitted env.now status message j in
      (audit_submission env (str "external_job.submission_failed") false status j
          >> propagate_failure j.job_type env (submission_failure failed status message))
        (save_job j.id (unsubmitted env.now status message) db)

  -- `_submit_job` past a successful answer
  unfoldable pub mark_submitted : Env → Text → Job → Exec Db (Unit {0})
  mark_submitted env external j db =
      if is_taken j external db
      then (err Error.integrity_error, db)
      else audit_submission env (str "external_job.submitted") false JobStatus.submitted j
          (save_job j.id (λ r. with_external external (submitted_job env.now r)) db)

  unfoldable pub submit_answered : Env → Answer → Job → Exec Db (Unit {0})
  submit_answered env (Answer.accepted (some external)) j = mark_submitted env external j
  submit_answered env (Answer.accepted none) j = mark_submitted env [] j
  submit_answered env (Answer.timed_out message) j =
      mark_unsubmitted env JobStatus.timeout message j
  submit_answered env (Answer.refused message) j = mark_unsubmitted env JobStatus.failed message j

  -- The real submission of `_submit_job`.
  unfoldable pub submit_really : Env → Gateway → Job → Exec Db (Unit {0})
  submit_really env gateway j =
      if is_resolved gateway j.job_type
      then submit_answered env (gateway.post_json j) j
      else mark_unsubmitted env JobStatus.failed gateway.not_resolved j

  unfoldable pub submit_job : Env → Gateway → Job → Exec Db (Unit {0})
  submit_job env gateway j db =
      if not gateway.enabled
      then audit_submission env (str "external_job.queued") false JobStatus.queued j db
      else if gateway.dry_run
      then audit_submission env (str "external_job.submitted") true JobStatus.submitted j
          (save_job j.id (submitted_job env.now) db)
      else submit_really env gateway j db
