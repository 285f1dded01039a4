-- ===== src/Examples/JobExamples.antt =====
-- Submissions, retries and callbacks on concrete values.
use moment_flow.Common.{
  get_or_default, ℕ, true, false, none, some, [], ◌∷◌, ◌≡◌, refl, inl, Text, str, text_eq,
}
use moment_flow.Store.{Db}
use moment_flow.Store.Jobs.{Job, JobType, JobStatus, Provider, same_job_status}
use moment_flow.Store.Exec.{ok}
use moment_flow.Jobs.{
  save_lifecycle, transitioned_job, Handler, IsHandler, Entities, apply_job_callback, find_job,
  find_active_job, default_idempotency_key, resolve_provider,
}
use moment_flow.Jobs.Callbacks.{
  CallbackData, resolve_job, validate_compatibility, callback_dispatcher, handle_simply,
  audit_callback, dispatch_received, receive, receive_compatible, post_callback,
}
use moment_flow.Jobs.Sending.{Gateway, submit_job, audit_submission}
use moment_flow.Jobs.Submission.{
  Request, create_job, create_and_submit_external_job, retry_external_job,
}
use moment_flow.Jobs.Rows.{IsKeyed}
use moment_flow.Jobs.Delivered.{
  post_callback-terminal, post_callback-other_workspace, post_callback_retry,
}
use moment_flow.Jobs.Retried.{create_and_submit_external_job_retry}
use moment_flow.Jobs.TimedOut.{retry_external_job-timed_out}
use moment_flow.Examples.Data.{env, empty_db, dry}

-- The handlers where the job's entity is not there: the job alone is moved.
abbrev unlinked : Handler Text
unlinked e cb = apply_job_callback e cb.job cb.status cb.message cb.metadata

unlinked-IsHandler : IsHandler Text unlinked
unfolding apply_job_callback
unlinked-IsHandler e cb db = inl (cb.message, refl, refl)

abbrev entities : Entities Text
entities = record {
  content = unlinked;
  report = unlinked;
  media_kit = unlinked;
  content-IsHandler = unlinked-IsHandler;
  report-IsHandler = unlinked-IsHandler;
  media_kit-IsHandler = unlinked-IsHandler;
}

abbrev real : Gateway
real = record dry { dry_run = false }

abbrev preview : Request
preview = record {
  workspace = some 7;
  job_type = JobType.content_preview;
  related_entity_type = str "template";
  related_entity_id = str "t1";
  requested_by = some 3;
  provider = none;
  payload = [];
  idempotency_key = [];
  metadata = [];
  retry_count = 0;
  request_id = [];
}

abbrev job_with : JobStatus → Job
job_with status = record {
  id = 1;
  workspace = some 7;
  job_type = JobType.content_preview;
  provider = Provider.content_renderer;
  external_job_id = str "x1";
  related_entity_type = str "template";
  related_entity_id = str "t1";
  status = status;
  requested_by = some 3;
  submitted_at = none;
  started_at = none;
  completed_at = none;
  failed_at = none;
  callback_received_at = none;
  error_message = [];
  request_id = str "r1";
  idempotency_key = str "k";
  retry_count = 0;
  payload = [];
  metadata = [];
}

abbrev db_with : JobStatus → Db
db_with status = record empty_db { drawn = 2; jobs = job_with status ∷ [] }

abbrev failed_report : ℕ → CallbackData Text
failed_report ws = record {
  job_id = some 1;
  external_job_id = [];
  provider = [];
  workspace_id = ws;
  status = JobStatus.failed;
  entity_type = [];
  entity_id = [];
  result = none;
  error = none;
  error_message = str "no fonts";
  metadata = [];
}

post_callback-terminal_example :
    find_job 1 (post_callback entities env (failed_report 7) (db_with JobStatus.completed)).1
    ≡ some (job_with JobStatus.completed)
unfolding find_job IsKeyed
post_callback-terminal_example =
    post_callback-terminal entities env (failed_report 7) (db_with JobStatus.completed) 1
      (job_with JobStatus.completed) (refl, tt) refl refl

post_callback-other_workspace_example :
    find_job 1 (post_callback entities env (failed_report 8) (db_with JobStatus.submitted)).1
    ≡ some (job_with JobStatus.submitted)
unfolding find_job IsKeyed
post_callback-other_workspace_example =
    post_callback-other_workspace entities env (failed_report 8) (db_with JobStatus.submitted) 1
      (job_with JobStatus.submitted) (refl, tt) refl refl

post_callback_retry_example :
    let db' = (post_callback entities env (failed_report 7) (db_with JobStatus.submitted)).1 in
    ((j : Job) × (resolve_job (failed_report 7) db' ≡ some j)
      × (same_job_status j.status JobStatus.failed ≡ true))
    × (post_callback entities env (failed_report 7) db' ≡ (ok tt, db'))
unfolding post_callback receive_compatible receive dispatch_received callback_dispatcher
    handle_simply audit_callback apply_job_callback resolve_job validate_compatibility find_job
    text_eq
post_callback_retry_example =
    post_callback_retry entities env env (failed_report 7) (db_with JobStatus.submitted) refl

-- After a dry run: the job is submitted under its default key.
abbrev previewed : Db
previewed = (create_and_submit_external_job entities env dry preview empty_db).1

abbrev previewed_job : Job
previewed_job = get_or_default (find_job 0 previewed) (job_with JobStatus.queued)

create_and_submit_external_job_retry_example :
    create_and_submit_external_job entities env real preview previewed ≡ (ok (0, false), previewed)
unfolding create_and_submit_external_job create_job submit_job audit_submission find_active_job
    find_job default_idempotency_key resolve_provider text_eq
create_and_submit_external_job_retry_example =
    create_and_submit_external_job_retry entities env env dry real preview preview empty_db
      previewed 0 true _ refl refl refl refl refl

-- The report of the preview, and the table once it has timed out.
abbrev timed_out_db : Db
timed_out_db = (apply_job_callback env previewed_job JobStatus.timeout (str "late") [] previewed).1

abbrev late_job : Job
late_job =
    save_lifecycle (transitioned_job env.now JobStatus.timeout (str "late") [] previewed_job)
      previewed_job

retry_external_job-timed_out_example :
    retry_external_job entities env real late_job none none timed_out_db
    ≡ (ok (0, false), timed_out_db)
unfolding create_and_submit_external_job create_job submit_job audit_submission find_active_job
    find_job default_idempotency_key resolve_provider text_eq apply_job_callback
retry_external_job-timed_out_example =
    retry_external_job-timed_out entities env env env dry real preview empty_db previewed 0
      previewed_job late_job (str "late") [] none none refl refl refl
