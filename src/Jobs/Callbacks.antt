-- ===== src/Jobs/Callbacks.antt =====
-- The callback endpoint (integrations_bridge/views.py, callbacks.py): a callback is resolved to its
-- job, checked against it, and dispatched by the job's type.
use moment_flow.Common.{
  ℕ, Bool, ◌&&◌, not, Option, none, some, [], ◌∷◌, ◌++◌, Text, str, is_blank, text_eq, find?,
  if◌then◌else◌, ◌||◌,
}
use moment_flow.Store.{Env, Db}
use moment_flow.Store.Jobs.{Job, JobType, JobStatus, is_terminal, same_job_status}
use moment_flow.Store.Log.{MetaValue, Metadata, ActorType}
use moment_flow.Store.Exec.{Error, Result, ok, err, Exec, pure, ◌>>◌}
use moment_flow.Audit.{record_audit_event}
use moment_flow.Jobs.{
  job_type_value, provider_value, status_value, same_workspace, find_job, save_job,
  apply_job_callback, Callback, Entities,
}

-- `related_entity_type or "external_job"` and `related_entity_id or job.id`
abbrev pub audited_type : Job → Text
audited_type j =
    if is_blank j.related_entity_type then str "external_job" else j.related_entity_type

abbrev pub audited_id : Env → Job → Text
audited_id env j = if is_blank j.related_entity_id then env.uuid_text j.id else j.related_entity_id

-- `_audit`, which reads the status that the transition has set
unfoldable pub audit_callback : Env → Text → Job → JobStatus → Exec Db (Unit {0})
unfolding record_audit_event
audit_callback env suffix j status =
    record_audit_event (record {
      action = job_type_value j.job_type ++ str "." ++ suffix;
      workspace = j.workspace;
      actor_user = none;
      actor_type = some ActorType.system;
      entity_type = audited_type j;
      entity_id = audited_id env j;
      before_data = [];
      after_data =
          (str "job_id", MetaValue.text (env.uuid_text j.id))
          ∷ (str "job_type", MetaValue.text (job_type_value j.job_type))
          ∷ (str "status", MetaValue.text (status_value status))
          ∷ [];
    })
    >> pure tt

-- The validated payload: `job_id` is `job_id` or `job`; a text that is absent is blank; `error`
-- is the `message` of an `error` that is a mapping.
pub record CallbackData (P : Type 0) : Type 0 where
  pub job_id : Option ℕ
  pub external_job_id : Text
  pub provider : Text
  pub workspace_id : ℕ
  pub status : JobStatus
  pub entity_type : Text
  pub entity_id : Text
  pub result : Option P
  pub error : Option Text
  pub error_message : Text
  pub metadata : Metadata

-- `_error_message`
abbrev pub callback_message : {P : Type 0} → CallbackData P → Text
callback_message body = elim body.error [
  | some m ↦ if is_blank m then body.error_message else m
  | none ↦ body.error_message
]

-- The handlers that change the job alone: the transition, then the audit.
unfoldable pub handle_simply : {P : Type 0} → Text → Env → Callback P → Exec Db (Unit {0})
handle_simply suffix env cb =
    apply_job_callback env cb.job cb.status cb.message cb.metadata
    >> audit_callback env suffix cb.job cb.status

module _ {P : Type 0} (entities : Entities P) where
  -- `callback_dispatcher`: `_HANDLERS` by the job's type
  unfoldable pub callback_dispatcher : JobType → Env → Callback P → Exec Db (Unit {0})
  callback_dispatcher JobType.content_generation = entities.content
  callback_dispatcher JobType.report_generation = entities.report
  callback_dispatcher JobType.media_kit_generation = entities.media_kit
  callback_dispatcher JobType.video_rendering = handle_simply (str "callback_unhandled")
  callback_dispatcher _ = handle_simply (str "callback_received")

abbrev pub names_external : Text → Text → Job → Bool
names_external external provider j =
    text_eq j.external_job_id external
    && (is_blank provider || text_eq (provider_value j.provider) provider)

unfoldable pub resolve_job : {P : Type 0} → CallbackData P → Db → Option Job
resolve_job body db = elim body.job_id [
  | some id ↦ find_job id db
  | none ↦ find? (names_external body.external_job_id body.provider) db.jobs
]

-- `given and held and given != held`
abbrev pub contradicts : Text → Text → Bool
contradicts given held = not (is_blank given) && not (is_blank held) && not (text_eq given held)

-- `_validate_compatibility`
unfoldable pub validate_compatibility : {P : Type 0} → CallbackData P → Job → Result (Unit {0})
validate_compatibility body j =
    if not (same_workspace (some body.workspace_id) j.workspace)
    then err (Error.validation_error (str "workspace_id"))
    else if contradicts body.entity_type j.related_entity_type
    then err (Error.validation_error (str "entity"))
    else if contradicts body.entity_id j.related_entity_id
    then err (Error.validation_error (str "entity"))
    else ok tt

-- The job in memory when it is dispatched.
abbrev pub received : ℕ → Job → Job
received now j = record j { callback_received_at = some now }

abbrev pub callback_of : {P : Type 0} → Env → CallbackData P → Job → Callback P
callback_of env body j = record {
  job = received env.now j;
  status = body.status;
  result = body.result;
  error = body.error;
  message = callback_message body;
  metadata = body.metadata;
}

module _ {P : Type 0} (entities : Entities P) where
  -- `post` from the persisted callback on
  unfoldable pub dispatch_received : Env → CallbackData P → Job → Exec Db (Unit {0})
  dispatch_received env body j db =
      callback_dispatcher entities j.job_type env (callback_of env body j)
        (save_job j.id (received env.now) db)

  -- `post` for a job that is compatible: the answer 409 is the error `conflict`.
  unfoldable pub receive : Env → CallbackData P → Job → Exec Db (Unit {0})
  receive env body j db =
      if same_job_status j.status body.status
      then (ok tt, db)
      else if is_terminal j.status
      then (err Error.conflict, db)
      else dispatch_received env body j db

  unfoldable pub receive_compatible :
      Env → CallbackData P → Job → Result (Unit {0}) → Exec Db (Unit {0})
  receive_compatible env body j (ok u) db = receive env body j db
  receive_compatible env body j (err e) db = (err e, db)

  -- `ExternalJobCallbackView.post` on validated data
  unfoldable pub post_callback : Env → CallbackData P → Exec Db (Unit {0})
  post_callback env body db = elim (resolve_job body db) [
    | none ↦ (err Error.not_found, db)
    | some j ↦ receive_compatible env body j (validate_compatibility body j) db
  ]
