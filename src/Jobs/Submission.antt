-- ===== src/Jobs/Submission.antt =====
-- create_and_submit_external_job and retry_external_job of integrations_bridge/services.py.
use moment_flow.Common.{
  ℕ, suc, Bool, true, false, Option, none, some, [], ◌∷◌, Text, str, is_blank, if◌then◌else◌,
  or_else,
}
use moment_flow.Store.{Env, Db}
use moment_flow.Store.Jobs.{Job, JobType, Provider, JobStatus, is_retryable}
use moment_flow.Store.Log.{MetaValue, Metadata, put}
use moment_flow.Store.Exec.{Error, Result, ok, err, Exec}
use moment_flow.Jobs.{default_idempotency_key, find_active_job, resolve_provider, Entities}
use moment_flow.Jobs.Sending.{Gateway, submit_job}

-- The keyword arguments of `create_and_submit_external_job`; a text that is not given is blank.
pub record Request : Type 0 where
  pub workspace : Option ℕ
  pub job_type : JobType
  pub related_entity_type : Text
  pub related_entity_id : Text
  pub requested_by : Option ℕ
  pub provider : Option Provider
  pub payload : Metadata
  pub idempotency_key : Text
  pub metadata : Metadata
  pub retry_count : ℕ
  pub request_id : Text

-- `idempotency_key or default_idempotency_key(…)`
abbrev pub key_of : Request → Text
key_of r =
    if is_blank r.idempotency_key
    then default_idempotency_key r.job_type r.related_entity_id
    else r.idempotency_key

abbrev pub provider_of : Request → Result Provider
provider_of r = elim r.provider [ some p ↦ ok p | none ↦ resolve_provider r.job_type ]

-- The row that is created.
abbrev pub new_job : Gateway → Request → Provider → Db → Job
new_job gateway r provider db = record {
  id = db.drawn;
  workspace = r.workspace;
  job_type = r.job_type;
  provider = provider;
  external_job_id = [];
  related_entity_type = r.related_entity_type;
  related_entity_id = r.related_entity_id;
  status = JobStatus.queued;
  requested_by = r.requested_by;
  submitted_at = none;
  started_at = none;
  completed_at = none;
  failed_at = none;
  callback_received_at = none;
  error_message = [];
  request_id = if is_blank r.request_id then gateway.fresh_request_id else r.request_id;
  idempotency_key = key_of r;
  retry_count = r.retry_count;
  payload = r.payload;
  metadata = r.metadata;
}

abbrev pub insert_job : Job → Db → Db
insert_job j db = record db { drawn = suc db.drawn; jobs = j ∷ db.jobs }

-- The id of the job that the call returns.
abbrev pub returning : ℕ → Result (Unit {0}) × Db → Result (ℕ × Bool) × Db
returning id (ok u, db) = (ok (id, true), db)
returning id (err e, db) = (err e, db)

module _ {P : Type 0} (entities : Entities P) where
  -- From the provider on.
  unfoldable pub create_job : Env → Gateway → Request → Result Provider → Exec Db (ℕ × Bool)
  create_job env gateway r (err e) db = (err e, db)
  create_job env gateway r (ok provider) db =
      let j = new_job gateway r provider db in
      returning j.id (submit_job entities env gateway j (insert_job j db))

  -- The job is returned by its id: the object in memory is the row.
  unfoldable pub create_and_submit_external_job : Env → Gateway → Request → Exec Db (ℕ × Bool)
  create_and_submit_external_job env gateway r db =
      elim (find_active_job r.workspace (key_of r) db) [
        | some j ↦ (ok (j.id, false), db)
        | none ↦ create_job env gateway r (provider_of r) db
      ]

  -- The request of a retry: `payload` defaults to the old job's, `requested_by` too.
  abbrev pub retry_request : Env → Job → Option ℕ → Option Metadata → Request
  retry_request env j requested_by payload = record {
    workspace = j.workspace;
    job_type = j.job_type;
    related_entity_type = j.related_entity_type;
    related_entity_id = j.related_entity_id;
    requested_by = or_else requested_by j.requested_by;
    provider = some j.provider;
    payload = elim payload [ some p ↦ p | none ↦ j.payload ];
    idempotency_key = j.idempotency_key;
    metadata = put (str "retried_from") (MetaValue.text (env.uuid_text j.id)) j.metadata;
    retry_count = suc j.retry_count;
    request_id = [];
  }

  unfoldable pub retry_external_job :
      Env → Gateway → Job → Option ℕ → Option Metadata → Exec Db (ℕ × Bool)
  retry_external_job env gateway j requested_by payload db =
      if is_retryable j.status
      then create_and_submit_external_job env gateway (retry_request env j requested_by payload) db
      else (err Error.retry_not_allowed, db)
