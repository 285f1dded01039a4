-- ===== src/Reports/Requests.antt =====
-- The generation of a report or a media kit is metered and its job submitted
-- (backend_core/apps/reports/services.py). Billing and audit are installed.
use moment_flow.Common.{
  ℕ, Bool, Option, none, some, is_some, [], ◌∷◌, ◌++◌, Text, str, if◌then◌else◌,
}
use moment_flow.Store.{Env, Db}
use moment_flow.Store.Billing.{EventType}
use moment_flow.Store.Jobs.{Job, JobType}
use moment_flow.Store.Log.{MetaValue, Metadata, put, ActorType}
use moment_flow.Store.Reports.{Report, MediaKit}
use moment_flow.Store.Exec.{Error, Result, ok, err, Exec, pure, ◌>>◌}
use moment_flow.Audit.{record_audit_event}
use moment_flow.Billing.Usage.{record_creation_usage}
use moment_flow.Jobs.{Entities, find_job, job_type_value, provider_value, status_value}
use moment_flow.Jobs.Sending.{Gateway}
use moment_flow.Jobs.Submission.{Request, create_and_submit_external_job}
use moment_flow.Reports.{save_report, save_media_kit}

-- What `_submit_external_job` reads of a report or a media kit, and how it writes its metadata.
pub record Entity : Type 0 where
  pub id : ℕ
  pub workspace : ℕ
  pub metadata : Metadata
  pub job_type : JobType
  pub entity_type : Text
  pub prefix : Text
  pub audit_action : Text
  pub save_metadata : (Metadata → Metadata) → Db → Db

abbrev pub report_entity : Report → Entity
report_entity r = record {
  id = r.id;
  workspace = r.workspace;
  metadata = r.metadata;
  job_type = JobType.report_generation;
  entity_type = str "report";
  prefix = str "report_generation";
  audit_action = str "report.job_submitted";
  save_metadata = λ f. save_report r.id (λ s. record s { metadata = f s.metadata });
}

abbrev pub media_kit_entity : MediaKit → Entity
media_kit_entity k = record {
  id = k.id;
  workspace = k.workspace;
  metadata = k.metadata;
  job_type = JobType.media_kit_generation;
  entity_type = str "media_kit";
  prefix = str "media_kit_generation";
  audit_action = str "media_kit.job_submitted";
  save_metadata = λ f. save_media_kit k.id (λ s. record s { metadata = f s.metadata });
}

-- `_audit_submission`
unfoldable pub audit_job : Env → Entity → Option ℕ → Job → Exec Db (Unit {0})
audit_job env e user j =
    record_audit_event (record {
      action = e.audit_action;
      workspace = some e.workspace;
      actor_user = user;
      actor_type = if is_some user then none else some ActorType.system;
      entity_type = e.entity_type;
      entity_id = env.uuid_text e.id;
      before_data = [];
      after_data =
          (str "job_id", MetaValue.text (env.uuid_text j.id))
          ∷ (str "job_type", MetaValue.text (job_type_value j.job_type))
          ∷ (str "provider", MetaValue.text (provider_value j.provider))
          ∷ (str "status", MetaValue.text (status_value j.status))
          ∷ [];
    })
    >> pure tt

-- The payload is a parameter, and so is the text of an exception.
module _ {P : Type 0} (entities : Entities P) (error_text : Error → Text) where
  abbrev pub entity_job : Env → Entity → Metadata → Option ℕ → Text → Request
  entity_job env e payload user correlation_id = record {
    workspace = some e.workspace;
    job_type = e.job_type;
    related_entity_type = e.entity_type;
    related_entity_id = env.uuid_text e.id;
    requested_by = user;
    provider = none;
    payload = payload;
    idempotency_key = e.prefix ++ (b':' ∷ env.uuid_text e.id);
    metadata = (e.entity_type ++ str "_id", MetaValue.text (env.uuid_text e.id)) ∷ [];
    retry_count = 0;
    request_id = correlation_id;
  }

  -- `_submit_external_job` after the submission: an error is kept in the metadata as the entity was
  -- read, a job in the metadata as they are now.
  unfoldable pub note_job : Env → Entity → Option ℕ → Result (ℕ × Bool) → Exec Db (Unit {0})
  note_job env e user (err x) db = (
    ok tt,
    e.save_metadata
        (λ _. put (str "job_submission_error") (MetaValue.text (error_text x)) e.metadata) db,
  )
  note_job env e user (ok (id, created)) db =
      let db' =
        e.save_metadata (put (str "external_job_id") (MetaValue.text (env.uuid_text id))) db in
      elim (find_job id db') [ some j ↦ audit_job env e user j db' | none ↦ (ok tt, db') ]

  unfoldable pub submit_external_job :
      Env → Gateway → Entity → Metadata → Option ℕ → Text → Exec Db (Unit {0})
  submit_external_job env gateway e payload user correlation_id db =
      let (r, db') =
        create_and_submit_external_job entities env gateway
          (entity_job env e payload user correlation_id) db in
      note_job env e user r db'

  unfoldable pub submit_report_generation_job :
      Env → Gateway → Report → Metadata → Option ℕ → Text → Exec Db (Unit {0})
  submit_report_generation_job env gateway r payload user correlation_id =
      record_creation_usage env r.workspace EventType.report_generated (str "report") r.id []
      >> submit_external_job env gateway (report_entity r) payload user correlation_id

  unfoldable pub submit_media_kit_generation_job :
      Env → Gateway → MediaKit → Metadata → Option ℕ → Text → Exec Db (Unit {0})
  submit_media_kit_generation_job env gateway k payload user correlation_id =
      record_creation_usage env k.workspace EventType.media_kit_generated (str "media_kit") k.id []
      >> submit_external_job env gateway (media_kit_entity k) payload user correlation_id
