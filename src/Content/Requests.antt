-- ===== src/Content/Requests.antt =====
-- The request of a content pack (content/services.py): validation, quota, one transaction that opens
-- the request and reserves its credits, and then the renderer's job.
use moment_flow.Common.{
  ℕ, suc, ◌==◌, ℤ, pos, ltb_ℤ, Bool, true, false, not, Option, none, some, [], ◌∷◌, Text, str,
  if◌then◌else◌,
}
use moment_flow.Store.{Env, Db}
use moment_flow.Store.Billing.{EventType, UsageEvent}
use moment_flow.Store.Content.{PackRequest, ContentPack, Campaign, RequestStatus}
use moment_flow.Store.Jobs.{Job, JobType}
use moment_flow.Store.Log.{MetaValue, Metadata, put}
use moment_flow.Store.Exec.{
  Error, Result, ok, err, Exec, pure, raise_if, modify, atomic, ◌>>=◌, ◌>>◌,
}
use moment_flow.Audit.{record_audit_event}
use moment_flow.Billing.Usage.{UsageArgs, record_usage_event}
use moment_flow.Billing.Plans.{check_workspace_limit}
use moment_flow.Billing.Ledger.{reserve_credits}
use moment_flow.Jobs.{Entities, find_job, job_type_value, provider_value, status_value}
use moment_flow.Jobs.Sending.{Gateway}
use moment_flow.Jobs.Submission.{Request, create_and_submit_external_job}
use moment_flow.Content.{pack_credit_cost, request_key, reserve_details, save_request}
use moment_flow.Content.Outputs.{is_active}
use moment_flow.Content.Callbacks.{void}

-- A track or an artist, as far as the request reads it.
pub record Owned : Type 0 where
  pub id : ℕ
  pub workspace : ℕ

-- The keyword arguments of `create_content_pack_request`.
pub record PackArgs : Type 0 where
  pub workspace : ℕ
  pub requested_by : Option ℕ
  pub campaign : Campaign
  pub content_pack : ContentPack
  pub track : Option Owned
  pub artist : Option Owned
  pub metadata : Metadata
  pub correlation_id : Text

abbrev pub is_foreign : ℕ → Option Owned → Bool
is_foreign ws none = false
is_foreign ws (some o) = not (o.workspace == ws)

abbrev pub id_of : Option Owned → Option ℕ
id_of none = none
id_of (some o) = some o.id

-- `content_pack.workspace_id in (None, workspace.id)`
abbrev pub is_available : ℕ → ContentPack → Bool
is_available ws pack = elim pack.workspace [ none ↦ true | some w ↦ w == ws ]

-- The checks before the transaction.
unfoldable pub validate_request : Env → PackArgs → Exec Db (Unit {0})
validate_request env a = do
  raise_if (not (a.campaign.workspace == a.workspace)) (Error.validation_error (str "campaign"))
  raise_if (is_foreign a.workspace a.track) (Error.validation_error (str "track"))
  raise_if (is_foreign a.workspace a.artist) (Error.validation_error (str "artist"))
  raise_if (not (is_available a.workspace a.content_pack))
      (Error.validation_error (str "content_pack"))
  raise_if (not (is_active a.content_pack.status)) (Error.validation_error (str "content_pack"))
  check_workspace_limit env a.workspace (str "content_packs_per_month") (pos 1) none

abbrev pub new_request : PackArgs → Db → PackRequest
new_request a db = record {
  id = db.drawn;
  workspace = a.workspace;
  campaign = a.campaign;
  track = id_of a.track;
  artist = id_of a.artist;
  content_pack = a.content_pack.id;
  requested_by = a.requested_by;
  status = RequestStatus.queued;
  completed_at = none;
  failed_at = none;
  error_message = [];
  usage_event_id = none;
  metadata = a.metadata;
  correlation_id = a.correlation_id;
}

-- `ContentPackRequest.objects.create(…)`
unfoldable pub insert_request : PackArgs → Exec Db PackRequest
insert_request a db =
    let r = new_request a db in
    (ok r, record db { drawn = suc db.drawn; pack_requests = r ∷ db.pack_requests })

abbrev pub requested_usage : Env → ℤ → ℕ → UsageArgs
requested_usage env cost id = record {
  quantity = pos 10000;
  unit = [];
  related_entity_type = str "content_pack_request";
  related_entity_id = env.uuid_text id;
  cost_units = cost;
  billing_period = none;
  idempotency_key = request_key env (str "content_pack_requested") id;
  metadata = [];
}

unfoldable pub reserve_cost : Env → PackArgs → ℤ → ℕ → Exec Db (Unit {0})
reserve_cost env a cost id =
    if ltb_ℤ (pos 0) cost
    then void (reserve_credits a.workspace cost (reserve_details env a.content_pack id))
    else pure tt

unfoldable pub audit_requested : Env → PackArgs → ℕ → Exec Db (Unit {0})
audit_requested env a id = void (
    record_audit_event (record {
      action = str "content_pack.requested";
      workspace = some a.workspace;
      actor_user = a.requested_by;
      actor_type = none;
      entity_type = str "content_pack_request";
      entity_id = env.uuid_text id;
      before_data = [];
      after_data =
          (str "content_pack", MetaValue.text a.content_pack.pack_key)
          ∷ (str "campaign", MetaValue.text (env.uuid_text a.campaign.id))
          ∷ [];
    }))

-- The transaction once the usage event is recorded.
abbrev pub reserve_and_link :
    Env → PackArgs → ℤ → PackRequest → UsageEvent × Bool → Exec Db PackRequest
reserve_and_link env a cost request (event, created) = do
  reserve_cost env a cost request.id
  modify (save_request request.id (λ r. record r { usage_event_id = some event.id }))
  audit_requested env a request.id
  pure (record request { usage_event_id = some event.id })

-- The transaction: the request, its usage event, the reservation and the audit event.
unfoldable pub open_request : Env → PackArgs → ℤ → Exec Db PackRequest
open_request env a cost = atomic (do
  request ← insert_request a
  recorded ←
      record_usage_event env a.workspace EventType.content_pack_requested
        (requested_usage env cost request.id)
  reserve_and_link env a cost request recorded)

-- The job's part: what the submission reports of the job in its audit event.
unfoldable pub audit_submitted : Env → PackRequest → Option ℕ → Job → Exec Db (Unit {0})
audit_submitted env request user j = void (
    record_audit_event (record {
      action = str "content_pack.job_submitted";
      workspace = some request.workspace;
      actor_user = user;
      actor_type = none;
      entity_type = str "content_pack_request";
      entity_id = env.uuid_text request.id;
      before_data = [];
      after_data =
          (str "job_id", MetaValue.text (env.uuid_text j.id))
          ∷ (str "job_type", MetaValue.text (job_type_value j.job_type))
          ∷ (str "provider", MetaValue.text (provider_value j.provider))
          ∷ (str "status", MetaValue.text (status_value j.status))
          ∷ [];
    }))

-- The text of an exception of the submission is a parameter, as is the payload of
-- `build_content_generation_payload`, which only the service reads.
module _ {P : Type 0} (entities : Entities P) (payload_of : PackRequest → Metadata)
    (error_text : Error → Text) where
  abbrev pub pack_job : Env → PackRequest → Option ℕ → Text → Request
  pack_job env request user correlation_id = record {
    workspace = some request.workspace;
    job_type = JobType.content_generation;
    related_entity_type = str "content_pack_request";
    related_entity_id = env.uuid_text request.id;
    requested_by = user;
    provider = none;
    payload = payload_of request;
    idempotency_key = request_key env (str "content_generation") request.id;
    metadata = (str "content_pack_request_id", MetaValue.text (env.uuid_text request.id)) ∷ [];
    retry_count = 0;
    request_id = correlation_id;
  }

  -- What `_submit_content_generation_job` does with the outcome of the submission. An error is kept
  -- in the metadata of the request as it was opened; a job is noted in the row as it is now.
  unfoldable pub note_submission :
      Env → PackRequest → Option ℕ → Result (ℕ × Bool) → Exec Db (Unit {0})
  note_submission env request user (err e) db =
      modify
        (save_request request.id (λ r. record r {
          metadata =
              put (str "job_submission_error") (MetaValue.text (error_text e)) request.metadata;
        }))
        db
  note_submission env request user (ok (id, created)) db =
      let db' =
        save_request request.id
          (λ r. record r {
            metadata = put (str "external_job_id") (MetaValue.text (env.uuid_text id)) r.metadata;
          })
          db in
      elim (find_job id db') [
        | some j ↦ audit_submitted env request user j db'
        | none ↦ (ok tt, db')
      ]

  unfoldable pub submit_content_generation_job :
      Env → Gateway → PackRequest → Option ℕ → Text → Exec Db (Unit {0})
  submit_content_generation_job env gateway request user correlation_id db =
      let (r, db') =
        create_and_submit_external_job entities env gateway
          (pack_job env request user correlation_id) db in
      note_submission env request user r db'

  -- The request is returned by its id: the object in memory is the row.
  unfoldable pub create_content_pack_request : Env → Gateway → PackArgs → Exec Db ℕ
  create_content_pack_request env gateway a = do
    validate_request env a
    cost ← λ db. (pack_credit_cost a.content_pack, db)
    request ← open_request env a cost
    submit_content_generation_job env gateway request a.requested_by a.correlation_id
    pure request.id
