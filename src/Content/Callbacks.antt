-- ===== src/Content/Callbacks.antt =====
-- The effects of a content generation callback (content/callbacks.py): outputs, credits, usage, the
-- request's status, a notification, an audit event, and the job at last, all in one transaction.
use moment_flow.Common.{
  ℕ, ◌==◌, ltb, ℤ, pos, ltb_ℤ, Bool, true, false, Option, none, some, List, [], ◌∷◌, ◌++◌, Text,
  str, is_blank, text_eq, any, select, update_where, get_or_default, if◌then◌else◌,
}
use moment_flow.Store.{Env, Db}
use moment_flow.Store.Billing.{EventType}
use moment_flow.Store.Content.{PackRequest, ContentPack, RequestStatus, OutputStatus}
use moment_flow.Store.Jobs.{JobStatus}
use moment_flow.Store.Log.{MetaValue, ActorType, NotificationType}
use moment_flow.Store.Exec.{Exec, pure, modify, atomic, ◌>>=◌, ◌>>◌}
use moment_flow.Audit.{record_audit_event}
use moment_flow.Payload.{OutputData, Payload}
use moment_flow.Billing.Usage.{UsageArgs, record_usage_event, is_empty}
use moment_flow.Billing.Ledger.{consume_credits, release_reserved_credits}
use moment_flow.Jobs.{Callback, apply_job_callback}
use moment_flow.Content.{
  pack_credit_cost, pack_of, resolve_request, request_key, consume_details, release_details,
  save_request, notify_request,
}
use moment_flow.Content.Outputs.{existing_outputs}
use moment_flow.Content.Upserts.{Tally, process_outputs}

-- `_FAILURE_STATUSES`
abbrev pub is_failure : JobStatus → Bool
is_failure JobStatus.failed = true
is_failure JobStatus.timeout = true
is_failure JobStatus.expired = true
is_failure _ = false

abbrev pub is_delivered : OutputData → Bool
is_delivered o = elim o.status [ some s ↦ text_eq s (str "completed") | none ↦ false ]

-- `required or outputs_data`
abbrev pub required_or_all : List OutputData → List OutputData
required_or_all outs =
    let required = select (λ o. o.required) outs in if is_empty required then outs else required

-- `_should_consume`
unfoldable pub should_consume : JobStatus → List OutputData → Bool
should_consume JobStatus.completed outs = true
should_consume _ outs = any is_delivered (required_or_all outs)

-- A step whose value is not used.
abbrev pub void : {A : Type 0} → Exec Db A → Exec Db (Unit {0})
void m = m >> pure tt

-- `result.outputs` of the callback, in the transaction
abbrev pub outputs_of : Option Payload → List OutputData
outputs_of none = []
outputs_of (some p) = p.outputs

unfoldable pub store_outputs : Env → PackRequest → List OutputData → Exec Db Tally
store_outputs env request outs db =
    process_outputs env request outs 0 (existing_outputs request.id db.outputs [])
      (record { completed = 0; failed = 0; skipped = 0 }) db

-- The cost of the request's pack, as it is now.
unfoldable pub cost_of : PackRequest → Exec Db (ContentPack × ℤ)
cost_of request = do
  pack ← pack_of request
  cost ← λ db. (pack_credit_cost pack, db)
  pure (pack, cost)

unfoldable pub settle_credits : Env → PackRequest → ContentPack → ℤ → Bool → Exec Db (Unit {0})
settle_credits env request pack cost consume =
    if ltb_ℤ (pos 0) cost
    then if consume
      then void
          (consume_credits env request.workspace cost true (consume_details env pack request.id))
      else void
          (release_reserved_credits request.workspace cost (release_details env pack request.id))
    else pure tt

abbrev pub generated_usage : Env → PackRequest → UsageArgs
generated_usage env request = record {
  quantity = pos 10000;
  unit = [];
  related_entity_type = str "content_pack_request";
  related_entity_id = env.uuid_text request.id;
  cost_units = pos 0;
  billing_period = none;
  idempotency_key = request_key env (str "content_pack_generated") request.id;
  metadata = [];
}

abbrev pub is_produced : Tally → Bool
is_produced t = ltb 0 t.completed

unfoldable pub record_generated : Env → PackRequest → Tally → Exec Db (Unit {0})
record_generated env request t =
    if is_produced t
    then void (
        record_usage_event env request.workspace EventType.content_pack_generated
          (generated_usage env request))
    else pure tt

abbrev pub finished_status : JobStatus → RequestStatus
finished_status JobStatus.partially_completed = RequestStatus.partially_completed
finished_status _ = RequestStatus.completed

abbrev pub finished_value : JobStatus → Text
finished_value JobStatus.partially_completed = str "partially_completed"
finished_value _ = str "completed"

abbrev pub finished : ℕ → JobStatus → PackRequest → PackRequest
finished now status r = record r { status = finished_status status; completed_at = some now }

unfoldable pub notify_outcome : Env → PackRequest → Tally → Exec Db (Unit {0})
notify_outcome env request t =
    if is_produced t
    then void (
        notify_request env request (str "content_pack_ready") NotificationType.content_ready
          (str "Your content pack is ready")
          (env.number_text t.completed ++ str " output(s) generated for your content pack."))
    else void (
        notify_request env request (str "content_pack_failed") NotificationType.system
          (str "Content pack generation failed") (str "No outputs could be generated."))

unfoldable pub audit_completed : Env → PackRequest → JobStatus → Tally → Exec Db (Unit {0})
audit_completed env request status t = void (
    record_audit_event (record {
      action = str "content_pack.completed";
      workspace = some request.workspace;
      actor_user = none;
      actor_type = some ActorType.system;
      entity_type = str "content_pack_request";
      entity_id = env.uuid_text request.id;
      before_data = [];
      after_data =
          (str "request_status", MetaValue.text (finished_value status))
          ∷ (str "completed", MetaValue.number t.completed)
          ∷ (str "failed", MetaValue.number t.failed)
          ∷ (str "skipped", MetaValue.number t.skipped)
          ∷ [];
    }))

-- `_handle_success` after the credits and before the job
unfoldable pub finish_success : Env → PackRequest → JobStatus → Tally → Exec Db (Unit {0})
finish_success env request status t = do
  record_generated env request t
  modify (save_request request.id (finished env.now status))
  notify_outcome env request t
  audit_completed env request status t

-- `_handle_success` once the outputs are stored and the pack's cost is read
abbrev pub settle_success :
    Env → Callback Payload → PackRequest → Tally → ContentPack × ℤ → Exec Db (Unit {0})
settle_success env cb request t (pack, cost) = do
  settle_credits env request pack cost (should_consume cb.status (outputs_of cb.result))
  finish_success env request cb.status t
  apply_job_callback env cb.job cb.status [] cb.metadata

unfoldable pub handle_success : Env → Callback Payload → PackRequest → Exec Db (Unit {0})
handle_success env cb request = atomic (do
  t ← store_outputs env request (outputs_of cb.result)
  pc ← cost_of request
  settle_success env cb request t pc)

-- `error_message`, or else the message of `error`
abbrev pub failure_message : Callback Payload → Text
failure_message cb = if is_blank cb.message then get_or_default cb.error [] else cb.message

abbrev pub fail_outputs : ℕ → Db → Db
fail_outputs request db = record db {
  outputs =
      update_where (λ o. o.content_pack_request == request)
        (λ o. record o { status = OutputStatus.failed }) db.outputs;
}

unfoldable pub release_credits : Env → PackRequest → ContentPack → ℤ → Exec Db (Unit {0})
release_credits env request pack cost =
    if ltb_ℤ (pos 0) cost
    then void
        (release_reserved_credits request.workspace cost (release_details env pack request.id))
    else pure tt

abbrev pub failed_request : ℕ → Text → Text → PackRequest → PackRequest
failed_request now message old r = record r {
  status = RequestStatus.failed;
  failed_at = some now;
  error_message = if is_blank message then old else message;
}

unfoldable pub audit_failed : Env → PackRequest → Text → Exec Db (Unit {0})
audit_failed env request message = void (
    record_audit_event (record {
      action = str "content_pack.failed";
      workspace = some request.workspace;
      actor_user = none;
      actor_type = some ActorType.system;
      entity_type = str "content_pack_request";
      entity_id = env.uuid_text request.id;
      before_data = [];
      after_data =
          (str "request_status", MetaValue.text (str "failed"))
          ∷ (str "error", MetaValue.text message)
          ∷ [];
    }))

-- `_handle_failed` after the credits and before the job
unfoldable pub finish_failure : Env → PackRequest → Text → Exec Db (Unit {0})
finish_failure env request message = do
  modify (save_request request.id (failed_request env.now message request.error_message))
  void (
      notify_request env request (str "content_pack_failed") NotificationType.system
        (str "Content pack generation failed")
        (if is_blank message then str "The content pack could not be generated." else message))
  audit_failed env request message

-- `_handle_failed` once the pack's cost is read
abbrev pub settle_failure :
    Env → Callback Payload → PackRequest → ContentPack × ℤ → Exec Db (Unit {0})
settle_failure env cb request (pack, cost) = do
  release_credits env request pack cost
  finish_failure env request (failure_message cb)
  apply_job_callback env cb.job cb.status (failure_message cb) cb.metadata

unfoldable pub handle_failed : Env → Callback Payload → PackRequest → Exec Db (Unit {0})
handle_failed env cb request =
    atomic
      (do modify (fail_outputs request.id); pc ← cost_of request; settle_failure env cb request pc)

unfoldable pub apply_content_generation_callback : Env → Callback Payload → Exec Db (Unit {0})
apply_content_generation_callback env cb db = elim (resolve_request env cb.job db) [
  | none ↦ apply_job_callback env cb.job cb.status cb.message cb.metadata db
  | some request ↦
      if is_failure cb.status
      then handle_failed env cb request db
      else handle_success env cb request db
]
