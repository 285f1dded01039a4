-- ===== src/Content.antt =====
-- Content packs (backend_core/apps/content): the lookups and keys that the request service and the
-- callbacks share.
pub mod Outputs
pub mod Upserts
pub mod Callbacks
pub mod Kept
pub mod Handler
pub mod Requests
pub mod Refused
pub mod Rebuilt
pub mod Stored
pub mod Redelivered
pub mod Credits
pub mod Settled
pub mod Opening
pub mod Opened
pub mod Refunded
pub mod Uncharged
use moment_flow.Common.{
  ℕ, ◌==◌, ℤ, pos, Bool, true, false, ◌&&◌, Option, none, some, List, [], ◌∷◌, ◌++◌, Text, str,
  text_eq, find?, update_where, is_blank, if◌then◌else◌,
}
use moment_flow.Store.{Env, Db}
use moment_flow.Store.Content.{ContentPack, CreditCost, PackRequest}
use moment_flow.Store.Jobs.{Job}
use moment_flow.Store.Exec.{Error, Result, ok, err, Exec}
use moment_flow.Store.Log.{NotificationType, Notification}
use moment_flow.Billing.Ledger.{Details}
use moment_flow.Notify.{notify_once}

-- `_pack_credit_cost`: `Decimal` raises `InvalidOperation` on a text that is no number, which the
-- `except (TypeError, ValueError)` does not catch. A cost is a whole number of ten-thousandths: NaN,
-- Infinity and a cost of more than four decimals are not modelled.
unfoldable pub pack_credit_cost : ContentPack → Result ℤ
pack_credit_cost pack = elim pack.credit_cost [
  | CreditCost.absent ↦ ok (pos 0)
  | CreditCost.amount c ↦ ok c
  | CreditCost.malformed ↦ err Error.invalid_operation
]

-- `request.content_pack`
unfoldable pub pack_of : PackRequest → Exec Db ContentPack
pack_of request db = elim (find? (λ p. p.id == request.content_pack) db.content_packs) [
  | some p ↦ (ok p, db)
  | none ↦ (err Error.does_not_exist, db)
]

-- `_resolve_request`: the request that the job is about
unfoldable pub resolve_request : Env → Job → Db → Option PackRequest
resolve_request env j db =
    if text_eq j.related_entity_type (str "content_pack_request") && env.is_uuid j.related_entity_id
    then find? (λ r. text_eq (env.uuid_text r.id) j.related_entity_id) db.pack_requests
    else none

-- `f"{prefix}:{request.id}"`
abbrev pub request_key : Env → Text → ℕ → Text
request_key env prefix id = prefix ++ (b':' ∷ env.uuid_text id)

-- The keyword arguments of a credit movement for a request.
abbrev pub credit_details : Env → Text → Text → Text → ℕ → Details
credit_details env reason pack_key prefix id = record {
  reason = reason ++ (b':' ∷ pack_key);
  related_entity_type = str "content_pack_request";
  related_entity_id = env.uuid_text id;
  idempotency_key = request_key env prefix id;
  metadata = [];
}

abbrev pub reserve_details : Env → ContentPack → ℕ → Details
reserve_details env pack id =
    credit_details env (str "content_pack") pack.pack_key (str "content_pack_reserve") id

abbrev pub consume_details : Env → ContentPack → ℕ → Details
consume_details env pack id =
    credit_details env (str "content_pack") pack.pack_key (str "content_pack_consume") id

abbrev pub release_details : Env → ContentPack → ℕ → Details
release_details env pack id =
    credit_details env (str "content_pack_failed") pack.pack_key (str "content_pack_release") id

-- `request.save(update_fields=…)`
abbrev pub save_request : ℕ → (PackRequest → PackRequest) → Db → Db
save_request id f db = record db {
  pack_requests = update_where (λ r. r.id == id) f db.pack_requests;
}

-- `_notify_once` of content/callbacks.py
abbrev pub notify_request :
    Env → PackRequest → Text → NotificationType → Text → Text → Exec Db Notification
notify_request env request event ty title message =
    notify_once request.workspace (str "content_pack_request") (env.uuid_text request.id)
      request.requested_by event ty title message
