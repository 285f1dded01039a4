-- ===== src/Examples/ContentExamples.antt =====
-- Content packs on concrete values: requested, called back, delivered twice, refused.
use moment_flow.Common.{
  ◌≤ℤ◌, pos, ◌+ℤ◌, true, false, Option, none, some, [], ◌∷◌, ◌≡◌, refl, arith, Text, str, text_eq,
  map,
}
use moment_flow.Store.{Db}
use moment_flow.Store.Content.{ContentPack, CreditCost, PackRequest, TemplateStatus, Output}
use moment_flow.Store.Jobs.{Job, JobType, JobStatus, Provider}
use moment_flow.Store.Log.{get, put, merge}
use moment_flow.Store.Exec.{Error, Result, ok}
use moment_flow.Audit.{record_audit_event, create_notification}
use moment_flow.Payload.{AssetData, OutputData, Payload}
use moment_flow.Notify.{notify_once}
use moment_flow.Billing.Ledger.{
  CreditKind, find_entry, sum_amounts, get_credit_balance, create_entry, existing_entry, or_winner,
  record_ledger_entry, run_credit, grant_credits, reserve_credits, reserve_new,
  release_reserved_credits, audit_if_created,
}
use moment_flow.Billing.Usage.{
  record_usage_event, existing_event, find_event, create_event, or_first_event,
}
use moment_flow.Billing.Plans.{
  get_active_subscription, plan_feature, active_plan_feature, get_plan_limit, check_workspace_limit,
}
use moment_flow.Jobs.{Callback, apply_job_callback}
use moment_flow.Content.{resolve_request, pack_credit_cost, pack_of}
use moment_flow.Content.Outputs.{
  existing_outputs, Keyed, find_key, put_key, output_key, resolve_template, output_status,
}
use moment_flow.Content.Upserts.{
  blank_output, filled_output, attach_asset, save_new, upsert_resolved, upsert_output,
  replace_output,
}
use moment_flow.Content.Callbacks.{
  cost_of, release_credits, finish_failure, audit_failed, handle_failed,
  apply_content_generation_callback,
}
use moment_flow.Content.Requests.{
  PackArgs, new_request, insert_request, reserve_cost, audit_requested, open_request,
  validate_request, create_content_pack_request,
}
use moment_flow.Content.Credits.{settlement_of}
use moment_flow.Content.Settled.{IsSettled, content_callback-IsSettled}
use moment_flow.Content.Uncharged.{content_callback_uncharged}
use moment_flow.Content.Refunded.{content_pack_refunded}
use moment_flow.Content.Refused.{create_content_pack_request-raised}
use moment_flow.Content.Redelivered.{upsert_output_redelivered}
use moment_flow.Bridge.{bridge}
use moment_flow.Examples.Data.{env, empty_db, keyed, dry}

abbrev pack : ContentPack
pack = record {
  id = 9;
  workspace = none;
  pack_key = str "starter";
  status = TemplateStatus.active;
  credit_cost = CreditCost.amount (pos 300000);
}

-- Workspace 7 has 100 credits, and the pack costs 30.
abbrev paid_db : Db
paid_db =
    record (run_credit env CreditKind.grant 7 (pos 1000000) (keyed (str "g")) none empty_db).1 {
      drawn = 20;
      content_packs = pack ∷ [];
    }

abbrev pub args : PackArgs
args = record {
  workspace = 7;
  requested_by = some 3;
  campaign = record { id = 4; workspace = 7; track = none; artist = none };
  content_pack = pack;
  track = none;
  artist = none;
  metadata = [];
  correlation_id = [];
}

abbrev requested_db : Db
requested_db = (open_request env args (pos 300000) paid_db).1

abbrev request : PackRequest
request = record (new_request args paid_db) { usage_event_id = some 21 }

abbrev job : Job
job = record {
  id = 1;
  workspace = some 7;
  job_type = JobType.content_generation;
  provider = Provider.content_renderer;
  external_job_id = str "x1";
  related_entity_type = str "content_pack_request";
  related_entity_id = env.uuid_text 20;
  status = JobStatus.submitted;
  requested_by = some 3;
  submitted_at = none;
  started_at = none;
  completed_at = none;
  failed_at = none;
  callback_received_at = none;
  error_message = [];
  request_id = str "r1";
  idempotency_key = str "k";
  retry_count = 0;
  payload = [];
  metadata = [];
}

abbrev failed_callback : Callback Payload
failed_callback = record {
  job = job;
  status = JobStatus.failed;
  result = none;
  error = none;
  message = str "no fonts";
  metadata = [];
}

abbrev failed_db : Db
failed_db = (apply_content_generation_callback env failed_callback requested_db).1

opened : open_request env args (pos 300000) paid_db ≡ (ok request, requested_db)
unfolding open_request insert_request reserve_cost audit_requested record_usage_event existing_event
    find_event create_event or_first_event run_credit grant_credits reserve_credits reserve_new
    get_credit_balance sum_amounts record_ledger_entry existing_entry find_entry or_winner
    create_entry audit_if_created record_audit_event text_eq ◌+ℤ◌
opened = refl

pack_found : (cost_of request requested_db).0 ≡ ok (pack, pos 300000)
unfolding cost_of pack_of pack_credit_cost open_request insert_request reserve_cost audit_requested
    record_usage_event existing_event find_event create_event or_first_event run_credit
    grant_credits reserve_credits reserve_new get_credit_balance sum_amounts record_ledger_entry
    existing_entry find_entry or_winner create_entry audit_if_created record_audit_event text_eq
    ◌+ℤ◌
pack_found = refl

request_found : resolve_request env job requested_db ≡ some request
unfolding resolve_request open_request insert_request reserve_cost audit_requested
    record_usage_event existing_event find_event create_event or_first_event run_credit
    grant_credits reserve_credits reserve_new get_credit_balance sum_amounts record_ledger_entry
    existing_entry find_entry or_winner create_entry audit_if_created record_audit_event text_eq
    ◌+ℤ◌
request_found = refl

called_back :
    apply_content_generation_callback env failed_callback requested_db ≡ (ok tt, failed_db)
unfolding open_request insert_request reserve_cost audit_requested record_usage_event existing_event
    find_event create_event or_first_event run_credit grant_credits reserve_credits reserve_new
    release_reserved_credits get_credit_balance sum_amounts record_ledger_entry existing_entry
    find_entry or_winner create_entry audit_if_created record_audit_event create_notification
    notify_once resolve_request apply_content_generation_callback handle_failed cost_of pack_of
    pack_credit_cost release_credits finish_failure audit_failed apply_job_callback text_eq get ◌+ℤ◌
called_back = refl

content_callback-IsSettled_example :
    IsSettled env request (settlement_of failed_callback) requested_db failed_db
content_callback-IsSettled_example =
    content_callback-IsSettled env failed_callback request requested_db failed_db request_found
      called_back

content_callback_uncharged_example :
    get_credit_balance 7 requested_db ≤ℤ get_credit_balance 7 failed_db
content_callback_uncharged_example =
    content_callback_uncharged env failed_callback request requested_db failed_db request_found
      called_back

fresh_key : (key : Text) → text_eq (str "g") key ≡ false → existing_entry 7 key paid_db ≡ none
unfolding existing_entry find_entry run_credit grant_credits record_ledger_entry or_winner
    create_entry audit_if_created
fresh_key key h = ground arith

content_pack_refunded_example : get_credit_balance 7 failed_db ≡ get_credit_balance 7 paid_db
unfolding text_eq
content_pack_refunded_example =
    content_pack_refunded env args (pos 300000) request request failed_callback paid_db requested_db
      requested_db failed_db (fresh_key _ refl) (fresh_key _ refl) opened refl request_found refl
      refl pack_found refl called_back

-- No credits.
abbrev poor_db : Db
poor_db = record empty_db { content_packs = pack ∷ [] }

abbrev error_text : Error → Text
error_text _ = str "not submitted"

create_content_pack_request-raised_example :
    (create_content_pack_request bridge (λ _. []) error_text env dry args poor_db).1 ≡ poor_db
unfolding create_content_pack_request validate_request check_workspace_limit open_request
    insert_request reserve_cost record_usage_event existing_event find_event create_event
    or_first_event reserve_credits reserve_new get_credit_balance sum_amounts existing_entry
    find_entry text_eq pack_credit_cost get_plan_limit active_plan_feature get_active_subscription
    plan_feature
create_content_pack_request-raised_example =
    create_content_pack_request-raised bridge (λ _. []) error_text env dry args poor_db
      (Error.insufficient_credits (pos 300000) (pos 0)) refl

abbrev file : AssetData
file = record {
  is_empty = false;
  storage_provider = some (str "s3");
  bucket = none;
  storage_key = some (str "k1");
  file_name = none;
  mime_type = none;
  file_size_bytes = none;
  width = none;
  height = none;
  checksum = none;
  public_url = none;
  format = none;
  title = none;
  metadata = [];
}

abbrev poster : OutputData
poster = record {
  id = some (str "o1");
  template_id = none;
  template_key = some (str "t");
  output_type = none;
  format = none;
  status = some (str "completed");
  title = none;
  caption = none;
  cta = none;
  required = true;
  asset = some file;
  metadata = [];
}

abbrev template_db : Db
template_db = record empty_db {
  drawn = 30;
  templates = record { id = 2; template_key = str "t" } ∷ [];
}

abbrev delivered : Result (Option Output × Keyed) × Db
delivered = upsert_output env request poster 0 [] template_db

-- The poster's row, with the asset that was drawn before it.
abbrev poster_row : Output
poster_row = record (filled_output poster (str "o1") (blank_output request 2 template_db)) {
  id = 31;
  storage_asset = some 30;
}

upsert_output_redelivered_example :
    let again =
      upsert_output env request poster 0
        (existing_outputs request.id delivered.1.outputs [])
        delivered.1 in
    (again.1
      ≡ replace_output (filled_output poster (output_key env poster 0) poster_row) delivered.1)
    × (map (λ r. r.id) again.1.outputs ≡ map (λ r. r.id) delivered.1.outputs)
    × (again.1.assets ≡ delivered.1.assets)
    × (again.1.drawn ≡ delivered.1.drawn)
unfolding upsert_output output_key resolve_template find_key put_key upsert_resolved save_new
    attach_asset output_status text_eq put merge existing_outputs
upsert_output_redelivered_example =
    upsert_output_redelivered env request poster 0 (put_key (str "o1") poster_row []) template_db
      delivered.1 poster_row refl
