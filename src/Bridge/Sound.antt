-- ===== src/Bridge/Sound.antt =====
-- Whatever arrives, in whatever order, the ledger stays solvent and well formed.
use moment_flow.Common.{ℕ, pos, ◌≤ℤ◌, Option, List, [], ◌∷◌, Text}
use moment_flow.Store.{Env, Db}
use moment_flow.Store.Billing.{LedgerEntry}
use moment_flow.Store.Content.{PackRequest}
use moment_flow.Store.Jobs.{Job}
use moment_flow.Store.Log.{Metadata}
use moment_flow.Store.Exec.{Error}
use moment_flow.Payload.{Payload}
use moment_flow.Billing.Ledger.{sum_amounts, get_credit_balance}
use moment_flow.Billing.Ledger.Safety.{Call, run_call, run_calls-IsSolvent, IsSolvent}
use moment_flow.Billing.Ledger.Valid.{IsLedger, run_calls-IsLedger}
use moment_flow.Jobs.Callbacks.{CallbackData, post_callback}
use moment_flow.Jobs.Sending.{Gateway}
use moment_flow.Jobs.Submission.{Request, create_and_submit_external_job, retry_external_job}
use moment_flow.Content.Requests.{PackArgs, create_content_pack_request}
use moment_flow.Bridge.{bridge}
use moment_flow.Bridge.Safe.{IsPreserved}
use moment_flow.Bridge.Sent.{post_callback-Preserves, create_and_submit-Preserves, retry-Preserves}
use moment_flow.Store.Reports.{Report, MediaKit}
use moment_flow.Reports.Requests.{submit_report_generation_job, submit_media_kit_generation_job}
use moment_flow.Bridge.Generated.{submit_report-Preserves, submit_media_kit-Preserves}
use moment_flow.Bridge.Requested.{create_content_pack_request-Preserves}

-- What can happen: a callback, a submission, a retry, a request for a content pack, the submission of a
-- report or a media kit, or a call of the ledger by another service.
pub data Event : Type 0 where
  callback : Env → CallbackData Payload → Event
  submission : Env → Gateway → Request → Event
  retry : Env → Gateway → Job → Option ℕ → Option Metadata → Event
  pack_request : (PackRequest → Metadata) → (Error → Text) → Env → Gateway → PackArgs → Event
  report_job : (Error → Text) → Env → Gateway → Report → Metadata → Option ℕ → Text → Event
  media_kit_job : (Error → Text) → Env → Gateway → MediaKit → Metadata → Option ℕ → Text → Event
  movement : Call → Event

abbrev pub run_event : Event → Db → Db
run_event (Event.callback env body) db = (post_callback bridge env body db).1
run_event (Event.submission env gateway r) db =
    (create_and_submit_external_job bridge env gateway r db).1
run_event (Event.retry env gateway j user payload) db =
    (retry_external_job bridge env gateway j user payload db).1
run_event (Event.pack_request payload_of error_text env gateway a) db =
    (create_content_pack_request bridge payload_of error_text env gateway a db).1
run_event (Event.report_job error_text env gateway r payload user id) db =
    (submit_report_generation_job bridge error_text env gateway r payload user id db).1
run_event (Event.media_kit_job error_text env gateway k payload user id) db =
    (submit_media_kit_generation_job bridge error_text env gateway k payload user id db).1
run_event (Event.movement c) db = run_call c db

abbrev pub run_events : List Event → Db → Db
run_events [] db = db
run_events (e ∷ es) db = run_events es (run_event e db)

pub run_events-Preserved :
    (P : List LedgerEntry → Type 0)
    → IsPreserved P
    → (es : List Event) (db : Db) → P db.ledger
    → P (run_events es db).ledger
run_events-Preserved P safe [] db p = p
run_events-Preserved P safe (Event.callback env body ∷ es) db p =
    run_events-Preserved P safe es _ ((post_callback-Preserves P safe env body).preserves db p)
run_events-Preserved P safe (Event.submission env gateway r ∷ es) db p =
    run_events-Preserved P safe es _
      ((create_and_submit-Preserves P safe env gateway r).preserves db p)
run_events-Preserved P safe (Event.retry env gateway j user payload ∷ es) db p =
    run_events-Preserved P safe es _
      ((retry-Preserves P safe env gateway j user payload).preserves db p)
run_events-Preserved P safe (Event.pack_request payload_of error_text env gateway a ∷ es) db p =
    run_events-Preserved P safe es _ (
      (create_content_pack_request-Preserves P safe env payload_of error_text gateway a).preserves
        db p)
run_events-Preserved P safe (Event.report_job error_text env gateway r payload user id ∷ es) db p =
    run_events-Preserved P safe es _
      ((submit_report-Preserves P safe env error_text gateway payload user id r).preserves db p)
run_events-Preserved P safe (Event.media_kit_job error_text env gateway k payload user id ∷ es) db
      p =
    run_events-Preserved P safe es _
      ((submit_media_kit-Preserves P safe env error_text gateway payload user id k).preserves db p)
run_events-Preserved P safe (Event.movement c ∷ es) db p =
    run_events-Preserved P safe es _ (safe.by_call c db p)

-- No workspace's rows add up to less than nothing.
abbrev pub IsCovered : List LedgerEntry → Type 0
IsCovered es = (ws : ℕ) → pos 0 ≤ℤ sum_amounts ws es

IsCovered-IsPreserved : IsPreserved IsCovered
unfolding get_credit_balance
IsCovered-IsPreserved = record { by_call = λ c db h. run_calls-IsSolvent (c ∷ []) db h }

IsLedger-IsPreserved : IsPreserved IsLedger
IsLedger-IsPreserved = record { by_call = λ c db h. run_calls-IsLedger (c ∷ []) db h }

-- Over any sequence of callbacks, submissions, retries, content pack requests, submissions of reports
-- and media kits, and ledger calls, in any order and with any outcome, no workspace's balance becomes
-- negative and the table stays well formed (each row's `balance_after` is the sum up to it, no key of
-- a workspace is on two rows), if so it was.
pub run_events_sound :
    (es : List Event) (db : Db)
    → IsSolvent db
    → IsLedger db.ledger
    → IsSolvent (run_events es db) × IsLedger (run_events es db).ledger
unfolding get_credit_balance
run_events_sound es db solvent valid = (
  run_events-Preserved IsCovered IsCovered-IsPreserved es db solvent,
  run_events-Preserved IsLedger IsLedger-IsPreserved es db valid,
)
