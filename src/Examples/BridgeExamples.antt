-- ===== src/Examples/BridgeExamples.antt =====
-- A sequence of events of the whole core, on concrete values.
use moment_flow.Common.{pos, none, some, List, [], ◌∷◌, arith, str}
use moment_flow.Store.Jobs.{JobStatus}
use moment_flow.Billing.Ledger.{CreditKind, sum_amounts, get_credit_balance}
use moment_flow.Billing.Ledger.Safety.{IsSolvent}
use moment_flow.Billing.Ledger.Valid.{IsLedger}
use moment_flow.Payload.{Payload}
use moment_flow.Jobs.Callbacks.{CallbackData}
use moment_flow.Bridge.Sound.{Event, run_events, run_events_sound}
use moment_flow.Examples.Data.{env, empty_db, keyed, dry}
use moment_flow.Examples.ContentExamples.{args}

abbrev failed_report : CallbackData Payload
failed_report = record {
  job_id = some 25;
  external_job_id = [];
  provider = [];
  workspace_id = 7;
  status = JobStatus.failed;
  entity_type = [];
  entity_id = [];
  result = none;
  error = none;
  error_message = str "no fonts";
  metadata = [];
}

-- Credits are granted, a pack is asked for, its job fails, and the failure is reported twice.
abbrev events : List Event
events =
    Event.movement (record {
      env = env;
      kind = CreditKind.grant;
      workspace = 7;
      amount = pos 1000000;
      details = keyed (str "g");
      actor = none;
    })
    ∷ Event.pack_request (λ _. []) (λ _. str "not submitted") env dry args
    ∷ Event.callback env failed_report
    ∷ Event.callback env failed_report
    ∷ []

run_events_sound_example :
    IsSolvent (run_events events empty_db) × IsLedger (run_events events empty_db).ledger
unfolding get_credit_balance sum_amounts
run_events_sound_example = run_events_sound events empty_db (λ ws. omega arith) tt
