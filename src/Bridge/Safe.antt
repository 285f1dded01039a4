-- ===== src/Bridge/Safe.antt =====
-- What every operation of the bridge does to the ledger, it does by the ledger's own operations: a
-- property of the table that these preserve is preserved.
use moment_flow.Common.{
  [], ℕ, ℤ, refl, Bool, true, Option, none, List, Text, str, Option-cases, Bool-cases, inl, inr,
}
use moment_flow.Core.{core, ledger_of, ledger-core, record_audit_event-Keeps}
use moment_flow.Store.{Env, Db}
use moment_flow.Store.Billing.{LedgerEntry}
use moment_flow.Store.Content.{PackRequest, ContentPack}
use moment_flow.Store.Jobs.{Job, JobType, JobStatus}
use moment_flow.Store.Log.{Metadata}
use moment_flow.Store.Exec.{pure}
use moment_flow.Store.Keeps.{
  Keeps, Preserves, keeps_rules, pure-Keeps, modify-Keeps, Keeps-Preserves, bind-Preserves,
  then-Preserves, atomic-Preserves, if-Preserves,
}
use moment_flow.Payload.{Payload}
use moment_flow.Billing.Ledger.{
  CreditKind, Details, run_credit, consume_credits, release_reserved_credits,
}
use moment_flow.Billing.Ledger.Safety.{Call, run_call}
use moment_flow.Jobs.{Callback, apply_job_callback}
use moment_flow.Jobs.Callbacks.{callback_dispatcher, handle_simply, audit_callback}
use moment_flow.Content.{resolve_request}
use moment_flow.Content.Callbacks.{
  outputs_of, settle_credits, should_consume, handle_success, fail_outputs, release_credits,
  failure_message, handle_failed, is_failure, apply_content_generation_callback,
}
use moment_flow.Content.Handler.{
  store_outputs-Keeps, cost_of-Keeps, finish_success-Keeps, finish_failure-Keeps,
}
use moment_flow.Reports.Handler.{report-Keeps, media_kit-Keeps}
use moment_flow.Bridge.{bridge}

-- A property of the table that every operation of the ledger preserves.
pub record IsPreserved (P : List LedgerEntry → Type 0) : Type 0 where
  pub by_call : (c : Call) (db : Db) → P db.ledger → P (run_call c db).ledger

pub apply_job_callback-Keeps :
    (env : Env) (j : Job) (status : JobStatus) (message : Text) (metadata : Metadata)
    → Keeps ledger_of (apply_job_callback env j status message metadata)
unfolding apply_job_callback
apply_job_callback-Keeps env j status message metadata = record { keeps = λ db. refl }

audit_callback-Keeps :
    (env : Env) (suffix : Text) (j : Job) (status : JobStatus)
    → Keeps core (audit_callback env suffix j status)
unfolding audit_callback
audit_callback-Keeps env suffix j status = search (keeps_rules, record_audit_event-Keeps)

module _ (P : List LedgerEntry → Type 0) (safe : IsPreserved P) (env : Env) where
  pub run_credit-Preserves :
      (kind : CreditKind) (ws : ℕ) (amount : ℤ) (d : Details) (actor : Option ℕ)
      → Preserves ledger_of P (run_credit env kind ws amount d actor)
  run_credit-Preserves kind ws amount d actor = record {
    preserves = λ db p.
        safe.by_call
          (record {
            env = env;
            kind = kind;
            workspace = ws;
            amount = amount;
            details = d;
            actor = actor;
          })
          db p;
  }

  settled-Preserves :
      (ws : ℕ) (cost : ℤ) (d : Details) → Preserves ledger_of P (consume_credits env ws cost true d)
  unfolding run_credit
  settled-Preserves ws cost d = run_credit-Preserves CreditKind.settle ws cost d none

  released-Preserves :
      (ws : ℕ) (cost : ℤ) (d : Details) → Preserves ledger_of P (release_reserved_credits ws cost d)
  unfolding run_credit
  released-Preserves ws cost d = run_credit-Preserves CreditKind.release ws cost d none

  done-Preserves : Preserves {A = Unit {0}} ledger_of P (pure tt)
  done-Preserves = Keeps-Preserves P (pure-Keeps tt)

  settle_credits-Preserves :
      (request : PackRequest) (pack : ContentPack) (cost : ℤ) (consume : Bool)
      → Preserves ledger_of P (settle_credits env request pack cost consume)
  unfolding settle_credits
  settle_credits-Preserves request pack cost consume =
      search (if-Preserves, then-Preserves, done-Preserves, settled-Preserves, released-Preserves)

  release_credits-Preserves :
      (request : PackRequest) (pack : ContentPack) (cost : ℤ)
      → Preserves ledger_of P (release_credits env request pack cost)
  unfolding release_credits
  release_credits-Preserves request pack cost =
      search (if-Preserves, then-Preserves, done-Preserves, released-Preserves)

  applied-Preserves :
      (j : Job) (status : JobStatus) (message : Text) (metadata : Metadata)
      → Preserves ledger_of P (apply_job_callback env j status message metadata)
  applied-Preserves j status message metadata =
      Keeps-Preserves P (apply_job_callback-Keeps env j status message metadata)

  handle_success-Preserves :
      (cb : Callback Payload) (request : PackRequest)
      → Preserves ledger_of P (handle_success env cb request)
  unfolding handle_success
  handle_success-Preserves cb request = atomic-Preserves (
      bind-Preserves
        (Keeps-Preserves P (ledger-core (store_outputs-Keeps env request (outputs_of cb.result))))
        (λ t. bind-Preserves (Keeps-Preserves P (cost_of-Keeps request)) (λ pc.
          then-Preserves
            (settle_credits-Preserves request pc.0 pc.1
              (should_consume cb.status (outputs_of cb.result)))
            (then-Preserves
              (Keeps-Preserves P (ledger-core (finish_success-Keeps env request cb.status t)))
              (applied-Preserves cb.job cb.status [] cb.metadata)))))

  handle_failed-Preserves :
      (cb : Callback Payload) (request : PackRequest)
      → Preserves ledger_of P (handle_failed env cb request)
  unfolding handle_failed
  handle_failed-Preserves cb request = atomic-Preserves (
      then-Preserves (Keeps-Preserves P (modify-Keeps (fail_outputs request.id) (λ db. refl))) (
        bind-Preserves (Keeps-Preserves P (cost_of-Keeps request)) (λ pc.
          then-Preserves (release_credits-Preserves request pc.0 pc.1) (
            then-Preserves
              (Keeps-Preserves P
                (ledger-core (finish_failure-Keeps env request (failure_message cb))))
              (applied-Preserves cb.job cb.status (failure_message cb) cb.metadata)))))

  pub content-Preserves :
      (cb : Callback Payload) → Preserves ledger_of P (apply_content_generation_callback env cb)
  unfolding apply_content_generation_callback
  content-Preserves cb = record {
    preserves = λ db p. elim (Option-cases (resolve_request env cb.job db)) [
      | inl n ↦
          rw (n, apply_content_generation_callback)
            ((applied-Preserves cb.job cb.status cb.message cb.metadata).preserves db p)
      | inr (request, found) ↦ elim (Bool-cases (is_failure cb.status)) [
        | inl bad ↦
            rw (found, bad, apply_content_generation_callback)
              ((handle_failed-Preserves cb request).preserves db p)
        | inr good ↦
            rw (found, good, apply_content_generation_callback)
              ((handle_success-Preserves cb request).preserves db p)
      ]
    ];
  }

  handle_simply-Preserves :
      (suffix : Text) (cb : Callback Payload) → Preserves ledger_of P (handle_simply suffix env cb)
  unfolding handle_simply
  handle_simply-Preserves suffix cb =
      then-Preserves (applied-Preserves cb.job cb.status cb.message cb.metadata)
        (Keeps-Preserves P (ledger-core (audit_callback-Keeps env suffix cb.job cb.status)))

  pub callback_dispatcher-Preserves :
      (ty : JobType) (cb : Callback Payload)
      → Preserves ledger_of P (callback_dispatcher bridge ty env cb)
  unfolding callback_dispatcher
  callback_dispatcher-Preserves JobType.content_generation cb = content-Preserves cb
  callback_dispatcher-Preserves JobType.report_generation cb =
      Keeps-Preserves P (report-Keeps env cb)
  callback_dispatcher-Preserves JobType.media_kit_generation cb =
      Keeps-Preserves P (media_kit-Keeps env cb)
  callback_dispatcher-Preserves JobType.video_rendering cb =
      handle_simply-Preserves (str "callback_unhandled") cb
  callback_dispatcher-Preserves _ cb = handle_simply-Preserves (str "callback_received") cb
