-- ===== src/Content/Handler.antt =====
-- The callback of content packs is a handler as the bridge relies on; and what each of its steps
-- leaves alone.
use moment_flow.Common.{
  ℤ, refl, Bool, true, none, List, [], Text, arith, Option-cases, Bool-cases, inl, inr,
}
use moment_flow.Core.{
  core, jobs_of, jobs-core, record_audit_event-Keeps, notify_once-Keeps, record_usage_event-Keeps,
  run_credit-jobs,
}
use moment_flow.Store.{Env, Db}
use moment_flow.Store.Content.{PackRequest, ContentPack}
use moment_flow.Store.Jobs.{JobStatus}
use moment_flow.Store.Keeps.{Keeps, keeps_rules, pure-Keeps, then-Keeps, modify-Keeps}
use moment_flow.Payload.{OutputData, Payload}
use moment_flow.Billing.Ledger.{CreditKind, run_credit, consume_credits, release_reserved_credits}
use moment_flow.Jobs.{Callback, IsHandler, Handled, apply_job_callback}
use moment_flow.Jobs.Landing.{apply-Lands, bind-Lands, then-Lands, atomic-Lands}
use moment_flow.Content.{pack_of, resolve_request, consume_details, release_details, save_request}
use moment_flow.Content.Outputs.{existing_outputs}
use moment_flow.Content.Upserts.{Tally}
use moment_flow.Content.Callbacks.{
  store_outputs, outputs_of, cost_of, settle_credits, should_consume, record_generated, finished,
  notify_outcome, audit_completed, finish_success, handle_success, failure_message, fail_outputs,
  release_credits, failed_request, audit_failed, finish_failure, handle_failed, is_failure,
  apply_content_generation_callback,
}
use moment_flow.Content.Kept.{process_outputs-field}

pub store_outputs-Keeps :
    (env : Env) (request : PackRequest) (outs : List OutputData)
    → Keeps core (store_outputs env request outs)
unfolding store_outputs
store_outputs-Keeps env request outs = record {
  keeps = λ db.
      process_outputs-field core (λ x a b c. refl) env request outs 0
        (existing_outputs request.id db.outputs [])
        (record { completed = 0; failed = 0; skipped = 0 }) db;
}

pub cost_of-Keeps :
    {F : Type 0} {field : Db → F} (request : PackRequest) → Keeps field (cost_of request)
unfolding cost_of pack_of
cost_of-Keeps request = record { keeps = λ db. ground arith }

settled-jobs :
    (env : Env) (request : PackRequest) (pack : ContentPack) (cost : ℤ)
    → Keeps jobs_of
        (consume_credits env request.workspace cost true (consume_details env pack request.id))
unfolding run_credit
settled-jobs env request pack cost =
    run_credit-jobs env CreditKind.settle request.workspace cost
      (consume_details env pack request.id) none

released-jobs :
    (env : Env) (request : PackRequest) (pack : ContentPack) (cost : ℤ)
    → Keeps jobs_of
        (release_reserved_credits request.workspace cost (release_details env pack request.id))
unfolding run_credit
released-jobs env request pack cost =
    run_credit-jobs env CreditKind.release request.workspace cost
      (release_details env pack request.id) none

pub settle_credits-jobs :
    (env : Env) (request : PackRequest) (pack : ContentPack) (cost : ℤ) (consume : Bool)
    → Keeps jobs_of (settle_credits env request pack cost consume)
unfolding settle_credits
settle_credits-jobs env request pack cost consume =
    search (keeps_rules, settled-jobs, released-jobs)

pub release_credits-jobs :
    (env : Env) (request : PackRequest) (pack : ContentPack) (cost : ℤ)
    → Keeps jobs_of (release_credits env request pack cost)
unfolding release_credits
release_credits-jobs env request pack cost = search (keeps_rules, released-jobs)

record_generated-Keeps :
    (env : Env) (request : PackRequest) (t : Tally) → Keeps core (record_generated env request t)
unfolding record_generated
record_generated-Keeps env request t = search (keeps_rules, record_usage_event-Keeps)

notify_outcome-Keeps :
    (env : Env) (request : PackRequest) (t : Tally) → Keeps core (notify_outcome env request t)
unfolding notify_outcome
notify_outcome-Keeps env request t = search (keeps_rules, notify_once-Keeps)

audit_completed-Keeps :
    (env : Env) (request : PackRequest) (status : JobStatus) (t : Tally)
    → Keeps core (audit_completed env request status t)
unfolding audit_completed
audit_completed-Keeps env request status t = search (keeps_rules, record_audit_event-Keeps)

audit_failed-Keeps :
    (env : Env) (request : PackRequest) (message : Text)
    → Keeps core (audit_failed env request message)
unfolding audit_failed
audit_failed-Keeps env request message = search (keeps_rules, record_audit_event-Keeps)

pub finish_success-Keeps :
    (env : Env) (request : PackRequest) (status : JobStatus) (t : Tally)
    → Keeps core (finish_success env request status t)
unfolding finish_success
finish_success-Keeps env request status t = then-Keeps (record_generated-Keeps env request t) (
    then-Keeps (modify-Keeps (save_request request.id (finished env.now status)) (λ db. refl)) (
      then-Keeps (notify_outcome-Keeps env request t) (audit_completed-Keeps env request status t)))

pub finish_failure-Keeps :
    (env : Env) (request : PackRequest) (message : Text)
    → Keeps core (finish_failure env request message)
unfolding finish_failure
finish_failure-Keeps env request message =
    then-Keeps
      (modify-Keeps (save_request request.id (failed_request env.now message request.error_message))
        (λ db. refl))
      (then-Keeps (then-Keeps (notify_once-Keeps _ _ _ _ _ _ _ _) (pure-Keeps tt))
        (audit_failed-Keeps env request message))

module _ (env : Env) (cb : Callback Payload) (request : PackRequest) where
  handle_success-Lands : (db : Db) → Handled env cb db (handle_success env cb request db)
  unfolding handle_success
  handle_success-Lands = atomic-Lands env cb.job cb.status [] cb.metadata _ (
      bind-Lands env cb.job cb.status [] cb.metadata
        (jobs-core (store_outputs-Keeps env request (outputs_of cb.result)))
        (λ t. bind-Lands env cb.job cb.status [] cb.metadata (cost_of-Keeps request) (λ pc.
          then-Lands env cb.job cb.status [] cb.metadata
            (settle_credits-jobs env request pc.0 pc.1
              (should_consume cb.status (outputs_of cb.result)))
            (then-Lands env cb.job cb.status [] cb.metadata
              (jobs-core (finish_success-Keeps env request cb.status t))
              (apply-Lands env cb.job cb.status [] cb.metadata)))))

  handle_failed-Lands : (db : Db) → Handled env cb db (handle_failed env cb request db)
  unfolding handle_failed
  handle_failed-Lands =
      let message = failure_message cb in
      atomic-Lands env cb.job cb.status message cb.metadata _ (
        then-Lands env cb.job cb.status message cb.metadata
          (modify-Keeps (fail_outputs request.id) (λ db. refl))
          (bind-Lands env cb.job cb.status message cb.metadata (cost_of-Keeps request) (λ pc.
            then-Lands env cb.job cb.status message cb.metadata
              (release_credits-jobs env request pc.0 pc.1)
              (then-Lands env cb.job cb.status message cb.metadata
                (jobs-core (finish_failure-Keeps env request message))
                (apply-Lands env cb.job cb.status message cb.metadata)))))

pub content-IsHandler : IsHandler Payload apply_content_generation_callback
unfolding apply_content_generation_callback apply_job_callback
content-IsHandler env cb db = elim (Option-cases (resolve_request env cb.job db)) [
  | inl n ↦ rw (n, apply_content_generation_callback) (inl (cb.message, refl, refl))
  | inr (request, found) ↦ elim (Bool-cases (is_failure cb.status)) [
    | inl bad ↦
        rw (found, bad, apply_content_generation_callback) (handle_failed-Lands env cb request db)
    | inr good ↦
        rw (found, good, apply_content_generation_callback) (handle_success-Lands env cb request db)
  ]
]
