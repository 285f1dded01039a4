-- ===== src/Bridge/Requested.antt =====
-- A request for a content pack, against what the ledger calls preserve.
use moment_flow.Common.{
  ℕ, ℤ, refl, ap, Bool, Option, none, some, List, Text, str, inl, inr, Option-cases,
}
use moment_flow.Core.{
  core, ledger_of, ledger-core, record_audit_event-Keeps, record_usage_event-Keeps,
}
use moment_flow.Store.{Env, Db}
use moment_flow.Store.Billing.{LedgerEntry, EventType}
use moment_flow.Store.Content.{PackRequest}
use moment_flow.Store.Jobs.{Job}
use moment_flow.Store.Log.{Metadata, MetaValue, put}
use moment_flow.Store.Exec.{Error, Result, ok, err}
use moment_flow.Store.Keeps.{
  Keeps, Preserves, keeps_rules, pure-Keeps, modify-Keeps, then-Keeps, Keeps-Preserves,
  bind-Preserves, then-Preserves, atomic-Preserves, if-Preserves,
}
use moment_flow.Billing.Ledger.{CreditKind, Details, run_credit, reserve_credits}
use moment_flow.Jobs.{find_job}
use moment_flow.Jobs.Sending.{Gateway}
use moment_flow.Jobs.Submission.{create_and_submit_external_job}
use moment_flow.Content.{save_request, pack_credit_cost}
use moment_flow.Content.Requests.{
  PackArgs, validate_request, requested_usage, reserve_cost, open_request, audit_submitted,
  pack_job, note_submission, submit_content_generation_job, create_content_pack_request,
}
use moment_flow.Bridge.{bridge}
use moment_flow.Content.Refused.{validate_request-db}
use moment_flow.Content.Opening.{insert_request-Keeps, audit_requested-Keeps}
use moment_flow.Bridge.Safe.{IsPreserved, run_credit-Preserves}
use moment_flow.Bridge.Sent.{create_and_submit-Preserves}

validate_request-Keeps :
    {F : Type 0} {field : Db → F} (env : Env) (a : PackArgs) → Keeps field (validate_request env a)
validate_request-Keeps {field = field} env a = record {
  keeps = λ db. ap field (validate_request-db env a db);
}

audit_submitted-Keeps :
    (env : Env) (request : PackRequest) (user : Option ℕ) (j : Job)
    → Keeps core (audit_submitted env request user j)
unfolding audit_submitted
audit_submitted-Keeps env request user j = search (keeps_rules, record_audit_event-Keeps)

module _ (P : List LedgerEntry → Type 0) (safe : IsPreserved P) (env : Env) where
  reserved-Preserves :
      (ws : ℕ) (cost : ℤ) (d : Details) → Preserves ledger_of P (reserve_credits ws cost d)
  unfolding run_credit
  reserved-Preserves ws cost d = run_credit-Preserves P safe env CreditKind.reserve ws cost d none

  reserve_cost-Preserves :
      (a : PackArgs) (cost : ℤ) (id : ℕ) → Preserves ledger_of P (reserve_cost env a cost id)
  unfolding reserve_cost
  reserve_cost-Preserves a cost id =
      if-Preserves _ (then-Preserves (reserved-Preserves _ _ _) (Keeps-Preserves P (pure-Keeps tt)))
        (Keeps-Preserves P (pure-Keeps tt))

  open_request-Preserves :
      (a : PackArgs) (cost : ℤ) → Preserves ledger_of P (open_request env a cost)
  unfolding open_request
  open_request-Preserves a cost = atomic-Preserves (
      bind-Preserves (Keeps-Preserves P (ledger-core (insert_request-Keeps a))) (λ request.
        bind-Preserves
          (Keeps-Preserves P (
            ledger-core (
              record_usage_event-Keeps env a.workspace EventType.content_pack_requested
                (requested_usage env cost request.id))))
          (λ created. then-Preserves (reserve_cost-Preserves a cost request.id) (
            Keeps-Preserves P (
              then-Keeps
                (modify-Keeps
                  (save_request request.id (λ r. record r { usage_event_id = some created.0.id }))
                  (λ db. refl))
                (then-Keeps (ledger-core (audit_requested-Keeps env a request.id))
                  (pure-Keeps _)))))))

  module _ (payload_of : PackRequest → Metadata) (error_text : Error → Text) where
    note_submission-Preserves :
        (request : PackRequest) (user : Option ℕ) (r : Result (ℕ × Bool))
        → Preserves ledger_of P (note_submission bridge payload_of error_text env request user r)
    unfolding note_submission
    note_submission-Preserves request user (err e) = record { preserves = λ db p. p }
    note_submission-Preserves request user (ok (id, created)) = record {
      preserves = λ db p.
          let noted =
            save_request request.id
              (λ r. record r {
                metadata =
                    put (str "external_job_id") (MetaValue.text (env.uuid_text id)) r.metadata;
              })
              db in
          elim (Option-cases (find_job id noted)) [
            | inl n ↦ rw (n, note_submission) p
            | inr (j, found) ↦
                rw (found, note_submission)
                  ((Keeps-Preserves P
                      (ledger-core (audit_submitted-Keeps env request user j))).preserves
                    noted p)
          ];
    }

    submitted-Preserves :
        (gateway : Gateway) (request : PackRequest) (user : Option ℕ) (correlation_id : Text)
        → Preserves ledger_of P (
            submit_content_generation_job bridge payload_of error_text env gateway request user
              correlation_id)
    unfolding submit_content_generation_job
    submitted-Preserves gateway request user correlation_id = record {
      preserves = λ db p.
          let job = pack_job bridge payload_of error_text env request user correlation_id in
          let (r, db') = create_and_submit_external_job bridge env gateway job db in
          (note_submission-Preserves request user r).preserves db'
            ((create_and_submit-Preserves P safe env gateway job).preserves db p);
    }

    pub create_content_pack_request-Preserves :
        (gateway : Gateway) (a : PackArgs)
        → Preserves ledger_of P
            (create_content_pack_request bridge payload_of error_text env gateway a)
    unfolding create_content_pack_request
    create_content_pack_request-Preserves gateway a =
        then-Preserves (Keeps-Preserves P (validate_request-Keeps env a)) (
          bind-Preserves {m = λ db. (pack_credit_cost a.content_pack, db)}
            (Keeps-Preserves P (record { keeps = λ db. refl }))
            (λ cost. bind-Preserves (open_request-Preserves a cost) (λ request.
              then-Preserves (submitted-Preserves gateway request a.requested_by a.correlation_id)
                (Keeps-Preserves P (pure-Keeps request.id)))))
