-- ===== src/Bridge/Generated.antt =====
-- The generation of reports and media kits, against what the ledger calls preserve.
use moment_flow.Common.{ℕ, ◌≡◌, refl, Bool, Option, List, Text, str, Option-cases, inl, inr}
use moment_flow.Core.{ledger_of, ledger-core, record_audit_event-Keeps, record_usage_event-Keeps}
use moment_flow.Store.{Env, Db}
use moment_flow.Store.Billing.{LedgerEntry, EventType}
use moment_flow.Store.Jobs.{Job}
use moment_flow.Store.Log.{Metadata, MetaValue, put}
use moment_flow.Store.Reports.{Report, MediaKit}
use moment_flow.Store.Exec.{Error, Result, ok, err}
use moment_flow.Store.Keeps.{
  Keeps, Preserves, pure-Keeps, then-Keeps, Keeps-Preserves, then-Preserves,
}
use moment_flow.Billing.Usage.{record_creation_usage}
use moment_flow.Jobs.{find_job}
use moment_flow.Jobs.Sending.{Gateway}
use moment_flow.Jobs.Submission.{create_and_submit_external_job}
use moment_flow.Reports.Requests.{
  Entity, report_entity, media_kit_entity, audit_job, entity_job, note_job, submit_external_job,
  submit_report_generation_job, submit_media_kit_generation_job,
}
use moment_flow.Bridge.{bridge}
use moment_flow.Bridge.Safe.{IsPreserved}
use moment_flow.Bridge.Sent.{create_and_submit-Preserves}

audit_job-Keeps :
    (env : Env) (e : Entity) (user : Option ℕ) (j : Job) → Keeps ledger_of (audit_job env e user j)
unfolding audit_job
audit_job-Keeps env e user j = then-Keeps (ledger-core (record_audit_event-Keeps _)) (pure-Keeps tt)

record_creation_usage-Keeps :
    (env : Env) (ws : ℕ) (ty : EventType) (entity_type : Text) (id : ℕ) (meta : Metadata)
    → Keeps ledger_of (record_creation_usage env ws ty entity_type id meta)
unfolding record_creation_usage
record_creation_usage-Keeps env ws ty entity_type id meta =
    ledger-core (record_usage_event-Keeps env ws ty _)

module _ (P : List LedgerEntry → Type 0) (safe : IsPreserved P) (env : Env)
    (error_text : Error → Text) (e : Entity)
    (saved : (f : Metadata → Metadata) (db : Db) → (e.save_metadata f db).ledger ≡ db.ledger) where
  note_job-Preserves :
      (user : Option ℕ) (r : Result (ℕ × Bool))
      → Preserves ledger_of P (note_job bridge error_text env e user r)
  unfolding note_job
  note_job-Preserves user (err x) = record { preserves = λ db p. rw (saved _ db) p }
  note_job-Preserves user (ok (id, created)) = record {
    preserves = λ db p.
        let noted =
          e.save_metadata (put (str "external_job_id") (MetaValue.text (env.uuid_text id))) db in
        elim (Option-cases (find_job id noted)) [
          | inl n ↦ rw (n, note_job, saved _ db) p
          | inr (j, found) ↦
              rw (found, note_job)
                ((Keeps-Preserves P (audit_job-Keeps env e user j)).preserves noted
                  (rw (saved _ db) p))
        ];
  }

  submit_external_job-Preserves :
      (gateway : Gateway) (payload : Metadata) (user : Option ℕ) (correlation_id : Text)
      → Preserves ledger_of P
          (submit_external_job bridge error_text env gateway e payload user correlation_id)
  unfolding submit_external_job
  submit_external_job-Preserves gateway payload user correlation_id = record {
    preserves = λ db p.
        let job = entity_job bridge error_text env e payload user correlation_id in
        let (r, db') = create_and_submit_external_job bridge env gateway job db in
        (note_job-Preserves user r).preserves db'
          ((create_and_submit-Preserves P safe env gateway job).preserves db p);
  }

module _ (P : List LedgerEntry → Type 0) (safe : IsPreserved P) (env : Env)
    (error_text : Error → Text) (gateway : Gateway) (payload : Metadata) (user : Option ℕ)
    (correlation_id : Text) where
  pub submit_report-Preserves :
      (r : Report)
      → Preserves ledger_of P
          (submit_report_generation_job bridge error_text env gateway r payload user correlation_id)
  unfolding submit_report_generation_job
  submit_report-Preserves r =
      then-Preserves (Keeps-Preserves P (record_creation_usage-Keeps env r.workspace _ _ r.id _)) (
        submit_external_job-Preserves P safe env error_text (report_entity r) (λ f db. refl) gateway
          payload user correlation_id)

  pub submit_media_kit-Preserves :
      (k : MediaKit)
      → Preserves ledger_of P (
          submit_media_kit_generation_job bridge error_text env gateway k payload user
            correlation_id)
  unfolding submit_media_kit_generation_job
  submit_media_kit-Preserves k =
      then-Preserves (Keeps-Preserves P (record_creation_usage-Keeps env k.workspace _ _ k.id _)) (
        submit_external_job-Preserves P safe env error_text (media_kit_entity k) (λ f db. refl)
          gateway payload user correlation_id)
