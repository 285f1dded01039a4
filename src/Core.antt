-- ===== src/Core.antt =====
-- The part of the database that most services leave alone: the jobs and the ledger; and which of the
-- shared services do.
use moment_flow.Billing.Ledger.{CreditKind, Details, run_credit, audit_if_created}
use moment_flow.Billing.Ledger.Runs.{audited, entry_of, push_entry, run_normal_lem}
use moment_flow.Common.{
  ℤ, find?, ◌≡◌, refl, ap, List, Option-cases, inl, inr, arith, ℕ, Text, Option,
}
use moment_flow.Store.{Env, Db}
use moment_flow.Store.Jobs.{Job}
use moment_flow.Store.Billing.{LedgerEntry, EventType}
use moment_flow.Store.Log.{NotificationType}
use moment_flow.Store.Exec.{Exec}
use moment_flow.Store.Keeps.{Keeps}
use moment_flow.Audit.{AuditArgs, record_audit_event, create_notification}
use moment_flow.Notify.{notify_once, is_notified}
use moment_flow.Billing.Usage.{UsageArgs, record_usage_event, create_event, or_first_event}

abbrev pub core : Db → List Job × List LedgerEntry
core db = (db.jobs, db.ledger)

abbrev pub jobs_of : Db → List Job
jobs_of db = db.jobs

abbrev pub ledger_of : Db → List LedgerEntry
ledger_of db = db.ledger

pub jobs-core : {A : Type 0} {m : Exec Db A} → Keeps core m → Keeps jobs_of m
jobs-core h = record { keeps = λ db. ap (λ c. c.0) (h.keeps db) }

pub ledger-core : {A : Type 0} {m : Exec Db A} → Keeps core m → Keeps ledger_of m
ledger-core h = record { keeps = λ db. ap (λ c. c.1) (h.keeps db) }

pub record_audit_event-Keeps : (a : AuditArgs) → Keeps core (record_audit_event a)
unfolding record_audit_event
record_audit_event-Keeps a = record { keeps = λ db. refl }

pub notify_once-Keeps :
    (ws : ℕ) (entity_type entity_id : Text) (user : Option ℕ) (event : Text) (ty : NotificationType)
    (title message : Text)
    → Keeps core (notify_once ws entity_type entity_id user event ty title message)
unfolding notify_once create_notification
notify_once-Keeps ws entity_type entity_id user event ty title message = record {
  keeps = λ db.
      elim (Option-cases (find? (is_notified ws entity_type entity_id event) db.notifications)) [
        | inl n ↦ rw (n, notify_once) refl
        | inr (x, s) ↦ rw (s, notify_once) refl
      ];
}

pub record_usage_event-Keeps :
    (env : Env) (ws : ℕ) (ty : EventType) (a : UsageArgs)
    → Keeps core (record_usage_event env ws ty a)
unfolding record_usage_event create_event or_first_event
record_usage_event-Keeps env ws ty a = record { keeps = λ db. ground arith }

audited-jobs :
    (env : Env) (kind : CreditKind) (ws : ℕ) (actor : Option ℕ) (e : LedgerEntry) (db : Db)
    → (audited env kind ws actor e db).jobs ≡ db.jobs
unfolding audit_if_created
audited-jobs env CreditKind.grant ws actor e db = refl
audited-jobs env _ ws actor e db = refl

-- No operation of the ledger touches a job.
pub run_credit-jobs :
    (env : Env) (kind : CreditKind) (ws : ℕ) (amount : ℤ) (d : Details) (actor : Option ℕ)
    → Keeps jobs_of (run_credit env kind ws amount d actor)
run_credit-jobs env kind ws amount d actor = record {
  keeps = λ db. rw (run_normal_lem env ws amount d actor db kind) (
      ground (
        arith,
        audited-jobs env kind ws actor (entry_of kind ws amount d db)
            (push_entry (entry_of kind ws amount d db) db),
      ));
}
