-- ===== src/Bridge/Sent.antt =====
-- Submissions, retries, requests and callbacks preserve what the operations of the ledger preserve.
use moment_flow.Common.{
  ℕ, ◌≡◌, refl, Bool, true, false, Option, none, some, List, [], Text, str, Option-cases,
  Bool-cases, inl, inr, if-holds, not,
}
use moment_flow.Core.{core, ledger_of, ledger-core, record_audit_event-Keeps}
use moment_flow.Store.{Env, Db}
use moment_flow.Store.Billing.{LedgerEntry}
use moment_flow.Store.Jobs.{Job, JobType, JobStatus, Provider, is_retryable}
use moment_flow.Store.Log.{Metadata}
use moment_flow.Store.Exec.{Result, ok, err}
use moment_flow.Store.Keeps.{
  Keeps, Preserves, keeps_rules, Keeps-Preserves, then-Preserves, if-Preserves,
}
use moment_flow.Payload.{Payload}
use moment_flow.Jobs.{Callback, save_job, find_active_job}
use moment_flow.Jobs.Callbacks.{
  CallbackData, callback_of, received, post_callback, dispatch_received,
}
use moment_flow.Jobs.Delivered.{post-cases}
use moment_flow.Jobs.Sending.{
  Answer, Gateway, audit_submission, unsubmitted, submitted_job, with_external, submission_failure,
  is_taken, propagate_failure, mark_unsubmitted, mark_submitted, submit_answered, submit_really,
  submit_job, is_resolved,
}
use moment_flow.Jobs.Submission.{
  Request, key_of, provider_of, new_job, insert_job, returning, create_job,
  create_and_submit_external_job, retry_request, retry_external_job,
}
use moment_flow.Bridge.{bridge}
use moment_flow.Bridge.Safe.{IsPreserved, content-Preserves, callback_dispatcher-Preserves}
use moment_flow.Reports.Handler.{report-Keeps, media_kit-Keeps}

audit_submission-Keeps :
    (env : Env) (action : Text) (simulated : Bool) (status : JobStatus) (j : Job)
    → Keeps core (audit_submission env action simulated status j)
unfolding audit_submission
audit_submission-Keeps env action simulated status j =
    search (keeps_rules, record_audit_event-Keeps)

module _ (P : List LedgerEntry → Type 0) (safe : IsPreserved P) (env : Env) where
  pub post_callback-Preserves :
      (body : CallbackData Payload) → Preserves ledger_of P (post_callback bridge env body)
  unfolding dispatch_received
  post_callback-Preserves body = record {
    preserves = λ db p. elim (post-cases bridge env body db) [
      | inl same ↦ rw same p
      | inr (r, found, reaches, run) ↦ rw run (
          (callback_dispatcher-Preserves P safe env r.job_type (callback_of env body r)).preserves
            (save_job r.id (received env.now) db) p)
    ];
  }

  propagate_failure-Preserves :
      (ty : JobType) (cb : Callback Payload)
      → Preserves ledger_of P (propagate_failure bridge ty env cb)
  unfolding propagate_failure
  propagate_failure-Preserves JobType.report_generation cb = record {
    preserves = λ db p. (Keeps-Preserves P (report-Keeps env cb)).preserves db p;
  }
  propagate_failure-Preserves JobType.media_kit_generation cb = record {
    preserves = λ db p. (Keeps-Preserves P (media_kit-Keeps env cb)).preserves db p;
  }
  propagate_failure-Preserves JobType.content_generation cb = record {
    preserves = λ db p. (content-Preserves P safe env cb).preserves db p;
  }
  propagate_failure-Preserves _ cb = record { preserves = λ db p. p }

  audited-Preserves :
      (action : Text) (simulated : Bool) (status : JobStatus) (j : Job)
      → Preserves ledger_of P (audit_submission env action simulated status j)
  audited-Preserves action simulated status j =
      Keeps-Preserves P (ledger-core (audit_submission-Keeps env action simulated status j))

  mark_unsubmitted-Preserves :
      (status : JobStatus) (message : Text) (j : Job)
      → Preserves ledger_of P (mark_unsubmitted bridge env status message j)
  unfolding mark_unsubmitted
  mark_unsubmitted-Preserves status message j = record {
    preserves = λ db p.
        (then-Preserves (audited-Preserves (str "external_job.submission_failed") false status j) (
            propagate_failure-Preserves j.job_type
              (submission_failure (unsubmitted env.now status message j) status message))).preserves
          (save_job j.id (unsubmitted env.now status message) db) p;
  }

  mark_submitted-Preserves :
      (external : Text) (j : Job) → Preserves ledger_of P (mark_submitted bridge env external j)
  unfolding mark_submitted
  mark_submitted-Preserves external j = record {
    preserves = λ db p. elim (Bool-cases (is_taken j external db)) [
      | inl t ↦ rw (t, mark_submitted) p
      | inr n ↦
          rw (n, mark_submitted)
            ((audited-Preserves (str "external_job.submitted") false JobStatus.submitted
                j).preserves
              (save_job j.id (λ r. with_external external (submitted_job env.now r)) db) p)
    ];
  }

  submit_answered-Preserves :
      (a : Answer) (j : Job) → Preserves ledger_of P (submit_answered bridge env a j)
  unfolding submit_answered
  submit_answered-Preserves (Answer.accepted (some external)) j =
      mark_submitted-Preserves external j
  submit_answered-Preserves (Answer.accepted none) j = mark_submitted-Preserves [] j
  submit_answered-Preserves (Answer.timed_out m) j =
      mark_unsubmitted-Preserves JobStatus.timeout m j
  submit_answered-Preserves (Answer.refused m) j = mark_unsubmitted-Preserves JobStatus.failed m j

  submit_really-Preserves :
      (gateway : Gateway) (j : Job) → Preserves ledger_of P (submit_really bridge env gateway j)
  unfolding submit_really
  submit_really-Preserves gateway j =
      if-Preserves (is_resolved gateway j.job_type)
        (submit_answered-Preserves (gateway.post_json j) j)
        (mark_unsubmitted-Preserves JobStatus.failed gateway.not_resolved j)

  submit_job-Preserves :
      (gateway : Gateway) (j : Job) → Preserves ledger_of P (submit_job bridge env gateway j)
  unfolding submit_job
  submit_job-Preserves gateway j = record {
    preserves = λ db p.
        let kept = λ (s : Result (Unit {0}) × Db). P (ledger_of s.1) in
        if-holds kept (not gateway.enabled) _ _
          ((audited-Preserves (str "external_job.queued") false JobStatus.queued j).preserves db p)
          (if-holds kept gateway.dry_run _ _
            ((audited-Preserves (str "external_job.submitted") true JobStatus.submitted j).preserves
              (save_job j.id (submitted_job env.now) db) p)
            ((submit_really-Preserves gateway j).preserves db p));
  }

  returning-ledger : (id : ℕ) (s : Result (Unit {0}) × Db) → (returning id s).1.ledger ≡ s.1.ledger
  returning-ledger id (ok u, db) = refl
  returning-ledger id (err e, db) = refl

  create_job-Preserves :
      (gateway : Gateway) (r : Request) (provider : Result Provider)
      → Preserves ledger_of P (create_job bridge env gateway r provider)
  unfolding create_job
  create_job-Preserves gateway r (err e) = record { preserves = λ db p. p }
  create_job-Preserves gateway r (ok provider) = record {
    preserves = λ db p.
        let j = new_job gateway r provider db in
        rw (returning-ledger j.id (submit_job bridge env gateway j (insert_job j db)))
          ((submit_job-Preserves gateway j).preserves (insert_job j db) p);
  }

  pub create_and_submit-Preserves :
      (gateway : Gateway) (r : Request)
      → Preserves ledger_of P (create_and_submit_external_job bridge env gateway r)
  unfolding create_and_submit_external_job
  create_and_submit-Preserves gateway r = record {
    preserves = λ db p. elim (Option-cases (find_active_job r.workspace (key_of r) db)) [
      | inr (j, active) ↦ rw (active, create_and_submit_external_job) p
      | inl vacant ↦
          rw (vacant, create_and_submit_external_job)
            ((create_job-Preserves gateway r (provider_of r)).preserves db p)
    ];
  }

  pub retry-Preserves :
      (gateway : Gateway) (j : Job) (user : Option ℕ) (payload : Option Metadata)
      → Preserves ledger_of P (retry_external_job bridge env gateway j user payload)
  unfolding retry_external_job
  retry-Preserves gateway j user payload = record {
    preserves = λ db p. elim (Bool-cases (is_retryable j.status)) [
      | inl t ↦
          rw (t, retry_external_job)
            ((create_and_submit-Preserves gateway
                (retry_request bridge env j user payload)).preserves
              db p)
      | inr n ↦ rw (n, retry_external_job) p
    ];
  }
