-- ===== src/Jobs/Sent.antt =====
-- A submission rewrites its job's row where it was put, whatever the settings and the answer.
use moment_flow.Common.{
  ℕ, ◌==◌, ◌≡◌, refl, ◌∙◌, inl, inr, false, none, some, List, [], ◌∷◌, Text, str, is_blank,
  update_where, Bool-cases,
}
use moment_flow.Store.{Env, Db}
use moment_flow.Store.Jobs.{Job, JobType, JobStatus}
use moment_flow.Jobs.{
  Callback, Handler, IsHandler, Entities, save_job, apply_job_callback, transitioned_job,
  save_lifecycle,
}
use moment_flow.Jobs.Sending.{
  Answer, Gateway, audit_submission, unsubmitted, submitted_job, with_external, submission_failure,
  is_taken, propagate_failure, mark_unsubmitted, mark_submitted, submit_answered, submit_really,
  submit_job, is_resolved,
}

-- The newest row is this job's: its id, workspace and key.
abbrev pub IsHead : Job → List Job → Type 0
IsHead j js =
    (h : Job) × (rest : List Job) × (js ≡ h ∷ rest)
    × (h.id ≡ j.id)
    × (h.workspace ≡ j.workspace)
    × (h.idempotency_key ≡ j.idempotency_key)

-- A rewriting that leaves the identity of a row alone.
abbrev Keeps : (Job → Job) → Type 0
Keeps f =
    (j : Job)
    → ((f j).id ≡ j.id)
      × ((f j).workspace ≡ j.workspace)
      × ((f j).idempotency_key ≡ j.idempotency_key)

update-IsHead :
    (j : Job) (f : Job → Job) (id : ℕ) (js : List Job)
    → Keeps f
    → IsHead j js
    → IsHead j (update_where (λ r. r.id == id) f js)
update-IsHead j f id js keeps (h, rest, e, a, b, c) = elim (Bool-cases (h.id == id)) [
  | inl t ↦ (
    f h,
    update_where (λ r. r.id == id) f rest,
    rw (e, t) refl,
    (keeps h).0 ∙ a,
    (keeps h).1 ∙ b,
    (keeps h).2 ∙ c,
  )
  | inr n ↦ (h, update_where (λ r. r.id == id) f rest, rw (e, n) refl, a, b, c)
]

with_external-Keeps :
    (external : Text) (now : ℕ) → Keeps (λ r. with_external external (submitted_job now r))
with_external-Keeps external now r = elim (Bool-cases (is_blank external)) [
  | inl t ↦ rw t (refl, refl, refl)
  | inr n ↦ rw n (refl, refl, refl)
]

module _ {P : Type 0} where
  handler-IsHead :
      (handle : Handler P)
      → IsHandler P handle
      → (env : Env) (cb : Callback P) (db : Db) (j : Job) → IsHead j db.jobs
      → IsHead j (handle env cb db).1.jobs
  unfolding apply_job_callback
  handler-IsHead handle good env cb db j head = elim (good env cb db) [
    | inl (message, done, jobs) ↦ rw jobs (
        update-IsHead j
          (save_lifecycle (transitioned_job env.now cb.status message cb.metadata cb.job)) cb.job.id
          db.jobs (λ r. (refl, refl, refl)) head)
    | inr (e, raised, jobs) ↦ rw jobs head
  ]

module _ {P : Type 0} (entities : Entities P) (env : Env) (j : Job) where
  propagate-IsHead :
      (ty : JobType) (cb : Callback P) (db : Db)
      → IsHead j db.jobs
      → IsHead j (propagate_failure entities ty env cb db).1.jobs
  unfolding propagate_failure
  propagate-IsHead JobType.report_generation cb db =
      handler-IsHead entities.report entities.report-IsHandler env cb db j
  propagate-IsHead JobType.media_kit_generation cb db =
      handler-IsHead entities.media_kit entities.media_kit-IsHandler env cb db j
  propagate-IsHead JobType.content_generation cb db =
      handler-IsHead entities.content entities.content-IsHandler env cb db j
  propagate-IsHead _ cb db = λ h. h

  mark_unsubmitted-IsHead :
      (status : JobStatus) (message : Text) (db : Db)
      → IsHead j db.jobs
      → IsHead j (mark_unsubmitted entities env status message j db).1.jobs
  unfolding mark_unsubmitted audit_submission
  mark_unsubmitted-IsHead status message db head =
      propagate-IsHead j.job_type
        (submission_failure (unsubmitted env.now status message j) status message)
        (audit_submission env (str "external_job.submission_failed") false status j
          (save_job j.id (unsubmitted env.now status message) db)).1
        (update-IsHead j (unsubmitted env.now status message) j.id db.jobs (λ r. (refl, refl, refl))
          head)

  mark_submitted-IsHead :
      (external : Text) (db : Db)
      → IsHead j db.jobs
      → IsHead j (mark_submitted entities env external j db).1.jobs
  unfolding mark_submitted audit_submission
  mark_submitted-IsHead external db head = elim (Bool-cases (is_taken j external db)) [
    | inl t ↦ rw t head
    | inr n ↦ rw n (
        update-IsHead j (λ r. with_external external (submitted_job env.now r)) j.id db.jobs
          (with_external-Keeps external env.now) head)
  ]

  submit_answered-IsHead :
      (a : Answer) (db : Db)
      → IsHead j db.jobs
      → IsHead j (submit_answered entities env a j db).1.jobs
  unfolding submit_answered
  submit_answered-IsHead (Answer.accepted (some external)) db = mark_submitted-IsHead external db
  submit_answered-IsHead (Answer.accepted none) db = mark_submitted-IsHead [] db
  submit_answered-IsHead (Answer.timed_out m) db = mark_unsubmitted-IsHead JobStatus.timeout m db
  submit_answered-IsHead (Answer.refused m) db = mark_unsubmitted-IsHead JobStatus.failed m db

  -- A submission leaves its job's row where it was put.
  pub submit_job-IsHead :
      (gateway : Gateway) (db : Db)
      → IsHead j db.jobs
      → IsHead j (submit_job entities env gateway j db).1.jobs
  unfolding submit_job submit_really audit_submission is_resolved
  submit_job-IsHead gateway db head = elim (Bool-cases gateway.enabled) [
    | inr off ↦ rw off head
    | inl on ↦ elim (Bool-cases gateway.dry_run) [
      | inl dry ↦
          rw (on, dry)
            (update-IsHead j (submitted_job env.now) j.id db.jobs (λ r. (refl, refl, refl)) head)
      | inr real ↦ elim (Bool-cases (is_resolved gateway j.job_type)) [
        | inl there ↦ rw (on, real, there) (submit_answered-IsHead (gateway.post_json j) db head)
        | inr absent ↦
            rw (on, real, absent)
              (mark_unsubmitted-IsHead JobStatus.failed gateway.not_resolved db head)
      ]
    ]
  ]
