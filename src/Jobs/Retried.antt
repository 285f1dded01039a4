-- ===== src/Jobs/Retried.antt =====
-- Submitting again: a job that is still active is returned, and no second one is created.
use mathlib.Core.Path.{subst}
use moment_flow.Common.{
  ℕ, ==_refl, ◌≡◌, refl, sym, ◌∙◌, inl, inr, Bool, true, false, Option, none, some, ◌++◌, Text, str,
  is_blank, text_eq_refl, arith, Bool-cases, Option-cases,
}
use moment_flow.Store.{Env, Db}
use moment_flow.Store.Jobs.{Job, JobType, Provider, is_terminal}
use moment_flow.Store.Exec.{Error, Result, ok, err, Result-cases}
use moment_flow.Jobs.{
  Entities, same_workspace, find_job, find_active_job, default_idempotency_key, job_type_value,
}
use moment_flow.Jobs.Sending.{Gateway, submit_job}
use moment_flow.Jobs.Submission.{
  Request, key_of, provider_of, new_job, insert_job, create_job, returning,
  create_and_submit_external_job,
}
use moment_flow.Jobs.Sent.{IsHead, submit_job-IsHead}

pub same_workspace_refl : (w : Option ℕ) → same_workspace w w ≡ true
same_workspace_refl none = refl
same_workspace_refl (some n) = ==_refl n

value-nonblank : (ty : JobType) (s : Text) → is_blank (job_type_value ty ++ s) ≡ false
value-nonblank JobType.video_rendering s = refl
value-nonblank _ s = refl

value_alone-nonblank : (ty : JobType) → is_blank (job_type_value ty) ≡ false
value_alone-nonblank JobType.video_rendering = refl
value_alone-nonblank _ = refl

default-nonblank :
    (ty : JobType) (entity : Text) → is_blank (default_idempotency_key ty entity) ≡ false
unfolding default_idempotency_key
default-nonblank ty entity = elim (Bool-cases (is_blank entity)) [
  | inl b ↦ rw b (value_alone-nonblank ty)
  | inr n ↦ ground (arith, value-nonblank ty (str ":" ++ entity))
]

pub key_of-nonblank : (r : Request) → is_blank (key_of r) ≡ false
key_of-nonblank r = elim (Bool-cases (is_blank r.idempotency_key)) [
  | inr n ↦ rw (n, n) refl
  | inl b ↦ rw b (default-nonblank r.job_type r.related_entity_id)
]

-- The newest row of the workspace with the key is found if it is active.
active-IsHead :
    (j h : Job) (db : Db)
    → IsHead j db.jobs
    → is_blank j.idempotency_key ≡ false
    → find_job j.id db ≡ some h
    → is_terminal h.status ≡ false
    → (find_active_job j.workspace j.idempotency_key db ≡ some h) × (h.id ≡ j.id)
unfolding find_job find_active_job
active-IsHead j h db (x, rest, e, a, b, c) key found live =
    ground (arith, same_workspace_refl j.workspace, text_eq_refl j.idempotency_key, ==_refl j.id)

pub returning-ok :
    (new : ℕ) (s : Result (Unit {0}) × Db) (db : Db) (id : ℕ) (created : Bool)
    → returning new s ≡ (ok (id, created), db)
    → (s.1 ≡ db) × (id ≡ new)
returning-ok new (ok u, db') db id created e = ground arith
returning-ok new (err x, db') db id created e = ground arith

module _ {P : Type 0} (entities : Entities P) where
  pub create-active :
      (env : Env) (gateway : Gateway) (r : Request) (db : Db) (x : Job)
      → find_active_job r.workspace (key_of r) db ≡ some x
      → create_and_submit_external_job entities env gateway r db ≡ (ok (x.id, false), db)
  unfolding create_and_submit_external_job
  create-active env gateway r db x active = ground arith

  pub create-unknown :
      (env : Env) (gateway : Gateway) (r : Request) (db : Db) (e : Error)
      → find_active_job r.workspace (key_of r) db ≡ none
      → provider_of r ≡ err e
      → create_and_submit_external_job entities env gateway r db ≡ (err e, db)
  unfolding create_and_submit_external_job create_job
  create-unknown env gateway r db e vacant unknown = ground arith

  pub create-vacant :
      (env : Env) (gateway : Gateway) (r : Request) (db : Db) (provider : Provider)
      → find_active_job r.workspace (key_of r) db ≡ none
      → provider_of r ≡ ok provider
      → let j = new_job gateway r provider db in
        create_and_submit_external_job entities env gateway r db
        ≡ returning j.id (submit_job entities env gateway j (insert_job j db))
  unfolding create_and_submit_external_job create_job
  create-vacant env gateway r db provider vacant known = ground arith

  -- The job that a submission creates is the active one, if it is not in a terminal status.
  created-active :
      (env : Env) (gateway : Gateway) (r : Request) (db db' : Db) (id : ℕ) (created : Bool)
      (j : Job) (provider : Provider)
      → let new = new_job gateway r provider db in
        returning new.id (submit_job entities env gateway new (insert_job new db))
          ≡ (ok (id, created), db')
        → find_job id db' ≡ some j
        → is_terminal j.status ≡ false
        → (find_active_job r.workspace (key_of r) db' ≡ some j) × (j.id ≡ id)
  created-active env gateway r db db' id created j provider done found live =
      let new = new_job gateway r provider db in
      let (s, same) =
        returning-ok new.id (submit_job entities env gateway new (insert_job new db)) db' id created
          done in
      let head =
        submit_job-IsHead entities env new gateway (insert_job new db)
          (new, db.jobs, refl, refl, refl, refl) in
      let (active, is_new) =
        active-IsHead new j db' (subst (λ d. IsHead new d.jobs) s head) (key_of-nonblank r)
          (rw⁻¹ same found) live in
      (active, is_new ∙ sym same)

  -- Submitting again for the same workspace and key returns the first call's job and writes nothing,
  -- if that job is not in a terminal status: whatever the settings, and whatever the service answered.
  pub create_and_submit_external_job_retry :
      (env env' : Env) (gateway gateway' : Gateway) (r r' : Request) (db db' : Db) (id : ℕ)
      (created : Bool) (j : Job)
      → create_and_submit_external_job entities env gateway r db ≡ (ok (id, created), db')
      → find_job id db' ≡ some j
      → is_terminal j.status ≡ false
      → r'.workspace ≡ r.workspace
      → key_of r' ≡ key_of r
      → create_and_submit_external_job entities env' gateway' r' db' ≡ (ok (id, false), db')
  create_and_submit_external_job_retry env env' gateway gateway' r r' db db' id created j done found
        live ws key =
      elim (Option-cases (find_active_job r.workspace (key_of r) db)) [
        | inr (x, active) ↦
            ground
              (arith, create-active env gateway r db x active, create-active env' gateway' r' db x)
        | inl vacant ↦ elim (Result-cases (provider_of r)) [
          | inr (e, unknown) ↦ ground (arith, create-unknown env gateway r db e vacant unknown)
          | inl (provider, known) ↦
              let (active, same) =
                created-active env gateway r db db' id created j provider
                  (sym (create-vacant env gateway r db provider vacant known) ∙ done) found live in
              ground (arith, create-active env' gateway' r' db' j)
        ]
      ]
