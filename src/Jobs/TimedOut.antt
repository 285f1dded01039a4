-- ===== src/Jobs/TimedOut.antt =====
-- A job that timed out is the active one under its key, so that a retry returns it.
use mathlib.Core.Path.{subst}
use moment_flow.Common.{
  ℕ, ◌==◌, ap, List, ◌∷◌, update_where, ==_refl, ◌≡◌, refl, sym, ◌∙◌, inl, inr, true, false, Option,
  some, Text, is_blank, text_eq_refl, arith, Option-cases,
}
use moment_flow.Store.{Env, Db}
use moment_flow.Store.Log.{Metadata}
use moment_flow.Store.Jobs.{Job, JobStatus, Provider}
use moment_flow.Store.Exec.{ok, Result-cases}
use moment_flow.Jobs.{
  Entities, find_job, find_active_job, apply_job_callback, transitioned_job, save_lifecycle,
}
use moment_flow.Jobs.Sending.{Gateway, submit_job}
use moment_flow.Jobs.Submission.{
  Request, key_of, provider_of, new_job, insert_job, create_and_submit_external_job,
  retry_external_job,
}
use moment_flow.Jobs.Sent.{IsHead, submit_job-IsHead}
use moment_flow.Jobs.Retried.{
  same_workspace_refl, key_of-nonblank, returning-ok, create-active, create-unknown, create-vacant,
}

some-injective : {A : Type 0} {a b : A} → some a ≡ some b → a ≡ b
some-injective e = cc

head-find :
    (h : Job) (rest : List Job) (id : ℕ) (db : Db)
    → db.jobs ≡ h ∷ rest
    → h.id ≡ id
    → find_job id db ≡ some h
unfolding find_job
head-find h rest id db e same = ground (arith, ==_refl id, e, same)

head-updated :
    (move : Job → Job) (h : Job) (rest : List Job) (id : ℕ)
    → h.id ≡ id
    → update_where (λ r. r.id == id) move (h ∷ rest)
      ≡ move h ∷ update_where (λ r. r.id == id) move rest
head-updated move h rest id same = ground (arith, ==_refl id)

head-moved :
    (env : Env) (j h : Job) (rest : List Job) (status : JobStatus) (message : Text)
    (metadata : Metadata) (db : Db)
    → db.jobs ≡ h ∷ rest
    → j.id ≡ h.id
    → (apply_job_callback env j status message metadata db).1.jobs
      ≡ save_lifecycle (transitioned_job env.now status message metadata j) h
        ∷ update_where
            (λ r. r.id == j.id)
            (save_lifecycle (transitioned_job env.now status message metadata j))
            rest
unfolding apply_job_callback
head-moved env j h rest status message metadata db e same =
    let move = save_lifecycle (transitioned_job env.now status message metadata j) in
    ap (update_where (λ r. r.id == j.id) move) e ∙ head-updated move h rest j.id (sym same)

module _ {P : Type 0} (entities : Entities P) where
  created-IsHead :
      (env : Env) (gateway : Gateway) (r : Request) (db db' : Db) (id : ℕ)
      → create_and_submit_external_job entities env gateway r db ≡ (ok (id, true), db')
      → (provider : Provider) × (let new = new_job gateway r provider db in
          (new.id ≡ id) × IsHead new db'.jobs)
  created-IsHead env gateway r db db' id done =
      elim (Option-cases (find_active_job r.workspace (key_of r) db)) [
        | inr (x, active) ↦
            absurd (ground (arith, create-active entities env gateway r db x active))
        | inl vacant ↦ elim (Result-cases (provider_of r)) [
          | inr (e, unknown) ↦
              absurd (ground (arith, create-unknown entities env gateway r db e vacant unknown))
          | inl (provider, known) ↦
              let new = new_job gateway r provider db in
              let (s, same) =
                returning-ok new.id (submit_job entities env gateway new (insert_job new db)) db' id
                  true
                  (sym (create-vacant entities env gateway r db provider vacant known) ∙ done) in
              (
                provider,
                (
                  sym same,
                  subst (λ d. IsHead new d.jobs) s
                      (submit_job-IsHead entities env new gateway (insert_job new db)
                        (new, db.jobs, refl, refl, refl, refl)),
                ),
              )
        ]
      ]

  -- The newest row, in status `timeout`, is the active job of its workspace with its key.
  retry-newest :
      (env : Env) (gateway : Gateway) (j : Job) (rest : List Job) (user : Option ℕ)
      (payload : Option Metadata) (db : Db)
      → db.jobs ≡ j ∷ rest
      → j.status ≡ JobStatus.timeout
      → is_blank j.idempotency_key ≡ false
      → retry_external_job entities env gateway j user payload db ≡ (ok (j.id, false), db)
  unfolding create_and_submit_external_job retry_external_job find_active_job
  retry-newest env gateway j rest user payload db newest late key =
      ground
        (arith, same_workspace_refl j.workspace, text_eq_refl j.idempotency_key, newest, late, key)

  -- A job that a submission has created, and whose row is then moved to `timeout` as a callback moves
  -- it, is not retried: `timeout` is a retryable status, but not a terminal one, so the job is still
  -- the active one under its key. The retry returns the timed-out job itself, as not created, and
  -- writes nothing.
  pub retry_external_job-timed_out :
      (env env' env'' : Env) (gateway gateway' : Gateway) (r : Request) (db db' : Db) (id : ℕ)
      (j late : Job) (message : Text) (metadata : Metadata) (user : Option ℕ)
      (payload : Option Metadata)
      → create_and_submit_external_job entities env gateway r db ≡ (ok (id, true), db')
      → find_job id db' ≡ some j
      → let db'' = (apply_job_callback env' j JobStatus.timeout message metadata db').1 in
        find_job id db'' ≡ some late
        → retry_external_job entities env'' gateway' late user payload db'' ≡ (ok (id, false), db'')
  retry_external_job-timed_out env env' env'' gateway gateway' r db db' id j late message metadata
        user payload done found timed =
      let (provider, (is_id, (h, rest, e, a, b, c))) =
        created-IsHead env gateway r db db' id done in
      let is_head = head-find h rest id db' e (a ∙ is_id) in
      let same = some-injective (sym found ∙ is_head) in
      let move = save_lifecycle (transitioned_job env'.now JobStatus.timeout message metadata j) in
      let moved =
        head-moved env' j h rest JobStatus.timeout message metadata db' e (ap (λ x. x.id) same) in
      let db'' = (apply_job_callback env' j JobStatus.timeout message metadata db').1 in
      let is_late = some-injective (sym timed ∙ head-find (move h) _ id db'' moved (a ∙ is_id)) in
      subst
        (λ x.
          retry_external_job entities env'' gateway' x user payload db'' ≡ (ok (id, false), db''))
        (sym is_late)
        (retry-newest env'' gateway' (move h) _ user payload db'' moved refl
            (ap is_blank c ∙ key_of-nonblank r)
          ∙ ap (λ n. (ok (n, false), db'')) (a ∙ is_id))
