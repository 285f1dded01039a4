-- ===== src/Jobs/Dispatched.antt =====
-- The rows after a dispatch, and the row that a callback resolves to.
use moment_flow.Common.{
  ◌==◌, ◌≡◌, refl, ◌⊎◌, inl, inr, Bool, some, Text, find?, arith, Option-cases, if◌then◌else◌,
}
use moment_flow.Store.{Env, Db}
use moment_flow.Store.Jobs.{Job}
use moment_flow.Store.Exec.{Error, ok, err}
use moment_flow.Jobs.{
  Entities, find_job, save_job, apply_job_callback, transitioned_job, save_lifecycle,
}
use moment_flow.Jobs.Callbacks.{
  CallbackData, callback_of, received, resolve_job, names_external, dispatch_received,
}
use moment_flow.Jobs.Rows.{
  IsKeyed, find-keyed, find-update, find-update_twice, callback_dispatcher-IsHandler,
}

-- A row after a callback that its handler has carried out.
abbrev pub delivered : {P : Type 0} → Env → CallbackData P → Job → Text → Job → Job
delivered env body j message row =
    save_lifecycle (transitioned_job env.now body.status message body.metadata (received env.now j))
      (received env.now row)

module _ {P : Type 0} (entities : Entities P) (env : Env) (body : CallbackData P) where
  -- The rows after a dispatch, whether it returns or raises: one rewriting, of the job's row alone.
  pub dispatch_received-find :
      (j : Job) (db : Db) (p : Job → Bool) (r : Job)
      → ((f : Job → Job) (x : Job)
          → (f x).id ≡ x.id
          → (f x).external_job_id ≡ x.external_job_id
          → (f x).provider ≡ x.provider
          → p (f x) ≡ p x)
      → find? p db.jobs ≡ some r
      → let (s, db') = dispatch_received entities env body j db in
        ((message : Text) × (s ≡ ok tt)
          × (find? p db'.jobs ≡ some (if r.id == j.id then delivered env body j message r else r)))
        ⊎ ((e : Error) × (s ≡ err e)
            × (find? p db'.jobs ≡ some (if r.id == j.id then received env.now r else r)))
  unfolding dispatch_received apply_job_callback
  dispatch_received-find j db p r keeps h =
      elim (callback_dispatcher-IsHandler entities j.job_type env (callback_of env body j)
        (save_job j.id (received env.now) db)) [
          | inl (message, done, jobs) ↦ inl (
            message,
            done,
            rw jobs (
                find-update_twice p (received env.now)
                  (save_lifecycle (
                    transitioned_job env.now body.status message body.metadata
                      (received env.now j)))
                  j.id db.jobs r (λ x. keeps (received env.now) x refl refl refl)
                  (λ x.
                    keeps
                      (save_lifecycle (
                        transitioned_job env.now body.status message body.metadata
                          (received env.now j)))
                      x refl refl refl)
                  (λ x. refl) h),
          )
          | inr (e, raised, jobs) ↦ inr (
            e,
            raised,
            rw jobs (
                find-update p (λ x. x.id == j.id) (received env.now) db.jobs r
                  (λ x. keeps (received env.now) x refl refl refl) h),
          )
        ]

  pub resolve-keyed :
      (db : Db) (r : Job)
      → IsKeyed db.jobs
      → resolve_job body db ≡ some r
      → find_job r.id db ≡ some r
  unfolding resolve_job find_job
  resolve-keyed db r k e = elim (Option-cases body.job_id) [
    | inl n ↦
        find-keyed (names_external body.external_job_id body.provider) db.jobs r k (ground arith)
    | inr (id, s) ↦ find-keyed (λ x. x.id == id) db.jobs r k (ground arith)
  ]
