-- ===== src/Jobs/Landing.antt =====
-- Handlers written as one transaction that moves the job at last: they meet what the bridge relies on.
use moment_flow.Common.{◌≡◌, refl, ◌∙◌, ◌⊎◌, inl, inr, Text}
use moment_flow.Store.{Env, Db}
use moment_flow.Store.Log.{Metadata}
use moment_flow.Store.Jobs.{Job, JobStatus}
use moment_flow.Store.Exec.{Error, ok, err, Exec, atomic, ◌>>=◌, ◌>>◌, Result-cases}
use moment_flow.Store.Keeps.{Keeps}
use moment_flow.Core.{jobs_of}
use moment_flow.Jobs.{apply_job_callback}

module _ (env : Env) (job : Job) (status : JobStatus) (message : Text) (metadata : Metadata) where
  -- The call raises, or moves the job and does nothing else to the jobs.
  pub record Lands (m : Exec Db (Unit {0})) : Type 0 where
    pub lands :
        (db : Db)
        → (((m db).0 ≡ ok tt)
            × ((m db).1.jobs ≡ (apply_job_callback env job status message metadata db).1.jobs))
          ⊎ ((e : Error) × ((m db).0 ≡ err e))

  pub apply-Lands : Lands (apply_job_callback env job status message metadata)
  unfolding apply_job_callback
  apply-Lands = record { lands = λ db. inl (refl, refl) }

  apply-jobs :
      (a b : Db)
      → a.jobs ≡ b.jobs
      → (apply_job_callback env job status message metadata a).1.jobs
        ≡ (apply_job_callback env job status message metadata b).1.jobs
  unfolding apply_job_callback
  apply-jobs a b h = rw h refl

  pub bind-Lands :
      {A : Type 0} {m : Exec Db A} {f : A → Exec Db (Unit {0})}
      → Keeps jobs_of m
      → ((a : A) → Lands (f a))
      → Lands (m >>= f)
  bind-Lands {m = m} {f = f} hm hf = record {
    lands = λ db. elim (Result-cases (m db).0) [
      | inr (x, e) ↦ inr (x, rw (e, ◌>>=◌) refl)
      | inl (a, e) ↦ elim ((hf a).lands (m db).1) [
        | inl (done, jobs) ↦
            inl (rw (e, ◌>>=◌) done, rw (e, ◌>>=◌) (jobs ∙ apply-jobs (m db).1 db (hm.keeps db)))
        | inr (x, raised) ↦ inr (x, rw (e, ◌>>=◌) raised)
      ]
    ];
  }

  pub then-Lands :
      {A : Type 0} {m : Exec Db A} {n : Exec Db (Unit {0})}
      → Keeps jobs_of m
      → Lands n
      → Lands (m >> n)
  then-Lands hm hn = bind-Lands hm (λ a. hn)

  -- In a transaction a call that raises has done nothing.
  pub atomic-Lands :
      (m : Exec Db (Unit {0}))
      → Lands m
      → (db : Db)
      → let (r, db') = atomic m db in
        ((text : Text) × (r ≡ ok tt)
          × (db'.jobs ≡ (apply_job_callback env job status text metadata db).1.jobs))
        ⊎ ((e : Error) × (r ≡ err e) × (db'.jobs ≡ db.jobs))
  atomic-Lands m h db = elim (h.lands db) [
    | inl (done, jobs) ↦ inl (message, rw (done, atomic) refl, rw (done, atomic) jobs)
    | inr (x, raised) ↦ inr (x, rw (raised, atomic) refl, rw (raised, atomic) refl)
  ]
