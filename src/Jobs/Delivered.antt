-- ===== src/Jobs/Delivered.antt =====
-- What callbacks do to the job table: a finished job stays as it is, a job is out of reach of other
-- workspaces, and a callback that is repeated changes nothing.
use moment_flow.Common.{
  ℕ, ◌==◌, ==_refl, ==_iff, ◌≡◌, sym, ap, ◌∙◌, ◌⊎◌, inl, inr, true, false, some, arith, Bool-cases,
  Option-cases,
}
use moment_flow.Store.{Env, Db}
use moment_flow.Store.Jobs.{Job, is_terminal, same_job_status, job_rank}
use moment_flow.Store.Exec.{ok, Result-cases}
use moment_flow.Jobs.{Entities, same_workspace, find_job}
use moment_flow.Jobs.Callbacks.{
  CallbackData, resolve_job, names_external, validate_compatibility, dispatch_received, receive,
  receive_compatible, post_callback,
}
use moment_flow.Jobs.Rows.{IsKeyed, find-keyed}
use moment_flow.Jobs.Dispatched.{delivered, dispatch_received-find, resolve-keyed}

module _ {P : Type 0} (entities : Entities P) (env : Env) (body : CallbackData P) where
  -- The callback goes through to the dispatch of this job.
  abbrev pub Reaches : Job → Type 0
  Reaches r =
      (validate_compatibility body r ≡ ok tt)
      × (same_job_status r.status body.status ≡ false)
      × (is_terminal r.status ≡ false)

  post-found :
      (db : Db) (r : Job)
      → resolve_job body db ≡ some r
      → validate_compatibility body r ≡ ok tt
      → post_callback entities env body db ≡ receive entities env body r db
  unfolding post_callback receive_compatible
  post-found db r found fits = ground arith

  receive-live :
      (db : Db) (r : Job)
      → same_job_status r.status body.status ≡ false
      → is_terminal r.status ≡ false
      → receive entities env body r db ≡ dispatch_received entities env body r db
  unfolding receive
  receive-live db r moves live = ground arith

  -- A callback that does not reach the job it resolves to writes nothing.
  pub post-cases :
      (db : Db)
      → ((post_callback entities env body db).1 ≡ db)
        ⊎ ((r : Job) × (resolve_job body db ≡ some r)
            × Reaches r
            × (post_callback entities env body db ≡ dispatch_received entities env body r db))
  unfolding post_callback receive_compatible receive
  post-cases db = elim (Option-cases (resolve_job body db)) [
    | inl n ↦ inl (ground arith)
    | inr (r, found) ↦ elim (Result-cases (validate_compatibility body r)) [
      | inr (e, refused) ↦ inl (ground arith)
      | inl (u, fits) ↦ elim (Bool-cases (same_job_status r.status body.status)) [
        | inl same ↦ inl (ground arith)
        | inr moves ↦ elim (Bool-cases (is_terminal r.status)) [
          | inl over ↦ inl (ground arith)
          | inr live ↦ inr (
            r,
            found,
            (fits, moves, live),
            post-found db r found fits ∙ receive-live db r moves live,
          )
        ]
      ]
    ]
  ]

  -- A job that callbacks do not reach keeps its row.
  post-unreached :
      (db : Db) (id : ℕ) (j : Job)
      → IsKeyed db.jobs
      → find_job id db ≡ some j
      → (Reaches j → true ≡ false)
      → find_job id (post_callback entities env body db).1 ≡ some j
  unfolding find_job
  post-unreached db id j keyed h stuck = elim (post-cases db) [
    | inl same ↦ rw same h
    | inr (r, found, reaches, run) ↦ elim (Bool-cases (j.id == r.id)) [
      | inl e ↦ ground (
        arith,
        stuck,
        resolve-keyed entities env body db r keyed found,
        find-keyed (λ x. x.id == id) db.jobs j keyed h,
        ==_iff j.id r.id,
      )
      | inr n ↦
          rw run
            (elim (dispatch_received-find entities env body r db (λ x. x.id == id) j
              (λ f x a b c. ap (λ k. k == id) a) h) [
                | inl (m, done, rows) ↦ ground arith
                | inr (x, raised, rows) ↦ ground arith
              ])
    ]
  ]

  -- A job in a terminal status keeps its row, whatever callback arrives, if no two jobs have one id.
  pub post_callback-terminal :
      (db : Db) (id : ℕ) (j : Job)
      → IsKeyed db.jobs
      → find_job id db ≡ some j
      → is_terminal j.status ≡ true
      → find_job id (post_callback entities env body db).1 ≡ some j
  post_callback-terminal db id j keyed h over =
      post-unreached db id j keyed h (λ (fits, moves, live). sym over ∙ live)

  -- A job keeps its row when a callback names another workspace than the job's, if no two jobs have
  -- one id.
  pub post_callback-other_workspace :
      (db : Db) (id : ℕ) (j : Job)
      → IsKeyed db.jobs
      → find_job id db ≡ some j
      → same_workspace (some body.workspace_id) j.workspace ≡ false
      → find_job id (post_callback entities env body db).1 ≡ some j
  unfolding validate_compatibility
  post_callback-other_workspace db id j keyed h other =
      post-unreached db id j keyed h (λ (fits, moves, live). ground arith)

  -- What the callback resolves to after it is delivered.
  abbrev pub Settled : Job → Db → Type 0
  Settled r db =
      (resolve_job body db ≡ some r)
      × (validate_compatibility body r ≡ ok tt)
      × (same_job_status r.status body.status ≡ true)

  post-Settled :
      (db : Db) (r : Job) → Settled r db → post_callback entities env body db ≡ (ok tt, db)
  unfolding receive
  post-Settled db r (found, fits, same) = post-found db r found fits ∙ ground arith

  post-accepted :
      (db : Db)
      → (post_callback entities env body db).0 ≡ ok tt
      → ((r : Job) × Settled r db)
        ⊎ ((r : Job) × (resolve_job body db ≡ some r)
            × Reaches r
            × (post_callback entities env body db ≡ dispatch_received entities env body r db))
  unfolding post_callback receive_compatible receive
  post-accepted db done = elim (Option-cases (resolve_job body db)) [
    | inl n ↦ ground arith
    | inr (r, found) ↦ elim (Result-cases (validate_compatibility body r)) [
      | inr (e, refused) ↦ ground arith
      | inl (u, fits) ↦ elim (Bool-cases (same_job_status r.status body.status)) [
        | inl same ↦ inl (r, (found, fits, same))
        | inr moves ↦ elim (Bool-cases (is_terminal r.status)) [
          | inl over ↦ ground arith
          | inr live ↦ inr (
            r,
            found,
            (fits, moves, live),
            post-found db r found fits ∙ receive-live db r moves live,
          )
        ]
      ]
    ]
  ]

  -- A dispatch that returns leaves the job where the callback resolves to it, in its status.
  dispatched-Settled :
      (db : Db) (r : Job)
      → resolve_job body db ≡ some r
      → validate_compatibility body r ≡ ok tt
      → (dispatch_received entities env body r db).0 ≡ ok tt
      → (r' : Job) × Settled r' (dispatch_received entities env body r db).1
  unfolding resolve_job find_job validate_compatibility
  dispatched-Settled db r found fits done = elim (Option-cases body.job_id) [
    | inr (id, s) ↦
        elim (dispatch_received-find entities env body r db (λ x. x.id == id) r
          (λ f x a b c. ap (λ k. k == id) a) (ground arith)) [
            | inl (m, t, rows) ↦ (
              delivered env body r m r,
              (ground (arith, ==_refl r.id), fits, ==_refl (job_rank body.status)),
            )
            | inr (e, raised, rows) ↦ ground arith
          ]
    | inl n ↦
        elim (dispatch_received-find entities env body r db
          (names_external body.external_job_id body.provider) r
          (λ f x a b c. ground (arith, a, b, c)) (ground arith)) [
            | inl (m, t, rows) ↦ (
              delivered env body r m r,
              (ground (arith, ==_refl r.id), fits, ==_refl (job_rank body.status)),
            )
            | inr (e, raised, rows) ↦ ground arith
          ]
  ]

  accepted-Settled :
      (db : Db)
      → (post_callback entities env body db).0 ≡ ok tt
      → (r : Job) × Settled r (post_callback entities env body db).1
  accepted-Settled db done = elim (post-accepted db done) [
    | inl (r, settled) ↦ (r, rw (post-Settled db r settled) settled)
    | inr (r, found, (fits, moves, live), run) ↦
        rw run (dispatched-Settled db r found fits (ap (λ x. x.0) (sym run) ∙ done))
  ]

-- A callback that was accepted leaves the job that it resolves to in the status that it reports, and
-- delivering it again, at whatever time, is accepted and writes nothing.
pub post_callback_retry :
    {P : Type 0} (entities : Entities P) (env env' : Env) (body : CallbackData P) (db : Db)
    → let (r, db') = post_callback entities env body db in
      r ≡ ok tt
      → ((j : Job) × (resolve_job body db' ≡ some j)
          × (same_job_status j.status body.status ≡ true))
        × (post_callback entities env' body db' ≡ (ok tt, db'))
post_callback_retry entities env env' body db done =
    let (j, settled) = accepted-Settled entities env body db done in
    (
      (j, settled.0, settled.2),
      post-Settled entities env' body (post_callback entities env body db).1 j settled,
    )
