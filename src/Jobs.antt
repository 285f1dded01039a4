-- ===== src/Jobs.antt =====
-- External jobs (integrations_bridge): the lookups and the transition that submissions and callbacks
-- share, from services.py and registry.py, and the interface to the apps that own a job's entity.
pub mod Submission
pub mod Callbacks
pub mod Sending
pub mod Rows
pub mod Dispatched
pub mod Delivered
pub mod Sent
pub mod Retried
pub mod TimedOut
pub mod Landing
use moment_flow.Common.{
  ℕ, ◌==◌, ◌≡◌, ◌⊎◌, Bool, true, false, ◌&&◌, not, Option, none, some, List, [], ◌∷◌, ◌++◌, Text,
  str, is_blank, text_eq, find?, update_where, if◌then◌else◌,
}
use moment_flow.Store.{Env, Db}
use moment_flow.Store.Jobs.{Job, JobType, Provider, JobStatus, is_terminal}
use moment_flow.Store.Log.{Metadata, merge}
use moment_flow.Store.Exec.{Error, Result, ok, err, Exec}

-- The values of the choices.
abbrev pub job_type_value : JobType → Text
job_type_value JobType.metrics_collection = str "metrics_collection"
job_type_value JobType.moment_detection = str "moment_detection"
job_type_value JobType.insight_generation = str "insight_generation"
job_type_value JobType.recommendation_generation = str "recommendation_generation"
job_type_value JobType.content_generation = str "content_generation"
job_type_value JobType.content_preview = str "content_preview"
job_type_value JobType.report_generation = str "report_generation"
job_type_value JobType.media_kit_generation = str "media_kit_generation"
job_type_value JobType.video_rendering = str "video_rendering"

abbrev pub provider_value : Provider → Text
provider_value Provider.intelligence_engine = str "intelligence_engine"
provider_value Provider.content_renderer = str "content_renderer"
provider_value Provider.report_renderer = str "report_renderer"
provider_value Provider.video_renderer = str "video_renderer"
provider_value Provider.fastapi_intelligence = str "fastapi_intelligence"
provider_value Provider.worker = str "worker"
provider_value Provider.other = str "other"

abbrev pub status_value : JobStatus → Text
status_value JobStatus.queued = str "queued"
status_value JobStatus.submitted = str "submitted"
status_value JobStatus.running = str "running"
status_value JobStatus.completed = str "completed"
status_value JobStatus.partially_completed = str "partially_completed"
status_value JobStatus.failed = str "failed"
status_value JobStatus.cancelled = str "cancelled"
status_value JobStatus.expired = str "expired"
status_value JobStatus.timeout = str "timeout"

abbrev pub same_workspace : Option ℕ → Option ℕ → Bool
same_workspace (some a) (some b) = a == b
same_workspace none none = true
same_workspace _ _ = false

-- `JOB_TYPE_TO_PROVIDER`
unfoldable pub resolve_provider : JobType → Result Provider
resolve_provider JobType.content_generation = ok Provider.content_renderer
resolve_provider JobType.content_preview = ok Provider.content_renderer
resolve_provider JobType.report_generation = ok Provider.report_renderer
resolve_provider JobType.media_kit_generation = ok Provider.report_renderer
resolve_provider JobType.metrics_collection = ok Provider.intelligence_engine
resolve_provider JobType.moment_detection = ok Provider.intelligence_engine
resolve_provider JobType.insight_generation = ok Provider.intelligence_engine
resolve_provider JobType.recommendation_generation = ok Provider.intelligence_engine
resolve_provider JobType.video_rendering = err Error.unknown_job_type

unfoldable pub default_idempotency_key : JobType → Text → Text
default_idempotency_key ty entity =
    if is_blank entity then job_type_value ty else job_type_value ty ++ str ":" ++ entity

abbrev pub is_active_with : Option ℕ → Text → Job → Bool
is_active_with ws key j =
    same_workspace j.workspace ws && text_eq j.idempotency_key key && not (is_terminal j.status)

-- `find_active_job`: the newest job of the workspace with the key that is not terminal
unfoldable pub find_active_job : Option ℕ → Text → Db → Option Job
find_active_job ws key db = if is_blank key then none else find? (is_active_with ws key) db.jobs

-- `objects.filter(id=…).first()`
unfoldable pub find_job : ℕ → Db → Option Job
find_job id db = find? (λ j. j.id == id) db.jobs

-- `job.save(update_fields=…)`: `f` sets the fields that are saved.
abbrev pub save_job : ℕ → (Job → Job) → Db → Db
save_job id f db = record db { jobs = update_where (λ j. j.id == id) f db.jobs }

-- The timestamps and the message that a status sets.
abbrev pub with_lifecycle : ℕ → JobStatus → Text → Job → Job
with_lifecycle now JobStatus.running message j = record j {
  started_at = elim j.started_at [ some t ↦ some t | none ↦ some now ];
}
with_lifecycle now JobStatus.completed message j = record j { completed_at = some now }
with_lifecycle now JobStatus.partially_completed message j = record j { completed_at = some now }
with_lifecycle now JobStatus.failed message j = record j {
  failed_at = some now;
  error_message = if is_blank message then j.error_message else message;
}
with_lifecycle now JobStatus.timeout message j = record j {
  failed_at = some now;
  error_message = if is_blank message then j.error_message else message;
}
with_lifecycle now JobStatus.expired message j = record j {
  failed_at = some now;
  error_message = if is_blank message then j.error_message else message;
}
with_lifecycle now status message j = j

-- The job after `apply_job_callback`, in memory.
abbrev pub transitioned_job : ℕ → JobStatus → Text → Metadata → Job → Job
transitioned_job now status message metadata j =
    let j' = with_lifecycle now status message j in
    record j' { status = status; metadata = merge j.metadata metadata }

-- The fields that `apply_job_callback` saves, from the job in memory to the row.
abbrev pub save_lifecycle : Job → Job → Job
save_lifecycle j row = record row {
  status = j.status;
  started_at = j.started_at;
  completed_at = j.completed_at;
  failed_at = j.failed_at;
  error_message = j.error_message;
  metadata = j.metadata;
}

unfoldable pub apply_job_callback : Env → Job → JobStatus → Text → Metadata → Exec Db (Unit {0})
apply_job_callback env j status message metadata db =
    (ok tt, save_job j.id (save_lifecycle (transitioned_job env.now status message metadata j)) db)

-- What a handler of callbacks is given: the job it is about, and the `result` that the
-- entity's own app reads, and the `message` of an `error` that is a mapping.
pub record Callback (P : Type 0) : Type 0 where
  pub job : Job
  pub status : JobStatus
  pub result : Option P
  pub error : Option Text
  pub message : Text
  pub metadata : Metadata

abbrev pub Handler : Type 0 → Type 0
Handler P = Env → Callback P → Exec Db (Unit {0})

-- What the bridge relies on: a handler that returns has moved the callback's job to the status by
-- `apply_job_callback`, with a message of its own, and done nothing else to the jobs; one that raises
-- has rolled back.
abbrev pub Handled : {P : Type 0} → Env → Callback P → Db → Result (Unit {0}) × Db → Type 0
Handled env cb db (r, db') =
    ((message : Text) × (r ≡ ok tt)
      × (db'.jobs ≡ (apply_job_callback env cb.job cb.status message cb.metadata db).1.jobs))
    ⊎ ((e : Error) × (r ≡ err e) × (db'.jobs ≡ db.jobs))

abbrev pub IsHandler : (P : Type 0) → Handler P → Type 0
IsHandler P h = (env : Env) (cb : Callback P) (db : Db) → Handled env cb db (h env cb db)

-- The handlers of content/callbacks.py and reports/callbacks.py.
pub record Entities (P : Type 0) : Type 0 where
  pub content : Handler P
  pub report : Handler P
  pub media_kit : Handler P
  pub content-IsHandler : IsHandler P content
  pub report-IsHandler : IsHandler P report
  pub media_kit-IsHandler : IsHandler P media_kit
