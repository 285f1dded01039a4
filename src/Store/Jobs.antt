-- ===== src/Store/Jobs.antt =====
-- Rows of integrations_bridge/models.py.
use moment_flow.Common.{ℕ, Bool, true, false, Option, Text, ◌==◌}
use moment_flow.Store.Log.{Metadata}

pub data JobType : Type 0 where
  metrics_collection moment_detection insight_generation recommendation_generation
        content_generation content_preview report_generation media_kit_generation video_rendering :
      JobType

pub data Provider : Type 0 where
  intelligence_engine content_renderer report_renderer video_renderer fastapi_intelligence worker
        other :
      Provider

pub data JobStatus : Type 0 where
  queued submitted running completed partially_completed failed cancelled expired timeout :
      JobStatus

-- `ExternalJobReference.TERMINAL_STATUSES`
abbrev pub is_terminal : JobStatus → Bool
is_terminal JobStatus.completed = true
is_terminal JobStatus.partially_completed = true
is_terminal JobStatus.failed = true
is_terminal JobStatus.cancelled = true
is_terminal JobStatus.expired = true
is_terminal _ = false

-- `ExternalJobReference.RETRYABLE_STATUSES`
abbrev pub is_retryable : JobStatus → Bool
is_retryable JobStatus.failed = true
is_retryable JobStatus.timeout = true
is_retryable JobStatus.cancelled = true
is_retryable JobStatus.expired = true
is_retryable _ = false

-- The position of a status among the choices; two statuses are equal when these are.
abbrev pub job_rank : JobStatus → ℕ
job_rank JobStatus.queued = 0
job_rank JobStatus.submitted = 1
job_rank JobStatus.running = 2
job_rank JobStatus.completed = 3
job_rank JobStatus.partially_completed = 4
job_rank JobStatus.failed = 5
job_rank JobStatus.cancelled = 6
job_rank JobStatus.expired = 7
job_rank JobStatus.timeout = 8

-- `a == b`
abbrev pub same_job_status : JobStatus → JobStatus → Bool
same_job_status a b = job_rank a == job_rank b

pub record Job : Type 0 where
  pub id : ℕ
  pub workspace : Option ℕ
  pub job_type : JobType
  pub provider : Provider
  pub external_job_id : Text
  pub related_entity_type : Text
  pub related_entity_id : Text
  pub status : JobStatus
  pub requested_by : Option ℕ
  pub submitted_at : Option ℕ
  pub started_at : Option ℕ
  pub completed_at : Option ℕ
  pub failed_at : Option ℕ
  pub callback_received_at : Option ℕ
  pub error_message : Text
  pub request_id : Text
  pub idempotency_key : Text
  pub retry_count : ℕ
  -- the caller's part of `request_payload`; the rest of that envelope repeats the row
  pub payload : Metadata
  pub metadata : Metadata
