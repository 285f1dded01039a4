-- ===== src/Campaigns.antt =====
-- A campaign's diagnostic, asked of the intelligence engine while the request waits
-- (backend_core/apps/campaigns/intelligence_service.py, and the endpoint of its views.py).
pub mod Client
pub mod Settled
use moment_flow.Common.{
  ℕ, Bool, ◌&&◌, not, Option, none, some, List, ◌==◌, find?, Text, str, if◌then◌else◌,
}
use moment_flow.Campaigns.Client.{
  Values, Reply, EngineClient, Outcome, EngineError, EngineResult, is_server_error,
  post_campaign_intelligence,
}

-- A row of the campaigns' table, by what the service reads of it. The payload stands for what the
-- builder makes of the row.
pub record CampaignRow : Type 0 where
  pub id : ℕ
  pub workspace : ℕ
  pub is_deleted : Bool

-- The settings of the service.
pub record Switches : Type 0 where
  pub enabled : Bool
  pub dry_run : Bool

pub data ServiceError : Type 0 where
  value_error campaign_not_found disabled unavailable upstream_error : ServiceError

pub data Source : Type 0 where
  engine dry_run : Source

-- The outcome, less the fields that are copied from the request and the clock.
pub record CampaignIntelligence (J : Type 0) : Type 0 where
  pub campaign : ℕ
  pub source : Source
  pub answer : Option (EngineResult J)

pub data Served (J : Type 0) : Type 0 where
  served : CampaignIntelligence J → Served J
  failed : ServiceError → Served J

-- `_load_campaign`: the manager leaves out the rows that are deleted
unfoldable pub load_campaign : ℕ → ℕ → List CampaignRow → Option CampaignRow
load_campaign workspace id rows =
    find? (λ c. not c.is_deleted && (c.workspace == workspace && c.id == id)) rows

-- The error of the engine as the service's.
unfoldable pub service_error : EngineError → ServiceError
service_error EngineError.timeout = ServiceError.unavailable
service_error EngineError.unreachable = ServiceError.unavailable
service_error (EngineError.response_error code error_code message) =
    if is_server_error code then ServiceError.unavailable else ServiceError.upstream_error
service_error EngineError.protocol_error = ServiceError.upstream_error

module _ {J : Type 0} (v : Values J) where
  -- `_call_engine`, on the replies that the attempts get
  unfoldable pub outcome_for : CampaignRow → Outcome J → Served J
  outcome_for c (Outcome.answered result) =
      Served.served (record { campaign = c.id; source = Source.engine; answer = some result })
  outcome_for c (Outcome.raised e) = Served.failed (service_error e)

  abbrev pub call_engine : EngineClient → (ℕ → Reply) → CampaignRow → Served J
  call_engine client replies c = outcome_for c (post_campaign_intelligence v client replies)

  abbrev pub dry_run_outcome : CampaignRow → Served J
  dry_run_outcome c =
      Served.served (record { campaign = c.id; source = Source.dry_run; answer = none })

  -- `run`
  abbrev pub run_for : Switches → EngineClient → (ℕ → Reply) → CampaignRow → Served J
  run_for s client replies c =
      if not s.enabled
      then Served.failed ServiceError.disabled
      else if s.dry_run
      then dry_run_outcome c
      else call_engine client replies c

  unfoldable pub run :
      Switches → EngineClient → (ℕ → Reply) → ℕ → Option ℕ → List CampaignRow → Served J
  run s client replies workspace none rows = Served.failed ServiceError.value_error
  run s client replies workspace (some id) rows = elim (load_campaign workspace id rows) [
    | none ↦ Served.failed ServiceError.campaign_not_found
    | some c ↦ run_for s client replies c
  ]

-- The endpoint's status of an outcome. `none` is an error that it does not catch.
unfoldable pub status_code : {J : Type 0} → Served J → Option ℕ
status_code (Served.served outcome) = some 200
status_code (Served.failed ServiceError.value_error) = none
status_code (Served.failed ServiceError.campaign_not_found) = some 404
status_code (Served.failed ServiceError.disabled) = some 503
status_code (Served.failed ServiceError.unavailable) = some 503
status_code (Served.failed ServiceError.upstream_error) = some 502
