-- ===== src/Store.antt =====
-- The database (backend_core/apps/*/models.py) as one record of tables, newest row first (the
-- models' `ordering` is `-created_at`, so `.first()` is the head), what a service draws from its
-- surroundings, and the monad of a service call: state that survives a raise, and exceptions.
pub mod Log
pub mod Billing
pub mod Jobs
pub mod Content
pub mod Reports
pub mod Actions
pub mod Exec
pub mod Keeps
pub mod Reverts
use moment_flow.Common.{ℕ, Bool, List, Text}
use Log.{AuditEvent, Notification}
use Billing.{PlanFeature, Plan, Subscription, UsageEvent, LedgerEntry, WebhookEvent, OwnedRow}
use Jobs.{Job}
use Actions.{CampaignAction}
use Reports.{Report, MediaKit}
use Content.{ContentPack, PackTemplate, Template, TemplateVersion, PackRequest, Output, Asset}

-- Time, settings and the text of an identifier come from outside. A row's identifier is its number
-- in the order of creation; `uuid_text` is the text that `str` gives its UUID.
pub record Env : Type 0 where
  pub now : ℕ
  pub current_billing_period : Text
  pub uuid_text : ℕ → Text
  -- what `uuid.UUID` accepts
  pub is_uuid : Text → Bool
  -- the decimal text of a number
  pub number_text : ℕ → Text
  -- the text of the exception that a payload of a wrong shape raises, cut to 2000 characters
  pub malformed_payload : Text

pub record Db : Type 0 where
  -- identifiers drawn so far
  pub drawn : ℕ
  pub plans : List Plan
  pub plan_features : List PlanFeature
  pub subscriptions : List Subscription
  pub usage_events : List UsageEvent
  pub ledger : List LedgerEntry
  pub webhook_events : List WebhookEvent
  pub audit_events : List AuditEvent
  pub notifications : List Notification
  pub jobs : List Job
  pub pack_templates : List PackTemplate
  pub templates : List Template
  pub template_versions : List TemplateVersion
  pub content_packs : List ContentPack
  pub pack_requests : List PackRequest
  pub outputs : List Output
  pub assets : List Asset
  pub reports : List Report
  pub media_kits : List MediaKit
  pub campaign_actions : List CampaignAction
  pub artists : List OwnedRow
  pub tracks : List OwnedRow
  pub campaigns : List OwnedRow
  pub smart_links : List OwnedRow
