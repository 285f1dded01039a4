-- ===== src/Lib.antt =====
-- Verification of the backend core (backend_core/apps), the accounting and the life cycles that the
-- rest of the product stands on, and of the rules of the intelligence engine.
--
-- The program is a Django service. A service function is modelled as a function from the database
-- to a result and the next database (Store/Exec.antt): an exception is a result, and what was
-- written before it stays, unless an atomic block rolls it back. The database is one record of
-- tables, newest row first, which is the models' ordering (Store.antt, with the rows of each app's
-- models.py in Store/Log, Store/Billing, Store/Jobs, Store/Content and Store/Actions). Unique
-- constraints are written where rows are created. Row identifiers come from a counter.
--
-- The parts, and the functions they translate:
--   Audit              record_audit_event (backend_core/apps/audit/services.py) and
--                      create_notification (backend_core/apps/notifications/services.py)
--   Billing.Ledger     the credit ledger of backend_core/apps/billing/services.py: the balance,
--                      _record_ledger_entry, and grant, purchase, reserve, consume, release, refund;
--                      Wallet is what it promises, Refinement relates the two, Safety, Replay and
--                      Valid hold the consequences
--   Billing.Usage      record_usage_event, record_creation_usage, get_period_usage of that file
--   Billing.Plans      subscriptions, plan features, change of plan and check_workspace_limit
--   Billing.Webhook    log_and_process_event, _apply_event and _sync_subscription_from_event of
--                      backend_core/apps/billing/webhooks.py
--   Billing.Signature  _parse_signature_header and verify_stripe_signature of the same file
--   Billing.Endpoint   StripeWebhookView of backend_core/apps/billing/views.py
--   Actions            backend_core/apps/campaign_actions/services.py, and the endpoints of its views.py
--   Jobs               external jobs, backend_core/apps/integrations_bridge: registry.py, the lookups
--                      and the transition; Jobs.Sending and Jobs.Submission are services.py,
--                      Jobs.Callbacks is callbacks.py and the callback endpoint of views.py
--   Content            content packs, backend_core/apps/content: Content.Requests is services.py,
--                      Content.Callbacks, Content.Outputs and Content.Upserts are callbacks.py; the
--                      other modules are named for what they prove (Settled and Credits of the
--                      callback's credits, Opened, Refunded and Uncharged of a request's, Refused of
--                      an error, Rebuilt, Stored and Redelivered of an output, Handler and Kept of what the
--                      callback leaves alone)
--   Reports            backend_core/apps/reports: Reports.Requests is services.py, Reports.Callbacks is
--                      callbacks.py
--   Notify, Payload    _notify_once of those two apps, and the result that a renderer reports
--   Bridge             the jobs with the handlers of content packs, reports and media kits in place
--                      (_HANDLERS and _entity_failure_handlers), and sequences of events of the core
--   Core               the jobs and the ledger, which most service calls leave alone
--   Intelligence       the intelligence engine, intelligence_engine/app/services, which keeps no state:
--                      Moments is moment_detector.py (its predicates, Rules, Detector), Scoring is
--                      scoring_engine.py (Scores holds the rules, Blends the priority and the grade,
--                      Engine the answer), Recommendations is recommendation_engine.py (Facts,
--                      Rules, Engine), Analysis is campaign_analysis.py (the rules, Service),
--                      Orchestrator is intelligence_orchestrator.py, and Sorting the order of the
--                      answers; the other modules are proofs, named for what they prove
--   Campaigns          backend_core/apps/campaigns/intelligence_service.py and its endpoint in views.py;
--                      Campaigns.Client is intelligence_sync.py and clients.py of
--                      backend_core/apps/integrations_bridge
--   Examples           tests and witnesses on concrete values
-- Reading one from another: a credit movement writes an audit event in the same call; a webhook
-- changes the subscription that the quotas read; the quotas count usage events; a job that fails to
-- be sent, or is called back, is passed to the app that owns its entity, which the record Entities
-- stands for, with the law that a handler moves its own job and no other; Bridge fills that record.
-- A request for a content pack reserves credits, and the callback of its job settles or releases
-- them. Store/Keeps.antt and Store/Reverts.antt hold the rules for what a chain of calls leaves
-- alone and for calls that write nothing where they raise. In the intelligence engine, the
-- recommender reads the scores and has its own reading of the data (Facts); the scores and the
-- analysis share the detector's predicates, which the source repeats in each of them; and the
-- orchestrator runs all four and survives what they raise. The core asks it over HTTP, where a
-- reply is a text.
--
-- Numbers: a Decimal of four places is a whole number of ten-thousandths, and the digits a column
-- can hold are not bounded. Times are microseconds. A text is the list of its code points. No
-- definition needs fuel: every loop runs over a list. A UUID that arrives as text is compared with
-- the canonical text of a row's identifier.
--
-- Parameters: the clock, the current period, the text of a UUID and the message of an exception
-- (Env); HMAC-SHA256, the encoding of a text and int() of a text (Crypto); the job settings and the
-- HTTP client (Gateway); the payload built for the renderer and the text of an exception of the
-- submission (Content.Requests, Reports.Requests); lower(), fromisoformat() and the digits of a
-- number (Formats); the JSON that the engine's client reads (Values); floating-point numbers
-- (Floats), whose quotient of two counts may not exist; and json.loads of a webhook's body
-- (Billing.Endpoint). Constants of the source are in hundredths, and a date is its ordinal.
--
-- Not modelled: concurrent transactions, HTTP and serializers, the validation of requests and
-- responses by their schemas (but for the range of a score), permissions, the payloads sent to the
-- renderers, a campaign that changes after a request, credit costs that are NaN, infinite or of
-- more than four decimals, exceptions of the HTTP client that are no OSError, the renderers and
-- collectors, and the frontend.
pub mod Common
pub mod Store
pub mod Audit
pub mod Billing
pub mod Actions
pub mod Jobs
pub mod Core
pub mod Payload
pub mod Notify
pub mod Content
pub mod Reports
pub mod Bridge
pub mod Intelligence
pub mod Campaigns
mod Examples
