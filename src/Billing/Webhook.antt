-- ===== src/Billing/Webhook.antt =====
-- billing/webhooks.py below the signature: events are stored once and applied to subscriptions.
pub mod Delivery
use moment_flow.Common.{
  ℕ, suc, ◌==◌, Bool, true, false, ◌&&◌, ◌||◌, Option, none, some, List, [], ◌∷◌, Text, str,
  is_blank, text_eq, starts_with, is_some, find?, update_where, if◌then◌else◌,
}
use moment_flow.Store.{Env, Db}
use moment_flow.Store.Billing.{
  Subscription, SubscriptionStatus, SubscriptionProvider, StripeObject, WebhookEvent, WebhookStatus,
}
use moment_flow.Store.Exec.{Error, Result, ok, err, Exec}

-- `HANDLED_EVENT_TYPES`
unfoldable pub is_handled : Text → Bool
is_handled ty =
    text_eq ty (str "checkout.session.completed")
    || text_eq ty (str "customer.subscription.created")
    || text_eq ty (str "customer.subscription.updated")
    || text_eq ty (str "customer.subscription.deleted")
    || text_eq ty (str "invoice.payment_succeeded")
    || text_eq ty (str "invoice.payment_failed")

-- `STRIPE_STATUS_MAP.get(status)`
unfoldable pub stripe_status : Text → Option SubscriptionStatus
stripe_status t =
    if text_eq t (str "trialing")
    then some SubscriptionStatus.trialing
    else if text_eq t (str "active")
    then some SubscriptionStatus.active
    else if text_eq t (str "past_due")
    then some SubscriptionStatus.past_due
    else if text_eq t (str "canceled")
    then some SubscriptionStatus.cancelled
    else if text_eq t (str "unpaid")
    then some SubscriptionStatus.unpaid
    else if text_eq t (str "paused")
    then some SubscriptionStatus.paused
    else none

abbrev pub is_stripe : SubscriptionProvider → Bool
is_stripe SubscriptionProvider.stripe = true
is_stripe _ = false

abbrev pub is_provider_subscription : Text → Subscription → Bool
is_provider_subscription id s = is_stripe s.provider && text_eq s.provider_subscription_id id

unfoldable pub is_subscription_deleted : Text → Bool
is_subscription_deleted ty = text_eq ty (str "customer.subscription.deleted")

unfoldable pub is_subscription_event : Text → Bool
is_subscription_event ty = starts_with (str "customer.subscription.") ty

-- The status that the event gives a subscription.
unfoldable pub synced_status : Text → StripeObject → SubscriptionStatus → SubscriptionStatus
synced_status ty obj status =
    if is_subscription_deleted ty then SubscriptionStatus.cancelled else elim obj.status [
      | none ↦ status
      | some t ↦ elim (stripe_status t) [ none ↦ status | some mapped ↦ mapped ]
    ]

-- What `_sync_subscription_from_event` saves of the subscription `s`, in the row with its id.
abbrev pub synced : ℕ → Text → StripeObject → Subscription → Subscription → Subscription
synced now ty obj s row = record row {
  status = synced_status ty obj s.status;
  cancel_at_period_end = obj.cancel_at_period_end;
  updated_at = now;
}

-- `_sync_subscription_from_event`, past the reading of the payload
unfoldable pub sync_subscription : Env → Text → StripeObject → List Subscription → List Subscription
sync_subscription env ty obj subs =
    if is_blank obj.id then subs else elim (find? (is_provider_subscription obj.id) subs) [
      | none ↦ subs
      | some s ↦ update_where (λ r. r.id == s.id) (synced env.now ty obj s) subs
    ]

-- `event.save(update_fields=["status", "processed_at"])`
abbrev pub close : Env → WebhookStatus → WebhookEvent → WebhookEvent
close env status e = record e { status = status; processed_at = some env.now }

-- The save of the `except` branch, which has the message too.
abbrev pub close_failed : Env → WebhookEvent → WebhookEvent
close_failed env e = record e {
  status = WebhookStatus.failed;
  error_message = env.malformed_payload;
  processed_at = some env.now;
}

-- The event with the fields set, and the table with its row saved.
abbrev pub save_event : (WebhookEvent → WebhookEvent) → WebhookEvent → Db → WebhookEvent × Db
save_event f e db =
    (f e, record db { webhook_events = update_where (λ r. r.id == e.id) f db.webhook_events })

unfoldable pub apply_event : Env → WebhookEvent → Db → WebhookEvent × Db
apply_event env e db =
    if is_handled e.event_type
    then if is_subscription_event e.event_type
      then elim e.payload [
        | none ↦ save_event (close_failed env) e db
        | some obj ↦
            save_event (close env WebhookStatus.processed) e (record db {
              subscriptions = sync_subscription env e.event_type obj db.subscriptions;
            })
      ]
      else save_event (close env WebhookStatus.processed) e db
    else save_event (close env WebhookStatus.ignored) e db

abbrev pub has_event_id : Text → WebhookEvent → Bool
has_event_id id e = text_eq e.provider_event_id id

unfoldable pub find_webhook : Text → Db → Option WebhookEvent
find_webhook id db = find? (has_event_id id) db.webhook_events

abbrev pub new_webhook : Text → Text → Option StripeObject → Bool → Db → WebhookEvent
new_webhook id ty payload verified db = record {
  id = db.drawn;
  provider_event_id = id;
  event_type = ty;
  status = WebhookStatus.received;
  processed_at = none;
  payload = payload;
  error_message = [];
  signature_verified = verified;
}

-- `BillingWebhookEvent.objects.create(…)` with the unique constraint on provider and event id
unfoldable pub create_webhook : WebhookEvent → Exec Db WebhookEvent
create_webhook e db =
    if is_some (find_webhook e.provider_event_id db)
    then (err Error.integrity_error, db)
    else (ok e, record db { drawn = suc db.drawn; webhook_events = e ∷ db.webhook_events })

-- From the creation on: the `except IntegrityError`, or the event applied.
unfoldable pub apply_created :
    Env → Text → Result WebhookEvent × Db → Result (WebhookEvent × Bool) × Db
apply_created env id (ok e, db) = let (e', db') = apply_event env e db in (ok (e', true), db')
apply_created env id (err Error.integrity_error, db) = elim (find_webhook id db) [
  | some e ↦ (ok (e, false), db)
  | none ↦ (err Error.integrity_error, db)
]
apply_created env id (err x, db) = (err x, db)

unfoldable pub log_and_process_event :
    Env → Text → Text → Option StripeObject → Bool → Exec Db (WebhookEvent × Bool)
log_and_process_event env id ty payload verified db = elim (find_webhook id db) [
  | some e ↦ (ok (e, false), db)
  | none ↦ apply_created env id (create_webhook (new_webhook id ty payload verified db) db)
]
