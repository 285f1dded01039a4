-- ===== src/Billing/Webhook/Delivery.antt =====
-- Deliveries of provider events: each is applied once, and what one does to the subscriptions.
use moment_flow.Common.{
  ℕ, suc, ◌==◌, ◌≡◌, refl, inl, inr, Bool, true, false, Option, none, some, List, [], ◌∷◌, Text,
  str, is_blank, text_eq, text_eq_refl, text_eq, starts_with, find?, update_where, All, arith,
  Option-cases, if◌then◌else◌,
}
use moment_flow.Store.{Env, Db}
use moment_flow.Store.Billing.{Subscription, StripeObject, WebhookEvent, WebhookStatus}
use moment_flow.Store.Exec.{ok}
use moment_flow.Billing.Plans.{
  is_current, get_active_subscription, active_plan_feature, get_plan_limit,
}
use moment_flow.Billing.Webhook.{
  is_handled, is_subscription_event, is_subscription_deleted, is_provider_subscription, synced,
  synced_status, sync_subscription, close, close_failed, save_event, apply_event, has_event_id,
  find_webhook, new_webhook, create_webhook, apply_created, log_and_process_event,
}

abbrev pub push_webhook : WebhookEvent → Db → Db
push_webhook e db = record db { drawn = suc db.drawn; webhook_events = e ∷ db.webhook_events }

module _ (env : Env) (id ty : Text) (payload : Option StripeObject) (verified : Bool)
    (db : Db) where
  created :
      find_webhook id db ≡ none
      → create_webhook (new_webhook id ty payload verified db) db ≡ (
        ok (new_webhook id ty payload verified db),
        push_webhook (new_webhook id ty payload verified db) db,
      )
  unfolding create_webhook
  created h = ground arith

  pub log_event-new :
      find_webhook id db ≡ none
      → log_and_process_event env id ty payload verified db ≡ (
          let (e, db') =
            apply_event env
              (new_webhook id ty payload verified db)
              (push_webhook (new_webhook id ty payload verified db) db) in
          (ok (e, true), db'))
  unfolding log_and_process_event apply_created
  log_event-new h = rw (h, log_and_process_event) (rw (created h, apply_created) refl)

  pub log_event-known :
      (e : WebhookEvent)
      → find_webhook id db ≡ some e
      → log_and_process_event env id ty payload verified db ≡ (ok (e, false), db)
  unfolding log_and_process_event
  log_event-known e h = rw (h, log_and_process_event)

-- Applying an event that stands first in the table leaves its saved row first.
module _ (env : Env) (e : WebhookEvent) (db : Db) where
  applied-found :
      let (e', db') = apply_event env e (push_webhook e db) in
      find_webhook e.provider_event_id db' ≡ some e'
  unfolding apply_event find_webhook
  applied-found = ground (arith, text_eq_refl e.provider_event_id)

-- Every delivery returns an event; delivering an event with the same id again, whatever its type and
-- payload, returns the stored event with `created` false and writes nothing.
pub log_and_process_event_retry :
    (env env' : Env) (id ty ty' : Text) (payload payload' : Option StripeObject) (v v' : Bool)
    (db : Db)
    → let (r, db') = log_and_process_event env id ty payload v db in
      (e : WebhookEvent) × (created : Bool) × (r ≡ ok (e, created))
      × (log_and_process_event env' id ty' payload' v' db' ≡ (ok (e, false), db'))
log_and_process_event_retry env env' id ty ty' payload payload' v v' db =
    elim (Option-cases (find_webhook id db)) [
      | inl h ↦
          let first : WebhookEvent = new_webhook id ty payload v db in
          (
            (apply_event env first (push_webhook first db)).0,
            true,
            rw (log_event-new env id ty payload v db h),
            rw (log_event-new env id ty payload v db h) (
                log_event-known env' id ty' payload' v'
                  (apply_event env first (push_webhook first db)).1
                  (apply_event env first (push_webhook first db)).0 (applied-found env first db)),
          )
      | inr (e, h) ↦ (
        e,
        false,
        rw (log_event-known env id ty payload v db e h),
        rw (log_event-known env id ty payload v db e h)
            (log_event-known env' id ty' payload' v' db e h),
      )
    ]

-- No two rows of the table have the same provider event id.
abbrev pub IsDeduplicated : List WebhookEvent → Type 0
IsDeduplicated [] = Unit
IsDeduplicated (e ∷ es) = (find? (has_event_id e.provider_event_id) es ≡ none) × IsDeduplicated es

module _ (p : WebhookEvent → Bool) (f : WebhookEvent → WebhookEvent)
    (keeps : (e : WebhookEvent) → (f e).provider_event_id ≡ e.provider_event_id) where
  find-saved :
      (id : Text) (es : List WebhookEvent)
      → find? (has_event_id id) es ≡ none
      → find? (has_event_id id) (update_where p f es) ≡ none
  find-saved id [] h = refl
  find-saved id (e ∷ es) h = ground (arith, keeps e, find-saved id es)

  saved-id : (e : WebhookEvent) → (if p e then f e else e).provider_event_id ≡ e.provider_event_id
  saved-id e = ground (arith, keeps e)

  saved-IsDeduplicated :
      (es : List WebhookEvent) → IsDeduplicated es → IsDeduplicated (update_where p f es)
  saved-IsDeduplicated [] h = tt
  saved-IsDeduplicated (e ∷ es) h =
      (rw (saved-id e) (find-saved e.provider_event_id es h.0), saved-IsDeduplicated es h.1)

module _ (env : Env) (e : WebhookEvent) (db : Db) (dedup : IsDeduplicated db.webhook_events) where
  closed-IsDeduplicated :
      (status : WebhookStatus)
      → IsDeduplicated (save_event (close env status) e db).1.webhook_events
  closed-IsDeduplicated status =
      saved-IsDeduplicated (λ r. r.id == e.id) (close env status) (λ r. refl) db.webhook_events
        dedup

  failed-IsDeduplicated : IsDeduplicated (save_event (close_failed env) e db).1.webhook_events
  failed-IsDeduplicated =
      saved-IsDeduplicated (λ r. r.id == e.id) (close_failed env) (λ r. refl) db.webhook_events
        dedup

  apply_event-IsDeduplicated : IsDeduplicated (apply_event env e db).1.webhook_events
  unfolding apply_event
  apply_event-IsDeduplicated = ground (
    arith,
    closed-IsDeduplicated WebhookStatus.processed,
    closed-IsDeduplicated WebhookStatus.ignored,
    failed-IsDeduplicated,
  )

-- A delivery, of whatever event, keeps the provider event ids of the stored rows distinct.
pub log_and_process_event-IsDeduplicated :
    (env : Env) (id ty : Text) (payload : Option StripeObject) (verified : Bool) (db : Db)
    → IsDeduplicated db.webhook_events
    → IsDeduplicated (log_and_process_event env id ty payload verified db).1.webhook_events
unfolding find_webhook
log_and_process_event-IsDeduplicated env id ty payload verified db h =
    elim (Option-cases (find_webhook id db)) [
      | inl fresh ↦ rw (log_event-new env id ty payload verified db fresh) (
          apply_event-IsDeduplicated env (new_webhook id ty payload verified db)
            (push_webhook (new_webhook id ty payload verified db) db) (fresh, h))
      | inr (e, known) ↦ rw (log_event-known env id ty payload verified db e known) h
    ]

no_limit :
    (ws : ℕ) (key : Text) (db : Db)
    → get_active_subscription ws db ≡ none
    → get_plan_limit ws key db ≡ none
unfolding get_plan_limit active_plan_feature
no_limit ws key db h = ground arith

-- What a deleted subscription leaves.
cancelled_not_current :
    (ws now : ℕ) (ty : Text) (obj : StripeObject) (s : Subscription) (subs : List Subscription)
    → is_subscription_deleted ty ≡ true
    → All (λ (r : Subscription). is_current ws r ≡ true → r.id ≡ s.id) subs
    → find? (is_current ws) (update_where (λ r. r.id == s.id) (synced now ty obj s) subs) ≡ none
unfolding synced_status
cancelled_not_current ws now ty obj s [] deleted only = refl
cancelled_not_current ws now ty obj s (r ∷ rs) deleted only =
    ground (arith, only.0, cancelled_not_current ws now ty obj s rs deleted only.1)

deleted_event_ends :
    (env : Env) (id ty : Text) (obj : StripeObject) (verified : Bool) (db : Db) (s : Subscription)
    (ws : ℕ)
    → is_handled ty ≡ true
    → is_subscription_event ty ≡ true
    → is_subscription_deleted ty ≡ true
    → find_webhook id db ≡ none
    → is_blank obj.id ≡ false
    → find? (is_provider_subscription obj.id) db.subscriptions ≡ some s
    → All (λ (r : Subscription). is_current ws r ≡ true → r.id ≡ s.id) db.subscriptions
    → get_active_subscription ws (log_and_process_event env id ty (some obj) verified db).1 ≡ none
unfolding apply_event sync_subscription get_active_subscription
deleted_event_ends env id ty obj verified db s ws handled sub deleted fresh named found only =
    rw (log_event-new env id ty (some obj) verified db fresh)
      (ground (arith, cancelled_not_current ws env.now ty obj s db.subscriptions deleted only))

-- `customer.subscription.deleted` for the one subscription that gives the workspace access, when it
-- is delivered for the first time and names that subscription, leaves the workspace with no active
-- subscription, and then no feature has a limit: the quota checks fail open.
pub deleted_ends_access :
    (env : Env) (id : Text) (obj : StripeObject) (verified : Bool) (db : Db) (s : Subscription)
    (ws : ℕ)
    → find_webhook id db ≡ none
    → is_blank obj.id ≡ false
    → find? (is_provider_subscription obj.id) db.subscriptions ≡ some s
    → All (λ (r : Subscription). is_current ws r ≡ true → r.id ≡ s.id) db.subscriptions
    → let db' =
        (log_and_process_event env id
          (str "customer.subscription.deleted")
          (some obj)
          verified
          db).1 in
      (get_active_subscription ws db' ≡ none) × ((key : Text) → get_plan_limit ws key db' ≡ none)
unfolding is_handled is_subscription_event is_subscription_deleted starts_with text_eq
deleted_ends_access env id obj verified db s ws fresh named found only =
    let ended =
      deleted_event_ends env id (str "customer.subscription.deleted") obj verified db s ws refl refl
        refl fresh named found only in
    (ended, λ key. no_limit ws key _ ended)
