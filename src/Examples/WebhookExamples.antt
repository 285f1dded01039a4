-- ===== src/Examples/WebhookExamples.antt =====
-- Webhook deliveries and signatures on concrete values.
use moment_flow.Common.{
  ℕ, ◌+◌, ◌-◌, ◌*◌, leb, ◌&&◌, if◌then◌else◌, Option, ℤ, pos, ◌+ℤ◌, negate, ◌≡◌, refl, true, false,
  Bool, none, some, [], ◌∷◌, Text, str, text_eq, is_space, split_on, split_step, break_at, strip,
  lstrip, rstrip,
}
use moment_flow.Store.Billing.{StripeObject, WebhookEvent}
use moment_flow.Store.Exec.{ok}
use moment_flow.Billing.Plans.{get_active_subscription, get_plan_limit}
use moment_flow.Billing.Webhook.{find_webhook, log_and_process_event}
use moment_flow.Billing.Webhook.Delivery.{
  IsDeduplicated, log_and_process_event_retry, log_and_process_event-IsDeduplicated,
  deleted_ends_access,
}
use moment_flow.Billing.Signature.{
  Crypto, parse_signature_header, add_part, add_parts, add_pair, is_ascii, any_match,
  expected_signature, verify_timestamp, verify_stripe_signature,
}
use moment_flow.Billing.Signature.Header.{render_header, parse-render_header}
use moment_flow.Billing.Signature.Verified.{verify-render_header}
use moment_flow.Billing.Endpoint.{Body, WebhookRequest, RefusedOrAuthentic, post, post-IsAuthentic}
use moment_flow.Examples.Data.{env, subscription, plan_db}

abbrev deleted : StripeObject
deleted = record { id = str "sub_1"; status = none; cancel_at_period_end = false }

log_and_process_event_retry_example :
    let (r, db) =
      log_and_process_event env
        (str "evt_1")
        (str "customer.subscription.updated")
        (some deleted)
        true
        plan_db in
    (e : WebhookEvent) × (created : Bool) × (r ≡ ok (e, created))
    × (log_and_process_event env (str "evt_1") (str "invoice.payment_failed") none false db
        ≡ (ok (e, false), db))
log_and_process_event_retry_example =
    log_and_process_event_retry env env (str "evt_1") (str "customer.subscription.updated")
      (str "invoice.payment_failed") (some deleted) none true false plan_db

log_and_process_event-IsDeduplicated_example :
    IsDeduplicated
      (log_and_process_event env
        (str "evt_1")
        (str "invoice.payment_failed")
        none
        false
        plan_db).1.webhook_events
log_and_process_event-IsDeduplicated_example =
    log_and_process_event-IsDeduplicated env (str "evt_1") (str "invoice.payment_failed") none false
      plan_db tt

deleted_ends_access_example :
    let db =
      (log_and_process_event env
        (str "evt_1")
        (str "customer.subscription.deleted")
        (some deleted)
        true
        plan_db).1 in
    (get_active_subscription 7 db ≡ none) × ((key : Text) → get_plan_limit 7 key db ≡ none)
unfolding find_webhook text_eq
deleted_ends_access_example =
    deleted_ends_access env (str "evt_1") deleted true plan_db subscription 7 refl refl refl
      ((λ h. refl), tt)

-- `int` of digits.
abbrev toy_digits : ℕ → Text → Option ℤ
toy_digits n [] = some (pos n)
toy_digits n (c ∷ s) = if leb 48 c && leb c 57 then toy_digits (n * 10 + (c - 48)) s else none

-- A toy digest and a toy reader of numbers.
abbrev toy : Crypto
toy = record { encode = λ s. s; hmac_hex = λ k m. str "ab12"; parse_int = toy_digits 0 }

header_read :
    parse_signature_header (str "t=12, v1=ab , v0=cd,v1=ef")
    ≡ record { t = some (str "12"); v1 = str "ab" ∷ str "ef" ∷ [] }
unfolding parse_signature_header add_parts add_part add_pair split_on split_step break_at strip
    lstrip rstrip is_space text_eq
header_read = refl

parse-render_header_example :
    parse_signature_header (render_header (str "12") (str "ab" ∷ str "ef" ∷ []))
    ≡ record { t = some (str "12"); v1 = str "ab" ∷ str "ef" ∷ [] }
unfolding is_space
parse-render_header_example =
    parse-render_header (str "12") (str "ab" ∷ str "ef" ∷ []) ((refl, refl), ((refl, refl), tt))
      (((refl, refl), ((refl, refl), tt)), (((refl, refl), ((refl, refl), tt)), tt))

toy_accepts : verify_stripe_signature toy 12000000 [] (str "t=12,v1=ab12") (str "s") 300 ≡ ok true
unfolding verify_stripe_signature verify_timestamp any_match is_ascii expected_signature
    parse_signature_header add_parts add_part add_pair split_on split_step break_at strip lstrip
    rstrip is_space text_eq ◌+ℤ◌ negate
toy_accepts = refl

-- A delivery of an event without a subscription's payload.
abbrev pinged : WebhookRequest
pinged = record { payload = []; sig_header = str "t=12,v1=ab12" }

post-IsAuthentic_example : RefusedOrAuthentic toy 12000000 (str "s") pinged plan_db (
    post env toy 12000000
      (λ p. Body.mapping (str "evt_1") (str "ping") none)
      (str "s")
      pinged
      plan_db)
post-IsAuthentic_example =
    post-IsAuthentic env toy 12000000 (str "s") pinged plan_db
      (λ p. Body.mapping (str "evt_1") (str "ping") none)

verify-render_header_example :
    verify_stripe_signature toy 12000000 []
      (render_header (str "12") (expected_signature toy (str "s") (str "12") [] ∷ []))
      (str "s")
      300
    ≡ ok true
unfolding is_space expected_signature is_ascii ◌+ℤ◌ negate
verify-render_header_example =
    verify-render_header toy 12000000 [] (str "s") (str "12") 300 (pos 12) refl refl refl refl
      ((refl, refl), ((refl, refl), tt))
      ((refl, refl), ((refl, refl), ((refl, refl), ((refl, refl), tt)))) refl
