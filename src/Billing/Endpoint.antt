-- ===== src/Billing/Endpoint.antt =====
-- StripeWebhookView of billing/views.py: the signature, the event and its processing. The reading of
-- the body is the standard library's `json.loads`, so a parameter.
use mathlib.Core.Path.{subst}
use moment_flow.Common.{
  ℕ, ◌≡◌, refl, sym, ◌⊎◌, inl, inr, Bool, true, false, Option, List, Text, str, is_blank, arith,
  Bool-cases, if◌then◌else◌,
}
use moment_flow.Store.{Env, Db}
use moment_flow.Store.Billing.{StripeObject, WebhookEvent}
use moment_flow.Store.Exec.{Error, Result, ok, err, Exec, Result-cases}
use moment_flow.Billing.Signature.{Crypto, verify_stripe_signature}
use moment_flow.Billing.Signature.Verified.{IsSigned, verify-IsSigned}
use moment_flow.Billing.Webhook.{log_and_process_event}
use moment_flow.Billing.Webhook.Delivery.{log_and_process_event_retry}

-- What `json.loads(payload.decode("utf-8") or "{}")` gives: a `ValueError`, a value without `get`, or
-- a mapping, whose missing id or type is blank.
pub data Body : Type 0 where
  invalid_json : Body
  no_mapping : Body
  mapping : Text → Text → Option StripeObject → Body

pub record WebhookRequest : Type 0 where
  pub payload : List ℕ
  -- `HTTP_STRIPE_SIGNATURE`, blank where it is missing
  pub sig_header : Text

-- The `except SignatureVerificationError` around the check, and the check that gave `False`.
unfoldable pub checked : Result Bool → Result Bool
checked (ok true) = ok true
checked (ok false) = err (Error.validation_error (str "detail"))
checked (err Error.signature_error) = err (Error.validation_error (str "detail"))
checked (err x) = err x

-- `signature_verified`
unfoldable pub checked_signature : Crypto → ℕ → Text → WebhookRequest → Result Bool
checked_signature c now_us secret d =
    if is_blank secret
    then ok false
    else checked (verify_stripe_signature c now_us d.payload d.sig_header secret 300)

-- The event, whether it is new, and `signature_verified`.
abbrev pub answered :
    Bool → Result (WebhookEvent × Bool) × Db → Result (WebhookEvent × Bool × Bool) × Db
answered verified (ok (e, created), db) = (ok (e, created, verified), db)
answered verified (err x, db) = (err x, db)

-- From the reading of the body on.
unfoldable pub store_event : Env → Body → Bool → Exec Db (WebhookEvent × Bool × Bool)
store_event env Body.invalid_json verified db = (err (Error.validation_error (str "detail")), db)
store_event env Body.no_mapping verified db = (err Error.type_error, db)
store_event env (Body.mapping id ty payload) verified db =
    if is_blank id
    then (err (Error.validation_error (str "detail")), db)
    else answered verified (log_and_process_event env id ty payload verified db)

unfoldable pub post :
    Env
    → Crypto
    → ℕ
    → (List ℕ → Body)
    → Text
    → WebhookRequest
    → Exec Db (WebhookEvent × Bool × Bool)
post env c now_us read secret d db = elim (checked_signature c now_us secret d) [
  | err x ↦ (err x, db)
  | ok verified ↦ store_event env (read d.payload) verified db
]

-- What an answer says of the secret and of the signature.
pub data IsAuthentic (c : Crypto) (now_us : ℕ) (secret : Text) (d : WebhookRequest)
    : Bool → Type 0 where
  unverified : is_blank secret ≡ true → IsAuthentic c now_us secret d false
  verified :
      is_blank secret ≡ false
      → IsSigned c now_us d.payload d.sig_header secret 300
      → IsAuthentic c now_us secret d true

-- The delivery was refused and the database left as it was, or answered.
abbrev pub RefusedOrAuthentic :
    Crypto → ℕ → Text → WebhookRequest → Db → Result (WebhookEvent × Bool × Bool) × Db → Type 0
RefusedOrAuthentic c now_us secret d db (r, db') =
    ((x : Error) × (r ≡ err x) × (db' ≡ db))
    ⊎ ((e : WebhookEvent) × (created : Bool) × (flag : Bool) × (r ≡ ok (e, created, flag))
        × IsAuthentic c now_us secret d flag)

checked-true : (r : Result Bool) (b : Bool) → checked r ≡ ok b → (r ≡ ok true) × (b ≡ true)
unfolding checked
checked-true (ok true) b h = ground arith
checked-true (ok false) b h = ground arith
checked-true (err x) b h = ground arith

module _ (env : Env) (c : Crypto) (now_us : ℕ) (secret : Text) (d : WebhookRequest) (db : Db) where
  checked_signature-IsAuthentic :
      (flag : Bool)
      → checked_signature c now_us secret d ≡ ok flag
      → IsAuthentic c now_us secret d flag
  unfolding checked_signature
  checked_signature-IsAuthentic flag h = elim (Bool-cases (is_blank secret)) [
    | inl b ↦ subst (IsAuthentic c now_us secret d) (ground arith) (unverified b)
    | inr n ↦
        let (accepted, is_true) =
          checked-true (verify_stripe_signature c now_us d.payload d.sig_header secret 300) flag
            (ground arith) in
        subst (IsAuthentic c now_us secret d) (sym is_true)
          (verified n (verify-IsSigned c now_us d.payload d.sig_header secret 300 accepted).1)
  ]

  store_event-IsAuthentic :
      (body : Body) (flag : Bool)
      → IsAuthentic c now_us secret d flag
      → RefusedOrAuthentic c now_us secret d db (store_event env body flag db)
  unfolding store_event
  store_event-IsAuthentic Body.invalid_json flag a = inl (_, refl, refl)
  store_event-IsAuthentic Body.no_mapping flag a = inl (_, refl, refl)
  store_event-IsAuthentic (Body.mapping id ty payload) flag a = elim (Bool-cases (is_blank id)) [
    | inl b ↦ rw b (inl (_, refl, refl))
    | inr n ↦
        let (e, created, h, again) =
          log_and_process_event_retry env env id ty ty payload payload flag flag db in
        rw n (inr (e, created, flag, ground arith, a))
  ]

  post-rejected :
      (read : List ℕ → Body) (x : Error)
      → checked_signature c now_us secret d ≡ err x
      → post env c now_us read secret d db ≡ (err x, db)
  unfolding post
  post-rejected read x h = ground arith

  post-verified :
      (read : List ℕ → Body) (flag : Bool)
      → checked_signature c now_us secret d ≡ ok flag
      → post env c now_us read secret d db ≡ store_event env (read d.payload) flag db
  unfolding post
  post-verified read flag h = ground arith

  -- A delivery to the webhook endpoint is refused with an error and changes nothing, or it is
  -- answered: as unverified where no secret is configured; as verified only where one is, and the
  -- header has a timestamp that is a number within 300 seconds, and among its signatures the HMAC of
  -- that timestamp and the payload. With a secret configured, nothing else is stored.
  pub post-IsAuthentic :
      (read : List ℕ → Body)
      → RefusedOrAuthentic c now_us secret d db (post env c now_us read secret d db)
  post-IsAuthentic read = elim (Result-cases (checked_signature c now_us secret d)) [
    | inr (x, h) ↦
        subst (RefusedOrAuthentic c now_us secret d db) (sym (post-rejected read x h))
          (inl (x, refl, refl))
    | inl (flag, h) ↦
        subst (RefusedOrAuthentic c now_us secret d db) (sym (post-verified read flag h))
          (store_event-IsAuthentic (read d.payload) flag (checked_signature-IsAuthentic flag h))
  ]
