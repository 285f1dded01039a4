-- ===== src/Store/Billing.antt =====
-- Rows of billing/models.py. Amounts, quantities and costs are decimals of four places, so whole
-- numbers of ten-thousandths; `max_digits` is not modelled.
use moment_flow.Common.{ℕ, ℤ, Bool, Option, Text}
use moment_flow.Store.Log.{Metadata}

pub record Plan : Type 0 where
  pub id : ℕ
  pub plan_key : Text

-- A `limit_value` of `none` on an enabled feature means unlimited.
pub record PlanFeature : Type 0 where
  pub id : ℕ
  pub plan : ℕ
  pub feature_key : Text
  pub limit_value : Option ℤ
  pub is_enabled : Bool

pub data SubscriptionProvider : Type 0 where
  manual stripe trial : SubscriptionProvider

pub data SubscriptionStatus : Type 0 where
  trialing active past_due cancelled unpaid paused enterprise_manual : SubscriptionStatus

pub record Subscription : Type 0 where
  pub id : ℕ
  pub workspace : ℕ
  pub plan : ℕ
  pub provider : SubscriptionProvider
  pub provider_subscription_id : Text
  pub status : SubscriptionStatus
  pub cancel_at_period_end : Bool
  pub updated_at : ℕ

pub data EventType : Type 0 where
  artist_created track_created track_monitored campaign_created content_pack_requested
        content_pack_generated content_output_created smart_link_created smart_link_clicked
        report_generated media_kit_generated :
      EventType

pub record UsageEvent : Type 0 where
  pub id : ℕ
  pub workspace : ℕ
  pub event_type : EventType
  pub quantity : ℤ
  pub unit : Text
  pub related_entity_type : Text
  pub related_entity_id : Text
  pub cost_units : ℤ
  pub billing_period : Text
  pub idempotency_key : Text
  pub metadata : Metadata

pub data TransactionType : Type 0 where
  grant reserve consume release refund adjustment expiration purchase : TransactionType

pub record LedgerEntry : Type 0 where
  pub id : ℕ
  pub workspace : ℕ
  pub transaction_type : TransactionType
  pub amount : ℤ
  pub balance_after : ℤ
  pub reason : Text
  pub related_entity_type : Text
  pub related_entity_id : Text
  pub idempotency_key : Text
  pub metadata : Metadata

pub data WebhookStatus : Type 0 where
  received processed ignored failed duplicate : WebhookStatus

-- The part of a Stripe event that the code reads: `data.object.id`, `.status` and
-- `.cancel_at_period_end`.
pub record StripeObject : Type 0 where
  pub id : Text
  pub status : Option Text
  pub cancel_at_period_end : Bool

pub record WebhookEvent : Type 0 where
  pub id : ℕ
  pub provider_event_id : Text
  pub event_type : Text
  pub status : WebhookStatus
  pub processed_at : Option ℕ
  -- `none` where `data` or `object` is no mapping, so that reading it raises
  pub payload : Option StripeObject
  pub error_message : Text
  pub signature_verified : Bool

-- What the quota counters read of an artist, a track, a campaign or a smart link.
pub record OwnedRow : Type 0 where
  pub workspace : ℕ
  pub is_archived : Bool
  pub is_deleted : Bool
