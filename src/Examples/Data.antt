-- ===== src/Examples/Data.antt =====
-- Concrete environments, tables and arguments.
use moment_flow.Common.{ℕ, ◌+◌, ℤ, pos, true, false, none, some, [], ◌∷◌, Text, str}
use moment_flow.Store.{Env, Db}
use moment_flow.Store.Billing.{
  Plan, PlanFeature, Subscription, SubscriptionProvider, SubscriptionStatus,
}
use moment_flow.Store.Actions.{CampaignAction, ActionType, ActionStatus, Priority, Source}
use moment_flow.Billing.Ledger.{Details}
use moment_flow.Jobs.Sending.{Answer, Gateway}
use moment_flow.Billing.Usage.{UsageArgs}

-- A UUID's text as one character that numbers it.
abbrev pub env : Env
env = record {
  now = 1000;
  current_billing_period = str "2026-06";
  uuid_text = λ n. (n + 256) ∷ [];
  is_uuid = λ s. true;
  number_text = λ n. (n + 48) ∷ [];
  malformed_payload = str "no attribute";
}

abbrev pub empty_db : Db
empty_db = record {
  drawn = 0;
  plans = [];
  plan_features = [];
  subscriptions = [];
  usage_events = [];
  ledger = [];
  webhook_events = [];
  audit_events = [];
  notifications = [];
  jobs = [];
  pack_templates = [];
  templates = [];
  template_versions = [];
  content_packs = [];
  pack_requests = [];
  outputs = [];
  assets = [];
  reports = [];
  media_kits = [];
  campaign_actions = [];
  artists = [];
  tracks = [];
  campaigns = [];
  smart_links = [];
}

abbrev pub keyed : Text → Details
keyed key = record {
  reason = [];
  related_entity_type = [];
  related_entity_id = [];
  idempotency_key = key;
  metadata = [];
}

abbrev pub usage_keyed : Text → UsageArgs
usage_keyed key = record {
  quantity = pos 10000;
  unit = [];
  related_entity_type = [];
  related_entity_id = [];
  cost_units = pos 0;
  billing_period = none;
  idempotency_key = key;
  metadata = [];
}

abbrev pub free : Plan
free = record { id = 1; plan_key = str "free" }

abbrev pub pro : Plan
pro = record { id = 2; plan_key = str "pro" }

abbrev pub subscription : Subscription
subscription = record {
  id = 5;
  workspace = 7;
  plan = 1;
  provider = SubscriptionProvider.stripe;
  provider_subscription_id = str "sub_1";
  status = SubscriptionStatus.active;
  cancel_at_period_end = false;
  updated_at = 0;
}

abbrev pub pack_limit : ℕ → ℤ → PlanFeature
pack_limit plan limit = record {
  id = plan;
  plan = plan;
  feature_key = str "content_packs_per_month";
  limit_value = some limit;
  is_enabled = true;
}

-- Workspace 7 on the plan `free`, which allows one pack a month; `pro` allows ten.
abbrev pub plan_db : Db
plan_db = record empty_db {
  plans = free ∷ pro ∷ [];
  plan_features = pack_limit 1 (pos 1) ∷ pack_limit 2 (pos 10) ∷ [];
  subscriptions = subscription ∷ [];
}

abbrev pub action : CampaignAction
action = record {
  id = 3;
  workspace = 7;
  campaign = 4;
  recommendation_ref = [];
  title = str "Call the label";
  description = [];
  action_type = ActionType.manual_task;
  status = ActionStatus.pending;
  priority = Priority.medium;
  source = Source.manual;
  dismiss_reason = [];
  metadata = [];
  completed_at = none;
  cancelled_at = none;
  updated_by = none;
  updated_at = 0;
}

abbrev pub action_db : Db
action_db = record empty_db { campaign_actions = action ∷ [] }

abbrev pub dry : Gateway
dry = record {
  enabled = true;
  dry_run = true;
  is_configured = λ p. true;
  not_resolved = str "not configured";
  fresh_request_id = str "r1";
  post_json = λ j. Answer.timed_out (str "slow");
}
