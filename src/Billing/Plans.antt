-- ===== src/Billing/Plans.antt =====
-- Subscriptions, plan features and quota enforcement of billing/services.py.
pub mod Quota
use moment_flow.Common.{
  ℕ, suc, ℤ, pos, ◌+ℤ◌, ltb_ℤ, ◌==◌, Bool, true, false, ◌&&◌, not, Option, none, some, List, [],
  ◌∷◌, Text, str, text_eq, find?, select, length, if◌then◌else◌,
}
use moment_flow.Store.{Env, Db}
use moment_flow.Store.Billing.{
  Plan, PlanFeature, Subscription, SubscriptionStatus, EventType, OwnedRow,
}
use moment_flow.Store.Log.{MetaValue, ActorType}
use moment_flow.Store.Exec.{Error, Result, ok, err, Exec, pure, ◌>>=◌, ◌>>◌}
use moment_flow.Audit.{record_audit_event}
use moment_flow.Billing.Usage.{count_usage_this_period}

-- `Subscription.ACTIVE_STATUSES`
abbrev pub is_active_status : SubscriptionStatus → Bool
is_active_status SubscriptionStatus.trialing = true
is_active_status SubscriptionStatus.active = true
is_active_status SubscriptionStatus.past_due = true
is_active_status SubscriptionStatus.enterprise_manual = true
is_active_status _ = false

abbrev pub is_current : ℕ → Subscription → Bool
is_current ws s = s.workspace == ws && is_active_status s.status

unfoldable pub get_active_subscription : ℕ → Db → Option Subscription
get_active_subscription ws db = find? (is_current ws) db.subscriptions

abbrev pub is_feature : ℕ → Text → PlanFeature → Bool
is_feature plan key f = f.plan == plan && text_eq f.feature_key key

-- `PlanFeature.objects.filter(plan=…, feature_key=…).first()`
unfoldable pub plan_feature : ℕ → Text → Db → Option PlanFeature
plan_feature plan key db = find? (is_feature plan key) db.plan_features

unfoldable pub active_plan_feature : ℕ → Text → Db → Option PlanFeature
active_plan_feature ws key db = elim (get_active_subscription ws db) [
  | none ↦ none
  | some s ↦ plan_feature s.plan key db
]

unfoldable pub workspace_has_feature : ℕ → Text → Db → Bool
workspace_has_feature ws key db = elim (active_plan_feature ws key db) [
  | none ↦ false
  | some f ↦ f.is_enabled
]

-- `none` means that no limit is enforced.
abbrev pub feature_limit : Option PlanFeature → Option ℤ
feature_limit none = none
feature_limit (some f) = if f.is_enabled then f.limit_value else some (pos 0)

unfoldable pub get_plan_limit : ℕ → Text → Db → Option ℤ
get_plan_limit ws key db = feature_limit (active_plan_feature ws key db)

-- `subscription.plan.plan_key`
unfoldable pub plan_key_of : ℕ → List Plan → Text
plan_key_of plan [] = []
plan_key_of plan (p ∷ ps) = if p.id == plan then p.plan_key else plan_key_of plan ps

-- `subscription.save(update_fields=["plan", "updated_at"])`
unfoldable pub set_plan : ℕ → ℕ → ℕ → List Subscription → List Subscription
set_plan id plan now [] = []
set_plan id plan now (s ∷ ss) =
    (if s.id == id then record s { plan = plan; updated_at = now } else s) ∷ set_plan id plan now ss

unfoldable pub audit_plan_change : Env → ℕ → Subscription → Plan → Option ℕ → Exec Db (Unit {0})
audit_plan_change env ws old new_plan actor db =
    (record_audit_event (record {
      action = str "billing.plan_changed";
      workspace = some ws;
      actor_user = actor;
      actor_type = elim actor [ some u ↦ none | none ↦ some ActorType.system ];
      entity_type = str "subscription";
      entity_id = env.uuid_text old.id;
      before_data = (str "plan", MetaValue.text (plan_key_of old.plan db.plans)) ∷ [];
      after_data = (str "plan", MetaValue.text new_plan.plan_key) ∷ [];
    })
        >> pure tt)
      db

unfoldable pub change_subscription_plan : Env → ℕ → Plan → Option ℕ → Exec Db (Option Subscription)
change_subscription_plan env ws new_plan actor db = elim (get_active_subscription ws db) [
  | none ↦ (ok none, db)
  | some s ↦
      if s.plan == new_plan.id
      then (ok (some s), db)
      else (audit_plan_change env ws s new_plan actor
            >> pure (some (record s { plan = new_plan.id; updated_at = env.now })))
          (record db { subscriptions = set_plan s.id new_plan.id env.now db.subscriptions })
]

-- `Model.objects.filter(workspace=…).exclude(status=ARCHIVED).count()`; `objects` hides the rows that
-- are soft-deleted.
abbrev pub is_counted : ℕ → OwnedRow → Bool
is_counted ws r = r.workspace == ws && not r.is_archived && not r.is_deleted

unfoldable pub count_owned : ℕ → List OwnedRow → ℕ
count_owned ws rows = length (select (is_counted ws) rows)

-- `USAGE_COUNTERS`, looked up by the feature's key
unfoldable pub count_current_usage : Env → ℕ → Text → Db → Option ℕ
count_current_usage env ws key db =
    if text_eq key (str "artists_limit")
    then some (count_owned ws db.artists)
    else if text_eq key (str "tracks_limit")
    then some (count_owned ws db.tracks)
    else if text_eq key (str "campaigns_limit")
    then some (count_owned ws db.campaigns)
    else if text_eq key (str "smart_links_limit")
    then some (count_owned ws db.smart_links)
    else if text_eq key (str "content_packs_per_month")
    then some (count_usage_this_period env ws EventType.content_pack_requested db)
    else if text_eq key (str "reports_per_month")
    then some (count_usage_this_period env ws EventType.report_generated db)
    else none

-- `subscription.plan.plan_key if subscription else "unknown"`
unfoldable pub active_plan_key : ℕ → Db → Text
active_plan_key ws db = elim (get_active_subscription ws db) [
  | none ↦ str "unknown"
  | some s ↦ plan_key_of s.plan db.plans
]

-- `if current_count + increment > limit`
unfoldable pub within_limit : ℕ → Text → ℤ → ℤ → ℤ → Exec Db (Unit {0})
within_limit ws key limit count increment db =
    if ltb_ℤ limit (count +ℤ increment)
    then (err (Error.quota_exceeded key (active_plan_key ws db) count limit), db)
    else (ok tt, db)

-- The count of the caller, or else the current usage.
unfoldable pub usage_or_current : Env → ℕ → Text → Option ℤ → Db → Option ℤ
usage_or_current env ws key (some n) db = some n
usage_or_current env ws key none db = elim (count_current_usage env ws key db) [
  | none ↦ none
  | some n ↦ some (pos n)
]

unfoldable pub check_workspace_limit : Env → ℕ → Text → ℤ → Option ℤ → Exec Db (Unit {0})
check_workspace_limit env ws key increment current_count db = elim (get_plan_limit ws key db) [
  | none ↦ (ok tt, db)
  | some limit ↦ elim (usage_or_current env ws key current_count db) [
    | none ↦ (ok tt, db)
    | some count ↦ within_limit ws key limit count increment db
  ]
]
