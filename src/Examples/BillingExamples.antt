-- ===== src/Examples/BillingExamples.antt =====
-- Usage, plans and quotas on concrete tables.
use moment_flow.Common.{pos, ◌≡◌, ◌≢◌, ◌↔◌, refl, false, Bool, none, [], str, text_eq}
use moment_flow.Store.{Db}
use moment_flow.Store.Billing.{UsageEvent, EventType}
use moment_flow.Store.Exec.{ok}
use moment_flow.Billing.Usage.{
  existing_event, find_event, create_event, or_first_event, record_usage_event,
  record_creation_usage, count_usage_this_period,
}
use moment_flow.Billing.Usage.Meter.{record_usage_event_retry}
use moment_flow.Billing.Plans.{check_workspace_limit}
use moment_flow.Billing.Plans.Quota.{IsOver, check_workspace_limit_iff}
use moment_flow.Examples.Data.{env, empty_db, usage_keyed, plan_db}

record_usage_event_retry_example :
    let (r, db) =
      record_usage_event env 7 EventType.report_generated (usage_keyed (str "k")) empty_db in
    (e : UsageEvent) × (created : Bool) × (r ≡ ok (e, created))
    × (record_usage_event env 7 EventType.track_created (usage_keyed (str "k")) db
        ≡ (ok (e, false), db))
record_usage_event_retry_example =
    record_usage_event_retry env env 7 EventType.report_generated EventType.track_created
      (usage_keyed (str "k")) (usage_keyed (str "k")) empty_db refl refl

-- Two requests of content packs by workspace 7, one by workspace 8.
abbrev used_db : Db
used_db =
    (record_creation_usage env 8 EventType.content_pack_requested (str "r") 1 []
      (record_creation_usage env 7 EventType.content_pack_requested (str "r") 2 []
        (record_creation_usage env 7 EventType.content_pack_requested (str "r") 3 []
          plan_db).1).1).1

used_count : count_usage_this_period env 7 EventType.content_pack_requested used_db ≡ 2
unfolding count_usage_this_period record_creation_usage record_usage_event existing_event find_event
    create_event or_first_event text_eq
used_count = refl

check_workspace_limit_iff_example :
    let (r, db) =
      check_workspace_limit env 7 (str "content_packs_per_month") (pos 1) none used_db in
    ((r ≢ ok tt) ↔ IsOver env 7 (str "content_packs_per_month") (pos 1) none used_db)
    × (db ≡ used_db)
check_workspace_limit_iff_example =
    check_workspace_limit_iff env 7 (str "content_packs_per_month") (pos 1) none used_db
