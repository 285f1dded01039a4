-- ===== src/Billing/Usage.antt =====
-- Usage events of billing/services.py: an append-only meter, idempotent on workspace and key, and
-- its totals by period.
pub mod Meter
use moment_flow.Common.{
  ℕ, suc, ℤ, pos, ◌+ℤ◌, ◌==◌, Bool, true, false, ◌&&◌, not, Option, none, some, List, [], ◌∷◌, ◌++◌,
  Text, str, is_blank, text_eq, is_some, find?, select, length, get_or_default, if◌then◌else◌,
}
use moment_flow.Store.{Env, Db}
use moment_flow.Store.Billing.{UsageEvent, EventType}
use moment_flow.Store.Log.{Metadata}
use moment_flow.Store.Exec.{Error, Result, ok, err, Exec}

-- The keyword arguments of `record_usage_event` after the workspace and the event type.
pub record UsageArgs : Type 0 where
  pub quantity : ℤ
  pub unit : Text
  pub related_entity_type : Text
  pub related_entity_id : Text
  pub cost_units : ℤ
  pub billing_period : Option Text
  pub idempotency_key : Text
  pub metadata : Metadata

-- `UsageEvent.EventType` values
abbrev pub event_value : EventType → Text
event_value EventType.artist_created = str "artist_created"
event_value EventType.track_created = str "track_created"
event_value EventType.track_monitored = str "track_monitored"
event_value EventType.campaign_created = str "campaign_created"
event_value EventType.content_pack_requested = str "content_pack_requested"
event_value EventType.content_pack_generated = str "content_pack_generated"
event_value EventType.content_output_created = str "content_output_created"
event_value EventType.smart_link_created = str "smart_link_created"
event_value EventType.smart_link_clicked = str "smart_link_clicked"
event_value EventType.report_generated = str "report_generated"
event_value EventType.media_kit_generated = str "media_kit_generated"

-- The position of an event type in the order of the values.
abbrev pub event_rank : EventType → ℕ
event_rank EventType.artist_created = 0
event_rank EventType.campaign_created = 1
event_rank EventType.content_output_created = 2
event_rank EventType.content_pack_generated = 3
event_rank EventType.content_pack_requested = 4
event_rank EventType.media_kit_generated = 5
event_rank EventType.report_generated = 6
event_rank EventType.smart_link_clicked = 7
event_rank EventType.smart_link_created = 8
event_rank EventType.track_created = 9
event_rank EventType.track_monitored = 10

abbrev pub same_event : EventType → EventType → Bool
same_event a b = event_rank a == event_rank b

abbrev pub is_empty {ℓ} : {A : Type ℓ} → List A → Bool
is_empty [] = true
is_empty (x ∷ xs) = false

abbrev pub has_usage_key : ℕ → Text → UsageEvent → Bool
has_usage_key ws key e = e.workspace == ws && text_eq e.idempotency_key key

-- `UsageEvent.objects.filter(workspace=…, idempotency_key=…).first()`
unfoldable pub find_event : ℕ → Text → List UsageEvent → Option UsageEvent
find_event ws key = find? (has_usage_key ws key)

-- `if idempotency_key: existing = …`
unfoldable pub existing_event : ℕ → Text → Db → Option UsageEvent
existing_event ws key db = if is_blank key then none else find_event ws key db.usage_events

-- `UsageEvent.objects.create(…)` with the unique constraint on workspace and key
unfoldable pub create_event : UsageEvent → Exec Db UsageEvent
create_event e db =
    if not (is_blank e.idempotency_key)
      && is_some (find_event e.workspace e.idempotency_key db.usage_events)
    then (err Error.integrity_error, db)
    else (ok e, record db { drawn = suc db.drawn; usage_events = e ∷ db.usage_events })

-- `billing_period or current_billing_period()`
abbrev pub period_or_current : Env → Option Text → Text
period_or_current env none = env.current_billing_period
period_or_current env (some p) = if is_blank p then env.current_billing_period else p

abbrev pub new_event : Env → ℕ → EventType → UsageArgs → Db → UsageEvent
new_event env ws ty a db = record {
  id = db.drawn;
  workspace = ws;
  event_type = ty;
  quantity = a.quantity;
  unit = a.unit;
  related_entity_type = a.related_entity_type;
  related_entity_id = a.related_entity_id;
  cost_units = a.cost_units;
  billing_period = period_or_current env a.billing_period;
  idempotency_key = a.idempotency_key;
  metadata = a.metadata;
}

-- The `except IntegrityError` of `record_usage_event`.
unfoldable pub or_first_event : ℕ → Text → Result UsageEvent × Db → Result (UsageEvent × Bool) × Db
or_first_event ws key (ok e, db) = (ok (e, true), db)
or_first_event ws key (err Error.integrity_error, db) = elim (find_event ws key db.usage_events) [
  | some e ↦ (ok (e, false), db)
  | none ↦ (err Error.integrity_error, db)
]
or_first_event ws key (err x, db) = (err x, db)

unfoldable pub record_usage_event : Env → ℕ → EventType → UsageArgs → Exec Db (UsageEvent × Bool)
record_usage_event env ws ty a db = elim (existing_event ws a.idempotency_key db) [
  | some e ↦ (ok (e, false), db)
  | none ↦ or_first_event ws a.idempotency_key (create_event (new_event env ws ty a db) db)
]

-- `f"{event_type}:{entity_id}"`
abbrev pub creation_key : Env → EventType → ℕ → Text
creation_key env ty entity = event_value ty ++ (b':' ∷ env.uuid_text entity)

unfoldable pub record_creation_usage :
    Env → ℕ → EventType → Text → ℕ → Metadata → Exec Db (UsageEvent × Bool)
record_creation_usage env ws ty entity_type entity metadata = record_usage_event env ws ty (record {
  quantity = pos 10000;
  unit = [];
  related_entity_type = entity_type;
  related_entity_id = env.uuid_text entity;
  cost_units = pos 0;
  billing_period = none;
  idempotency_key = creation_key env ty entity;
  metadata = metadata;
})

pub record UsageRow : Type 0 where
  pub event_type : EventType
  pub total_quantity : ℤ
  pub total_cost : ℤ
  pub events : ℕ

abbrev pub in_period : ℕ → Text → UsageEvent → Bool
in_period ws period e = e.workspace == ws && text_eq e.billing_period period

abbrev pub of_type : EventType → UsageEvent → Bool
of_type ty e = same_event e.event_type ty

unfoldable pub sum_quantity : List UsageEvent → ℤ
sum_quantity [] = pos 0
sum_quantity (e ∷ es) = sum_quantity es +ℤ e.quantity

unfoldable pub sum_cost : List UsageEvent → ℤ
sum_cost [] = pos 0
sum_cost (e ∷ es) = sum_cost es +ℤ e.cost_units

-- The group of one event type, absent where it has no events.
unfoldable pub usage_group : List UsageEvent → EventType → List UsageRow
usage_group events ty =
    let rows = select (of_type ty) events in
    if is_empty rows
    then []
    else record {
      event_type = ty;
      total_quantity = sum_quantity rows;
      total_cost = sum_cost rows;
      events = length rows;
    }
      ∷ []

-- `.values("event_type")` in the order of `order_by("event_type")`
abbrev pub event_types : List EventType
event_types =
    EventType.artist_created ∷ EventType.campaign_created ∷ EventType.content_output_created
    ∷ EventType.content_pack_generated ∷ EventType.content_pack_requested
    ∷ EventType.media_kit_generated ∷ EventType.report_generated ∷ EventType.smart_link_clicked
    ∷ EventType.smart_link_created ∷ EventType.track_created ∷ EventType.track_monitored ∷ []

unfoldable pub usage_groups : List EventType → List UsageEvent → List UsageRow
usage_groups [] events = []
usage_groups (ty ∷ tys) events = usage_group events ty ++ usage_groups tys events

unfoldable pub get_period_usage : Env → ℕ → Option Text → Db → List UsageRow
get_period_usage env ws period db =
    usage_groups event_types (select (in_period ws (period_or_current env period)) db.usage_events)

-- `filter(workspace=…, event_type=…, billing_period=current).count()`
unfoldable pub count_usage_this_period : Env → ℕ → EventType → Db → ℕ
count_usage_this_period env ws ty db =
    length (select (λ e. of_type ty e && in_period ws env.current_billing_period e) db.usage_events)
