-- ===== src/Billing/Usage/Meter.antt =====
-- Usage is metered once per key, and the totals of a period account for every event of it.
use moment_flow.Common.{
  ℕ, suc, ◌+◌, ℤ, pos, ◌+ℤ◌, int_laws, ◌≡◌, refl, ◌∙◌, inl, inr, Bool, true, false, Option, none,
  some, List, [], ◌∷◌, ◌++◌, arith, Text, is_blank, text_eq_refl, select, length, if◌then◌else◌,
  Bool-cases, Option-cases, zero,
}
use moment_flow.Store.{Env, Db}
use moment_flow.Store.Billing.{UsageEvent, EventType}
use moment_flow.Store.Log.{Metadata}
use moment_flow.Store.Exec.{ok}
use moment_flow.Billing.Usage.{
  UsageArgs, UsageRow, event_value, same_event, of_type, in_period, period_or_current, find_event,
  existing_event, create_event, new_event, or_first_event, is_empty, creation_key,
  record_usage_event, record_creation_usage, sum_quantity, sum_cost, usage_group, usage_groups,
  event_types, get_period_usage, count_usage_this_period,
}

abbrev pub push_event : UsageEvent → Db → Db
push_event e db = record db { drawn = suc db.drawn; usage_events = e ∷ db.usage_events }

module _ (env : Env) (ws : ℕ) (ty : EventType) (a : UsageArgs) (db : Db) where
  create-unspent :
      existing_event ws a.idempotency_key db ≡ none
      → create_event (new_event env ws ty a db) db
        ≡ (ok (new_event env ws ty a db), push_event (new_event env ws ty a db) db)
  unfolding existing_event create_event
  create-unspent h = ground arith

  -- An event whose key is blank or not spent is written.
  pub record_usage_event-new :
      existing_event ws a.idempotency_key db ≡ none
      → record_usage_event env ws ty a db
        ≡ (ok (new_event env ws ty a db, true), push_event (new_event env ws ty a db) db)
  unfolding record_usage_event or_first_event
  record_usage_event-new h = rw (h, record_usage_event) (rw (create-unspent h, or_first_event))

  pub record_usage_event-spent :
      (e : UsageEvent)
      → existing_event ws a.idempotency_key db ≡ some e
      → record_usage_event env ws ty a db ≡ (ok (e, false), db)
  unfolding record_usage_event
  record_usage_event-spent e h = rw (h, record_usage_event)

  existing_event-push :
      is_blank a.idempotency_key ≡ false
      → existing_event ws a.idempotency_key (push_event (new_event env ws ty a db) db)
        ≡ some (new_event env ws ty a db)
  unfolding existing_event find_event
  existing_event-push key = ground (arith, text_eq_refl a.idempotency_key)

  -- The call always returns, and it leaves its key spent by the event that it returns.
  record_usage_event-spends :
      is_blank a.idempotency_key ≡ false
      → (e : UsageEvent) × (created : Bool) × ((record_usage_event env ws ty a db).0
          ≡ ok (e, created))
        × (existing_event ws a.idempotency_key (record_usage_event env ws ty a db).1 ≡ some e)
  record_usage_event-spends key = elim (Option-cases (existing_event ws a.idempotency_key db)) [
    | inl h ↦ (
      new_event env ws ty a db,
      true,
      rw (record_usage_event-new h),
      rw (record_usage_event-new h) (existing_event-push key),
    )
    | inr (e, h) ↦
        (e, false, rw (record_usage_event-spent e h), rw (record_usage_event-spent e h) h)
  ]

-- Recording usage under a key that is not blank always returns an event, and recording again under
-- that key, whatever the event type, quantity and period, returns the same event with `created`
-- false and writes nothing.
pub record_usage_event_retry :
    (env env' : Env) (ws : ℕ) (ty ty' : EventType) (a a' : UsageArgs) (db : Db)
    → is_blank a.idempotency_key ≡ false
    → a'.idempotency_key ≡ a.idempotency_key
    → let (r, db') = record_usage_event env ws ty a db in
      (e : UsageEvent) × (created : Bool) × (r ≡ ok (e, created))
      × (record_usage_event env' ws ty' a' db' ≡ (ok (e, false), db'))
record_usage_event_retry env env' ws ty ty' a a' db key same =
    let (e, created, returned, spent) = record_usage_event-spends env ws ty a db key in
    (
      e,
      created,
      returned,
      record_usage_event-spent env' ws ty' a' (record_usage_event env ws ty a db).1 e
          (rw same spent),
    )

-- The current count of the event type goes up by one for a new event.
count-push :
    (env : Env) (ws : ℕ) (ty : EventType) (e : UsageEvent) (db : Db)
    → e.workspace ≡ ws
    → e.event_type ≡ ty
    → e.billing_period ≡ env.current_billing_period
    → count_usage_this_period env ws ty (push_event e db) ≡ count_usage_this_period env ws ty db + 1
unfolding count_usage_this_period
count-push env ws ty e db w t p = ground (arith, text_eq_refl env.current_billing_period)

event_value-pos : (ty : EventType) (t : Text) → is_blank (event_value ty ++ t) ≡ false
event_value-pos EventType.artist_created t = refl
event_value-pos _ t = refl

abbrev creation_args : Env → EventType → Text → ℕ → Metadata → UsageArgs
creation_args env ty entity_type entity metadata = record {
  quantity = pos 10000;
  unit = [];
  related_entity_type = entity_type;
  related_entity_id = env.uuid_text entity;
  cost_units = pos 0;
  billing_period = none;
  idempotency_key = creation_key env ty entity;
  metadata = metadata;
}

module _ (env : Env) (ws : ℕ) (ty : EventType) (entity_type : Text) (entity : ℕ)
    (metadata : Metadata) where
  -- The first creation of an entity is metered, as one event of the current period.
  pub record_creation_usage-count :
      (db : Db)
      → existing_event ws (creation_key env ty entity) db ≡ none
      → count_usage_this_period env ws ty
          (record_creation_usage env ws ty entity_type entity metadata db).1
        ≡ count_usage_this_period env ws ty db + 1
  unfolding record_creation_usage
  record_creation_usage-count db h =
      rw (record_usage_event-new env ws ty (creation_args env ty entity_type entity metadata) db h)
        (count-push env ws ty
          (new_event env ws ty (creation_args env ty entity_type entity metadata) db) db refl refl
          refl)

-- The sum of the rows' quantities over some event types.
abbrev pub total_rows : List UsageRow → ℤ
total_rows [] = pos 0
total_rows (r ∷ rs) = r.total_quantity +ℤ total_rows rs

abbrev pub count_rows : List UsageRow → ℕ
count_rows [] = 0
count_rows (r ∷ rs) = r.events + count_rows rs

-- How many of the types are the type.
occurrences : EventType → List EventType → ℕ
occurrences ty [] = 0
occurrences ty (t ∷ ts) = if same_event ty t then suc (occurrences ty ts) else occurrences ty ts

times : ℕ → ℤ → ℤ
times zero q = pos 0
times (suc n) q = times n q +ℤ q

group-select :
    (t : EventType) (rows : List UsageEvent) (rest : List UsageRow)
    → let group : List UsageRow =
        if is_empty rows
        then []
        else record {
          event_type = t;
          total_quantity = sum_quantity rows;
          total_cost = sum_cost rows;
          events = length rows;
        }
          ∷ [] in
      (total_rows (group ++ rest) ≡ sum_quantity rows +ℤ total_rows rest)
      × (count_rows (group ++ rest) ≡ length rows + count_rows rest)
unfolding sum_quantity
group-select t [] rest = (omega int_laws, omega arith)
group-select t (r ∷ rs) rest = (refl, refl)

group-rows :
    (t : EventType) (es : List UsageEvent) (rest : List UsageRow)
    → (total_rows (usage_group es t ++ rest)
        ≡ sum_quantity (select (of_type t) es) +ℤ total_rows rest)
      × (count_rows (usage_group es t ++ rest) ≡ length (select (of_type t) es) + count_rows rest)
unfolding usage_group
group-rows t es rest = group-select t (select (of_type t) es) rest

-- Each group grows by the event if it is of the group's type.
groups-cons :
    (tys : List EventType) (e : UsageEvent) (es : List UsageEvent)
    → (total_rows (usage_groups tys (e ∷ es))
        ≡ total_rows (usage_groups tys es) +ℤ times (occurrences e.event_type tys) e.quantity)
      × (count_rows (usage_groups tys (e ∷ es))
          ≡ count_rows (usage_groups tys es) + occurrences e.event_type tys)
unfolding usage_groups occurrences times sum_quantity
groups-cons [] e es = (omega int_laws, omega arith)
groups-cons (t ∷ ts) e es =
    let ih = groups-cons ts e es in
    let before = group-rows t es (usage_groups ts es) in
    let after = group-rows t (e ∷ es) (usage_groups ts (e ∷ es)) in
    elim (Bool-cases (same_event e.event_type t)) [
      | inl same ↦
          (grind (int_laws, ih.0, before.0, after.0), grind (arith, ih.1, before.1, after.1))
      | inr other ↦
          (grind (int_laws, ih.0, before.0, after.0), grind (arith, ih.1, before.1, after.1))
    ]

-- Every event type is one of the groups, once.
occurrences-event_types : (ty : EventType) → occurrences ty event_types ≡ 1
unfolding occurrences
occurrences-event_types EventType.artist_created = refl
occurrences-event_types _ = refl

groups-total :
    (es : List UsageEvent)
    → (total_rows (usage_groups event_types es) ≡ sum_quantity es)
      × (count_rows (usage_groups event_types es) ≡ length es)
unfolding usage_groups usage_group sum_quantity times
groups-total [] = (refl, refl)
groups-total (e ∷ es) =
    let step = groups-cons event_types e es in
    let ih = groups-total es in
    let once = occurrences-event_types e.event_type in
    (step.0 ∙ rw (once, ih.0) (omega int_laws), step.1 ∙ rw (once, ih.1) (omega arith))

-- The rows of a period's usage account for the workspace's events of that period exactly: their
-- quantities add up to the events' quantities, and their counts to the number of events.
pub get_period_usage_total :
    (env : Env) (ws : ℕ) (period : Option Text) (db : Db)
    → let events = select (in_period ws (period_or_current env period)) db.usage_events in
      (total_rows (get_period_usage env ws period db) ≡ sum_quantity events)
      × (count_rows (get_period_usage env ws period db) ≡ length events)
unfolding get_period_usage
get_period_usage_total env ws period db =
    groups-total (select (in_period ws (period_or_current env period)) db.usage_events)
