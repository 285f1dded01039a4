-- ===== src/Notify.antt =====
-- `_notify_once` of reports/callbacks.py, which content/callbacks.py has too for its requests.
use moment_flow.Common.{
  ℕ, ◌==◌, Bool, false, ◌&&◌, Option, some, none, [], ◌∷◌, Text, str, text_eq, find?,
}
use moment_flow.Store.{Db}
use moment_flow.Store.Exec.{ok, Exec}
use moment_flow.Store.Log.{MetaValue, Metadata, Notification, NotificationType, get}
use moment_flow.Audit.{create_notification}

-- `meta.get(key) == value`
abbrev pub has_text : Text → Text → Metadata → Bool
has_text key value meta = elim (get key meta) [
  | some (MetaValue.text t) ↦ text_eq t value
  | _ ↦ false
]

-- A notification of the entity with this event.
abbrev pub is_notified : ℕ → Text → Text → Text → Notification → Bool
is_notified ws entity_type entity_id event n =
    n.workspace == ws
    && text_eq n.related_entity_type entity_type
    && text_eq n.related_entity_id entity_id
    && has_text (str "event") event n.metadata

unfoldable pub notify_once :
    ℕ → Text → Text → Option ℕ → Text → NotificationType → Text → Text → Exec Db Notification
notify_once ws entity_type entity_id user event ty title message db =
    elim (find? (is_notified ws entity_type entity_id event) db.notifications) [
      | some n ↦ (ok n, db)
      | none ↦
          create_notification
            (record {
              workspace = ws;
              user = user;
              notification_type = ty;
              title = title;
              message = message;
              related_entity_type = entity_type;
              related_entity_id = entity_id;
              metadata = (str "event", MetaValue.text event) ∷ [];
            })
            db
    ]
