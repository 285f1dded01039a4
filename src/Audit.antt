-- ===== src/Audit.antt =====
-- record_audit_event of audit/services.py and create_notification of notifications/services.py. The
-- callers that are modelled pass no request, so no hashes.
use moment_flow.Common.{ℕ, suc, Option, none, some, ◌∷◌, Text}
use moment_flow.Store.{Db}
use moment_flow.Store.Exec.{Exec, ok}
use moment_flow.Store.Log.{
  Metadata, ActorType, AuditEvent, Notification, NotificationType, NotificationStatus,
}

-- The keyword arguments of `record_audit_event`.
pub record AuditArgs : Type 0 where
  pub action : Text
  pub workspace : Option ℕ
  pub actor_user : Option ℕ
  pub actor_type : Option ActorType
  pub entity_type : Text
  pub entity_id : Text
  pub before_data : Metadata
  pub after_data : Metadata

-- `actor_type` defaults to `user` when there is an `actor_user`, otherwise `system`.
unfoldable pub actor_type_of : Option ActorType → Option ℕ → ActorType
actor_type_of (some t) u = t
actor_type_of none (some u) = ActorType.user
actor_type_of none none = ActorType.system

unfoldable pub record_audit_event : AuditArgs → Exec Db AuditEvent
record_audit_event a db =
    let event : AuditEvent = record {
      id = db.drawn;
      action = a.action;
      workspace = a.workspace;
      actor_user = a.actor_user;
      actor_type = actor_type_of a.actor_type a.actor_user;
      entity_type = a.entity_type;
      entity_id = a.entity_id;
      before_data = a.before_data;
      after_data = a.after_data;
    } in
    (ok event, record db { drawn = suc db.drawn; audit_events = event ∷ db.audit_events })

-- The keyword arguments of `create_notification`.
pub record NotificationArgs : Type 0 where
  pub workspace : ℕ
  pub user : Option ℕ
  pub notification_type : NotificationType
  pub title : Text
  pub message : Text
  pub related_entity_type : Text
  pub related_entity_id : Text
  pub metadata : Metadata

unfoldable pub create_notification : NotificationArgs → Exec Db Notification
create_notification a db =
    let row : Notification = record {
      id = db.drawn;
      workspace = a.workspace;
      user = a.user;
      notification_type = a.notification_type;
      title = a.title;
      message = a.message;
      related_entity_type = a.related_entity_type;
      related_entity_id = a.related_entity_id;
      status = NotificationStatus.unread;
      read_at = none;
      metadata = a.metadata;
    } in
    (ok row, record db { drawn = suc db.drawn; notifications = row ∷ db.notifications })
