-- ===== src/Store/Log.antt =====
-- Rows of the audit trail and of the notifications (audit/models.py, notifications/models.py), and
-- JSON metadata as an association list.
use moment_flow.Common.{ℕ, ℤ, Bool, Option, none, some, List, [], ◌∷◌, Text, text_eq, if◌then◌else◌}

-- `decimal` stands for `str(d)` of a decimal `d`.
pub data MetaValue : Type 0 where
  text : Text → MetaValue
  decimal : ℤ → MetaValue
  number : ℕ → MetaValue
  flag : Bool → MetaValue

abbrev pub Metadata : Type 0
Metadata = List (Text × MetaValue)

-- `d.get(k)`
unfoldable pub get : Text → Metadata → Option MetaValue
get k [] = none
get k ((j, v) ∷ d) = if text_eq j k then some v else get k d

-- `d[k] = v`
unfoldable pub put : Text → MetaValue → Metadata → Metadata
put k v [] = (k, v) ∷ []
put k v ((j, w) ∷ d) = if text_eq j k then (j, v) ∷ d else (j, w) ∷ put k v d

-- `d.setdefault(k, v)`
unfoldable pub set_default : Text → MetaValue → Metadata → Metadata
unfolding get put
set_default k v d = elim (get k d) [ some w ↦ d | none ↦ put k v d ]

-- `{**d, **e}`, `d.update(e)`
unfoldable pub merge : Metadata → Metadata → Metadata
merge d [] = d
merge d ((k, v) ∷ e) = merge (put k v d) e

pub data ActorType : Type 0 where
  user system admin api_key worker : ActorType

pub record AuditEvent : Type 0 where
  pub id : ℕ
  pub action : Text
  pub workspace : Option ℕ
  pub actor_user : Option ℕ
  pub actor_type : ActorType
  pub entity_type : Text
  pub entity_id : Text
  pub before_data : Metadata
  pub after_data : Metadata

pub data NotificationType : Type 0 where
  moment_detected report_ready media_kit_ready content_ready campaign_update member_added
        billing_alert quota_alert system other :
      NotificationType

pub data NotificationStatus : Type 0 where
  unread read dismissed archived : NotificationStatus

pub record Notification : Type 0 where
  pub id : ℕ
  pub workspace : ℕ
  pub user : Option ℕ
  pub notification_type : NotificationType
  pub title : Text
  pub message : Text
  pub related_entity_type : Text
  pub related_entity_id : Text
  pub status : NotificationStatus
  pub read_at : Option ℕ
  pub metadata : Metadata
