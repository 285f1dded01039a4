-- ===== src/Actions.antt =====
-- State transitions of campaign actions (campaign_actions/services.py), and the endpoints of
-- campaign_actions/views.py that make them.
pub mod Lifecycle
pub mod History
pub mod Repeated
use moment_flow.Common.{
  ℕ, ◌==◌, Bool, true, false, ◌&&◌, ◌||◌, not, Option, none, some, List, [], ◌∷◌, Text, str,
  is_blank, text_eq, strip, is_some, find?, update_where, if◌then◌else◌,
}
use moment_flow.Store.{Env, Db}
use moment_flow.Store.Actions.{ActionStatus, CampaignAction}
use moment_flow.Store.Exec.{Error, Result, ok, err, Exec}

-- `ALLOWED_STATUS_TRANSITIONS`
unfoldable pub is_allowed : ActionStatus → ActionStatus → Bool
is_allowed ActionStatus.pending ActionStatus.in_progress = true
is_allowed ActionStatus.pending ActionStatus.completed = true
is_allowed ActionStatus.pending ActionStatus.failed = true
is_allowed ActionStatus.pending ActionStatus.dismissed = true
is_allowed ActionStatus.pending ActionStatus.cancelled = true
is_allowed ActionStatus.in_progress ActionStatus.completed = true
is_allowed ActionStatus.in_progress ActionStatus.failed = true
is_allowed ActionStatus.in_progress ActionStatus.cancelled = true
is_allowed _ _ = false

abbrev pub status_rank : ActionStatus → ℕ
status_rank ActionStatus.pending = 0
status_rank ActionStatus.in_progress = 1
status_rank ActionStatus.completed = 2
status_rank ActionStatus.failed = 3
status_rank ActionStatus.dismissed = 4
status_rank ActionStatus.cancelled = 5

abbrev pub same_status : ActionStatus → ActionStatus → Bool
same_status a b = status_rank a == status_rank b

abbrev pub is_dismissed : ActionStatus → Bool
is_dismissed ActionStatus.dismissed = true
is_dismissed _ = false

-- The checks for a target that is a status.
unfoldable pub validate_target : ActionStatus → ActionStatus → Text → Result (Unit {0})
validate_target current target reason =
    if is_dismissed target && is_blank (strip reason)
    then err (Error.transition_error (str "dismiss_reason"))
    else if same_status target current
    then ok tt
    else if is_allowed current target
    then ok tt
    else err (Error.transition_error (str "status"))

-- A target of `none` is a text that is no status.
unfoldable pub validate_status_transition :
    ActionStatus → Option ActionStatus → Text → Result (Unit {0})
validate_status_transition current none reason = err (Error.transition_error (str "status"))
validate_status_transition current (some target) reason = validate_target current target reason

-- `normalized_reason or locked.dismiss_reason`
abbrev pub reason_or : Text → Text → Text
reason_or normalized old = if is_blank normalized then old else normalized

abbrev pub stamp : Env → Option ℕ → Option ℕ
stamp env none = some env.now
stamp env (some t) = some t

-- The fields that depend on the target.
unfoldable pub with_status : Env → ActionStatus → Text → CampaignAction → CampaignAction
with_status env ActionStatus.completed normalized a = record a {
  status = ActionStatus.completed;
  completed_at = stamp env a.completed_at;
  cancelled_at = none;
  dismiss_reason = [];
}
with_status env ActionStatus.cancelled normalized a = record a {
  status = ActionStatus.cancelled;
  cancelled_at = stamp env a.cancelled_at;
  completed_at = none;
  dismiss_reason = [];
}
with_status env ActionStatus.dismissed normalized a = record a {
  status = ActionStatus.dismissed;
  dismiss_reason = reason_or normalized (strip a.dismiss_reason);
  completed_at = none;
  cancelled_at = none;
}
with_status env target normalized a = record a {
  status = target;
  completed_at = none;
  cancelled_at = none;
  dismiss_reason = [];
}

-- `if actor is not None and locked.updated_by_id != actor.id: locked.updated_by = actor`
abbrev pub with_actor : Option ℕ → CampaignAction → CampaignAction
with_actor none a = a
with_actor (some u) a = record a { updated_by = some u }

-- The row as it is saved; `updated_at` is set by every save.
abbrev pub transitioned : Env → ActionStatus → Option ℕ → Text → CampaignAction → CampaignAction
transitioned env target actor normalized a =
    let saved = with_actor actor (with_status env target normalized a) in
    record saved { updated_at = env.now }

-- `objects.get(pk=…)`
unfoldable pub find_action : ℕ → Db → Option CampaignAction
find_action id db = find? (λ a. a.id == id) db.campaign_actions

-- The target has been validated: the row is rewritten.
abbrev pub save_action : CampaignAction → Db → Db
save_action a db = record db {
  campaign_actions = update_where (λ r. r.id == a.id) (λ _. a) db.campaign_actions;
}

unfoldable pub apply_transition :
    Env → Option ActionStatus → Option ℕ → Text → CampaignAction → Exec Db CampaignAction
apply_transition env none actor normalized a db = (err (Error.transition_error (str "status")), db)
apply_transition env (some target) actor normalized a db =
    elim (validate_status_transition a.status (some target)
      (reason_or normalized a.dismiss_reason)) [
        | err e ↦ (err e, db)
        | ok u ↦
            let saved = transitioned env target actor normalized a in
            (ok saved, save_action saved db)
      ]

unfoldable pub transition_campaign_action :
    Env → ℕ → Option ActionStatus → Option ℕ → Text → Exec Db CampaignAction
transition_campaign_action env id target actor dismiss_reason db = elim (find_action id db) [
  | none ↦ (err Error.does_not_exist, db)
  | some a ↦ apply_transition env target actor (strip dismiss_reason) a db
]

-- `_transition` of the view: the action is looked up in the active workspace, and a refused
-- transition is a validation error at its field.
unfoldable pub as_validation_error : Result CampaignAction × Db → Result CampaignAction × Db
as_validation_error (err (Error.transition_error field), db) =
    (err (Error.validation_error field), db)
as_validation_error (r, db) = (r, db)

unfoldable pub view_transition : Env → ℕ → ℕ → ActionStatus → ℕ → Text → Exec Db CampaignAction
view_transition env ws id target user dismiss_reason db =
    elim (find? (λ a. a.id == id && a.workspace == ws) db.campaign_actions) [
      | none ↦ (err Error.not_found, db)
      | some a ↦
          as_validation_error
            (transition_campaign_action env id (some target) (some user) dismiss_reason db)
    ]

unfoldable pub mark_reviewed : Env → ℕ → ℕ → ℕ → Exec Db CampaignAction
mark_reviewed env ws id user = view_transition env ws id ActionStatus.completed user []

-- The serializer trims the reason and refuses a blank one.
unfoldable pub dismiss : Env → ℕ → ℕ → ℕ → Text → Exec Db CampaignAction
dismiss env ws id user reason db =
    if is_blank (strip reason)
    then (err (Error.validation_error (str "dismiss_reason")), db)
    else view_transition env ws id ActionStatus.dismissed user (strip reason) db

unfoldable pub cancel : Env → ℕ → ℕ → ℕ → Exec Db CampaignAction
cancel env ws id user = view_transition env ws id ActionStatus.cancelled user []

unfoldable pub complete : Env → ℕ → ℕ → ℕ → Exec Db CampaignAction
complete env ws id user = view_transition env ws id ActionStatus.completed user []
