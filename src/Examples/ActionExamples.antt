-- ===== src/Examples/ActionExamples.antt =====
-- Transitions of a campaign action on concrete requests.
use moment_flow.Common.{
  ◌≤◌, ◌≡◌, refl, ap, none, some, List, [], ◌∷◌, str, strip, lstrip, rstrip, is_space,
}
use moment_flow.Store.Actions.{ActionStatus, CampaignAction}
use moment_flow.Store.Exec.{Error, ok, err}
use moment_flow.Actions.{
  with_status, validate_target, validate_status_transition, is_allowed, find_action, transitioned,
  save_action, apply_transition, transition_campaign_action, dismiss,
}
use moment_flow.Actions.Lifecycle.{IsDone, transition-IsDone}
use moment_flow.Actions.Repeated.{transition_repeated}
use moment_flow.Actions.History.{Request, changes_left, count_changes, count_changes_le}
use moment_flow.Examples.Data.{env, action, action_db}

abbrev completed : CampaignAction
completed = transitioned env ActionStatus.completed (some 9) [] action

completes :
    transition_campaign_action env 3 (some ActionStatus.completed) (some 9) [] action_db
    ≡ (ok completed, save_action completed action_db)
unfolding transition_campaign_action apply_transition validate_status_transition validate_target
    is_allowed find_action with_status strip lstrip rstrip
completes = refl

-- A dismissal with a blank reason is refused by the serializer.
dismiss_blank :
    (dismiss env 7 3 9 (str "  ") action_db).0 ≡ err (Error.validation_error (str "dismiss_reason"))
unfolding dismiss strip lstrip rstrip is_space
dismiss_blank = refl

transition-IsDone_example :
    IsDone env 3 ActionStatus.completed
      (some 9)
      []
      action_db
      (transition_campaign_action env 3 (some ActionStatus.completed) (some 9) [] action_db).1
      completed
transition-IsDone_example =
    transition-IsDone env 3 ActionStatus.completed (some 9) [] action_db completed
      (ap (λ r. r.0) completes)

-- Completed again, by someone else.
transition_repeated_example :
    let (r, db') =
      transition_campaign_action env 3 (some ActionStatus.completed) (some 9) [] action_db in
    (again : CampaignAction) × ((transition_campaign_action env 3
        (some ActionStatus.completed)
        none
        []
        db').0
      ≡ ok again)
    × (again.status ≡ ActionStatus.completed)
    × (again.completed_at ≡ completed.completed_at)
    × (again.cancelled_at ≡ completed.cancelled_at)
transition_repeated_example =
    transition_repeated env env 3 ActionStatus.completed (some 9) none [] [] action_db completed
      (ap (λ r. r.0) completes)

abbrev requests : List Request
requests =
    record { env = env; id = 3; target = ActionStatus.in_progress; actor = none; reason = [] }
    ∷ record { env = env; id = 3; target = ActionStatus.failed; actor = none; reason = [] }
    ∷ record { env = env; id = 3; target = ActionStatus.pending; actor = none; reason = [] }
    ∷ []

count_changes_le_example : count_changes 3 requests action_db ≤ changes_left ActionStatus.pending
unfolding find_action
count_changes_le_example = count_changes_le requests 3 action action_db refl
