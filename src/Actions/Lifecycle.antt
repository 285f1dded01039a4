-- ===== src/Actions/Lifecycle.antt =====
-- One transition: when it is refused, and what the row holds afterwards.
use moment_flow.Common.{
  ℕ, ◌≡◌, Bool, true, false, ◌&&◌, ◌||◌, not, Option, none, some, Text, is_blank, strip, is_some,
  arith, inl, inr, Option-cases,
}
use moment_flow.Store.{Env, Db}
use moment_flow.Store.Actions.{ActionStatus, CampaignAction}
use moment_flow.Store.Exec.{Error, ok, err}
use moment_flow.Actions.{
  is_allowed, same_status, is_dismissed, validate_target, validate_status_transition, reason_or,
  with_status, transitioned, find_action, save_action, apply_transition, transition_campaign_action,
}

-- The timestamps and the reason agree with the status.
pub record IsConsistent (a : CampaignAction) : Type 0 where
  pub completed : is_some a.completed_at ≡ same_status a.status ActionStatus.completed
  pub cancelled : is_some a.cancelled_at ≡ same_status a.status ActionStatus.cancelled
  pub dismissed : not (is_blank a.dismiss_reason) ≡ same_status a.status ActionStatus.dismissed

-- The statuses that no transition leaves.
abbrev pub is_final : ActionStatus → Bool
is_final ActionStatus.pending = false
is_final ActionStatus.in_progress = false
is_final _ = true

saved-IsConsistent :
    (env : Env) (target : ActionStatus) (actor : Option ℕ) (normalized : Text) (a : CampaignAction)
    → (is_dismissed target && is_blank (strip (reason_or normalized a.dismiss_reason))) ≡ false
    → IsConsistent (transitioned env target actor normalized a)
unfolding with_status
saved-IsConsistent env ActionStatus.dismissed actor normalized a h = ground arith
saved-IsConsistent env _ actor normalized a h = ground arith

pub id-transitioned :
    (env : Env) (target : ActionStatus) (actor : Option ℕ) (normalized : Text) (a : CampaignAction)
    → (transitioned env target actor normalized a).id ≡ a.id
unfolding with_status
id-transitioned env ActionStatus.completed actor normalized a = ground arith
id-transitioned env _ actor normalized a = ground arith

pub status-transitioned :
    (env : Env) (target : ActionStatus) (actor : Option ℕ) (normalized : Text) (a : CampaignAction)
    → (transitioned env target actor normalized a).status ≡ target
unfolding with_status
status-transitioned env ActionStatus.completed actor normalized a = ground arith
status-transitioned env _ actor normalized a = ground arith

-- What a transition that returned the row `saved` has done.
pub record IsDone (env : Env) (id : ℕ) (target : ActionStatus) (actor : Option ℕ) (reason : Text)
    (db db' : Db) (saved : CampaignAction) : Type 0 where
  pub before : CampaignAction
  pub found : find_action id db ≡ some before
  pub allowed : (same_status target before.status || is_allowed before.status target) ≡ true
  pub row : saved ≡ transitioned env target actor (strip reason) before
  pub kept : db' ≡ save_action saved db
  pub consistent : IsConsistent saved

module _ (env : Env) (id : ℕ) (target : ActionStatus) (actor : Option ℕ) (reason : Text)
    (db : Db) where
  transition-found :
      (a : CampaignAction)
      → find_action id db ≡ some a
      → transition_campaign_action env id (some target) actor reason db
        ≡ apply_transition env (some target) actor (strip reason) a db
  unfolding transition_campaign_action
  transition-found a h = ground arith

  applied-IsDone :
      (a saved : CampaignAction)
      → find_action id db ≡ some a
      → let (r, db') = apply_transition env (some target) actor (strip reason) a db in
        r ≡ ok saved → IsDone env id target actor reason db db' saved
  unfolding apply_transition validate_status_transition validate_target
  applied-IsDone a saved h e = record {
    before = a;
    found = h;
    allowed = ground arith;
    row = ground arith;
    kept = ground arith;
    consistent = ground (arith, saved-IsConsistent env target actor (strip reason) a);
  }

  missing :
      (saved : CampaignAction)
      → find_action id db ≡ none
      → (transition_campaign_action env id (some target) actor reason db).0 ≡ ok saved
      → ⊥
  unfolding transition_campaign_action
  missing saved h e = ground arith

  -- A transition that returns has found the action in a status from which the target is allowed, or
  -- in the target itself; it saves the row with the target, and the timestamps and the dismiss reason
  -- agree with it whatever they were before.
  pub transition-IsDone :
      (saved : CampaignAction)
      → let (r, db') = transition_campaign_action env id (some target) actor reason db in
        r ≡ ok saved → IsDone env id target actor reason db db' saved
  transition-IsDone saved e = elim (Option-cases (find_action id db)) [
    | inl h ↦ absurd (missing saved h e)
    | inr (a, h) ↦
        rw (transition-found a h) (applied-IsDone a saved h (rw (transition-found a h) at e))
  ]

  -- A transition that raises changes nothing.
  pub transition_refused :
      (x : Error)
      → (transition_campaign_action env id (some target) actor reason db).0 ≡ err x
      → (transition_campaign_action env id (some target) actor reason db).1 ≡ db
  unfolding transition_campaign_action apply_transition
  transition_refused x e = ground arith

  -- An action that is there goes to a target that is allowed, or is its status already, unless the
  -- target is `dismissed` and neither the call nor the row has a reason.
  pub transition_accepted :
      (a : CampaignAction)
      → find_action id db ≡ some a
      → (same_status target a.status || is_allowed a.status target) ≡ true
      → (is_dismissed target && is_blank (strip (reason_or (strip reason) a.dismiss_reason)))
        ≡ false
      → let saved = transitioned env target actor (strip reason) a in
        transition_campaign_action env id (some target) actor reason db
        ≡ (ok saved, save_action saved db)
  unfolding apply_transition validate_status_transition validate_target
  transition_accepted a h allowed why = rw (transition-found a h) (ground arith)
