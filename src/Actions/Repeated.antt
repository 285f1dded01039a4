-- ===== src/Actions/Repeated.antt =====
-- A transition that is asked for again.
use mathlib.Core.Path.{subst}
use moment_flow.Common.{
  ℕ, ◌==◌, ==_refl, ◌≡◌, refl, sym, ap, ◌∙◌, Bool, true, false, ◌&&◌, ◌||◌, Option, some, [], ◌∷◌,
  Text, is_blank, is_space, lstrip, rstrip, strip, is_some, if◌then◌else◌, arith,
}
use moment_flow.Store.{Env, Db}
use moment_flow.Store.Actions.{ActionStatus, CampaignAction}
use moment_flow.Store.Exec.{ok}
use moment_flow.Actions.{
  same_status, is_dismissed, reason_or, with_status, transitioned, find_action, status_rank,
  save_action, transition_campaign_action, is_allowed,
}
use moment_flow.Actions.Lifecycle.{
  IsConsistent, id-transitioned, status-transitioned, transition-IsDone, transition_accepted,
}
use moment_flow.Actions.History.{find_action-id, find_action-save}

abbrev is_spaces : Text → Bool
is_spaces [] = true
is_spaces (c ∷ s) = is_space c && is_spaces s

blank-rstrip : (s : Text) → is_blank (rstrip s) ≡ is_spaces s
unfolding rstrip
blank-rstrip [] = refl
blank-rstrip (c ∷ s) = ground (arith, blank-rstrip s)

spaces-lstrip : (s : Text) → is_spaces (lstrip s) ≡ is_spaces s
unfolding lstrip
spaces-lstrip [] = refl
spaces-lstrip (c ∷ s) = ground (arith, spaces-lstrip s)

spaces-rstrip : (s : Text) → is_spaces (rstrip s) ≡ is_spaces s
unfolding rstrip
spaces-rstrip [] = refl
spaces-rstrip (c ∷ s) = ground (arith, spaces-rstrip s, blank-rstrip s)

blank-strip : (s : Text) → is_blank (strip s) ≡ is_spaces s
unfolding strip
blank-strip s = blank-rstrip (lstrip s) ∙ spaces-lstrip s

spaces-strip : (s : Text) → is_spaces (strip s) ≡ is_spaces s
unfolding strip
spaces-strip s = spaces-rstrip (lstrip s) ∙ spaces-lstrip s

-- A text that is stripped twice is blank if it is after the first time.
blank-strip_twice : (s : Text) → is_blank (strip (strip s)) ≡ is_blank (strip s)
blank-strip_twice s = blank-strip (strip s) ∙ spaces-strip s ∙ sym (blank-strip s)

-- The row of a transition has a reason that a second one accepts.
reason-kept :
    (env : Env) (target : ActionStatus) (actor : Option ℕ) (reason reason' : Text)
    (a : CampaignAction)
    → let saved = transitioned env target actor (strip reason) a in
      IsConsistent saved
      → (is_dismissed target && is_blank (strip (reason_or (strip reason') saved.dismiss_reason)))
        ≡ false
unfolding with_status
reason-kept env ActionStatus.dismissed actor reason reason' a c = ground (
  arith,
  c.dismissed,
  blank-strip_twice reason,
  blank-strip_twice reason',
  blank-strip_twice a.dismiss_reason,
)
reason-kept env _ actor reason reason' a c = refl

-- A second transition to the same status leaves the timestamps of the first.
stamps-kept :
    (env env' : Env) (target : ActionStatus) (actor actor' : Option ℕ) (n n' : Text)
    (a : CampaignAction)
    → let saved = transitioned env target actor n a in
      let again = transitioned env' target actor' n' saved in
      (again.completed_at ≡ saved.completed_at) × (again.cancelled_at ≡ saved.cancelled_at)
unfolding with_status
stamps-kept env env' ActionStatus.completed actor actor' n n' a = ground arith
stamps-kept env env' ActionStatus.cancelled actor actor' n n' a = ground arith
stamps-kept env env' _ actor actor' n n' a = ground arith

allowed-same : (s : ActionStatus) → (same_status s s || is_allowed s s) ≡ true
allowed-same s = ground (arith, ==_refl (status_rank s))

found-saved :
    (id : ℕ) (before first : CampaignAction) (db : Db)
    → find_action id db ≡ some before
    → first.id ≡ id
    → (if id == first.id && is_some (find_action id db) then some first else find_action id db)
      ≡ some first
found-saved id before first db found same = ground (arith, ==_refl id)

-- A transition that has been made can be asked for again at once, by anyone and without a reason: it
-- is made again, and the action keeps the target as its status and the times at which it was first
-- completed or cancelled.
pub transition_repeated :
    (env env' : Env) (id : ℕ) (target : ActionStatus) (actor actor' : Option ℕ)
    (reason reason' : Text) (db : Db) (saved : CampaignAction)
    → let (r, db') = transition_campaign_action env id (some target) actor reason db in
      r ≡ ok saved
      → (again : CampaignAction) × ((transition_campaign_action env' id
            (some target)
            actor'
            reason'
            db').0
          ≡ ok again)
        × (again.status ≡ target)
        × (again.completed_at ≡ saved.completed_at)
        × (again.cancelled_at ≡ saved.cancelled_at)
transition_repeated env env' id target actor actor' reason reason' db saved h =
    let done = transition-IsDone env id target actor reason db saved h in
    let before = done.before in
    let first = transitioned env target actor (strip reason) before in
    let db' = save_action first db in
    let again = transitioned env' target actor' (strip reason') first in
    let found =
      find_action-save id first db
      ∙ found-saved id before first db done.found (
          id-transitioned env target actor (strip reason) before
          ∙ find_action-id id before db done.found) in
    let accepted =
      transition_accepted env' id target actor' reason' db' first found
        (ap (λ s. same_status target s || is_allowed s target)
            (status-transitioned env target actor (strip reason) before)
          ∙ allowed-same target)
        (reason-kept env target actor reason reason' before
          (subst IsConsistent done.row done.consistent)) in
    let left = done.kept ∙ ap (λ x. save_action x db) done.row in
    let (completed, cancelled) =
      stamps-kept env env' target actor actor' (strip reason) (strip reason') before in
    (
      again,
      ap (λ d. (transition_campaign_action env' id (some target) actor' reason' d).0) left
          ∙ ap (λ r. r.0) accepted,
      status-transitioned env' target actor' (strip reason') first,
      completed ∙ ap (λ x. x.completed_at) (sym done.row),
      cancelled ∙ ap (λ x. x.cancelled_at) (sym done.row),
    )
