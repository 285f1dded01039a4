-- ===== src/Actions/History.antt =====
-- Any sequence of transitions, by whatever callers: no action leaves a final status, and none changes
-- its status more than twice.
use moment_flow.Common.{
  ℕ, ◌+◌, ◌≤◌, ◌==◌, ◌≡◌, refl, sym, ap, ◌∙◌, true, ◌&&◌, ◌||◌, Option, none, some, List, [], ◌∷◌,
  Text, is_some, strip, find?, find?-passes, update_where, arith, ◌⊎◌, inl, inr, Bool-cases,
  if◌then◌else◌,
}
use moment_flow.Store.{Env, Db}
use moment_flow.Store.Actions.{ActionStatus, CampaignAction}
use moment_flow.Store.Exec.{Result-cases}
use moment_flow.Actions.{
  is_allowed, same_status, find_action, save_action, transition_campaign_action,
}
use moment_flow.Actions.Lifecycle.{
  IsDone, id-transitioned, status-transitioned, transition-IsDone, transition_refused,
}

find-save_rows :
    (id : ℕ) (a : CampaignAction) (rows : List CampaignAction)
    → find? (λ r. r.id == id) (update_where (λ r. r.id == a.id) (λ _. a) rows) ≡ (
        if id == a.id && is_some (find? (λ r. r.id == id) rows)
        then some a
        else find? (λ r. r.id == id) rows)
find-save_rows id a [] = ground arith
find-save_rows id a (r ∷ rows) = ground (arith, find-save_rows id a rows)

-- Looking an action up after a save.
pub find_action-save :
    (id : ℕ) (a : CampaignAction) (db : Db)
    → find_action id (save_action a db)
      ≡ (if id == a.id && is_some (find_action id db) then some a else find_action id db)
unfolding find_action
find_action-save id a db = find-save_rows id a db.campaign_actions

-- A transition request, whoever makes it.
pub record Request : Type 0 where
  pub env : Env
  pub id : ℕ
  pub target : ActionStatus
  pub actor : Option ℕ
  pub reason : Text

abbrev pub run_request : Request → Db → Db
run_request r db = (transition_campaign_action r.env r.id (some r.target) r.actor r.reason db).1

abbrev pub run_requests : List Request → Db → Db
run_requests [] db = db
run_requests (r ∷ rs) db = run_requests rs (run_request r db)

-- How often a status may still change.
abbrev pub changes_left : ActionStatus → ℕ
changes_left ActionStatus.pending = 2
changes_left ActionStatus.in_progress = 1
changes_left _ = 0

allowed_falls :
    (a b : ActionStatus)
    → (same_status b a || is_allowed a b) ≡ true
    → (b ≡ a) ⊎ (changes_left b + 1 ≤ changes_left a)
unfolding is_allowed
allowed_falls a b h = ground arith

-- What one request does to the status of one action.
abbrev pub Moved : CampaignAction → Option CampaignAction → Type 0
Moved a none = ⊥
Moved a (some b) = (b.status ≡ a.status) ⊎ (changes_left b.status + 1 ≤ changes_left a.status)

pub find_action-id :
    (id : ℕ) (a : CampaignAction) (db : Db) → find_action id db ≡ some a → a.id ≡ id
unfolding find_action
find_action-id id a db h = ground (arith, find?-passes (λ r. r.id == id) db.campaign_actions a h)

saved-Moved :
    (id : ℕ) (a saved before : CampaignAction) (target : ActionStatus) (db : Db)
    → find_action id db ≡ some a
    → (find_action saved.id db ≡ some before)
    → (same_status target before.status || is_allowed before.status target) ≡ true
    → saved.status ≡ target
    → Moved a (find_action id (save_action saved db))
saved-Moved id a saved before target db h f allowed t = elim (Bool-cases (id == saved.id)) [
  | inl e ↦
      let same : id ≡ saved.id = ground arith in
      let found : some a ≡ some before = sym h ∙ ap (λ k. find_action k db) same ∙ f in
      rw (find_action-save id saved db) (ground (arith, allowed_falls before.status target allowed))
  | inr e ↦ rw (find_action-save id saved db) (ground arith)
]

done-Moved :
    (r : Request) (id : ℕ) (a saved : CampaignAction) (db db' : Db)
    → find_action id db ≡ some a
    → IsDone r.env r.id r.target r.actor r.reason db db' saved
    → Moved a (find_action id db')
done-Moved r id a saved db db' h d = rw d.kept (
    saved-Moved id a saved d.before r.target db h
      (ap (λ k. find_action k db) (saved-id ∙ find_action-id r.id d.before db d.found) ∙ d.found)
      d.allowed
      (ap (λ (x : CampaignAction). x.status) d.row
        ∙ status-transitioned r.env r.target r.actor (strip r.reason) d.before))
  where
    saved-id : saved.id ≡ d.before.id
    saved-id =
        ap (λ (x : CampaignAction). x.id) d.row
        ∙ id-transitioned r.env r.target r.actor (strip r.reason) d.before

request-Moved :
    (r : Request) (id : ℕ) (a : CampaignAction) (db : Db)
    → find_action id db ≡ some a
    → Moved a (find_action id (run_request r db))
request-Moved r id a db h =
    elim (Result-cases
      (transition_campaign_action r.env r.id (some r.target) r.actor r.reason db).0) [
        | inl (saved, e) ↦
            done-Moved r id a saved db _ h
              (transition-IsDone r.env r.id r.target r.actor r.reason db saved e)
        | inr (x, e) ↦
            rw (transition_refused r.env r.id r.target r.actor r.reason db x e) (rw h (inl refl))
      ]

-- How often the status of one action changes over a sequence of requests.
changed : Option CampaignAction → Option CampaignAction → ℕ
changed (some a) (some b) = if same_status a.status b.status then 0 else 1
changed _ _ = 0

pub count_changes : ℕ → List Request → Db → ℕ
count_changes id [] db = 0
count_changes id (r ∷ rs) db =
    changed (find_action id db) (find_action id (run_request r db))
    + count_changes id rs (run_request r db)

changed-le :
    (id : ℕ) (a : CampaignAction) (o : Option CampaignAction) (n : ℕ)
    → Moved a o
    → ((b : CampaignAction) → o ≡ some b → n ≤ changes_left b.status)
    → changed (some a) o + n ≤ changes_left a.status
unfolding changed
changed-le id a none n m h = absurd m
changed-le id a (some b) n m h = ground (arith, h b refl)

-- Over any sequence of transition requests, accepted or refused, an action changes its status at
-- most twice if it is pending, at most once if it is in progress, and never in any other status.
pub count_changes_le :
    (rs : List Request) (id : ℕ) (a : CampaignAction) (db : Db)
    → find_action id db ≡ some a
    → count_changes id rs db ≤ changes_left a.status
unfolding count_changes
count_changes_le [] id a db h = omega arith
count_changes_le (r ∷ rs) id a db h = rw h (
    changed-le id a (find_action id (run_request r db)) (count_changes id rs (run_request r db))
      (request-Moved r id a db h) (λ b e. count_changes_le rs id b (run_request r db) e))
