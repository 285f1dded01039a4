-- ===== src/Jobs/Rows.antt =====
-- The job table: rewriting rows by id, and what `apply_job_callback` and the handlers do to it.
use moment_flow.Common.{
  ℕ, ◌==◌, ◌≡◌, refl, Bool, false, none, some, List, [], ◌∷◌, Text, str, find?, update_where, arith,
  if◌then◌else◌, inl, inr, Bool-cases,
}
use moment_flow.Store.Jobs.{Job, JobType}
use moment_flow.Jobs.{IsHandler, Entities, apply_job_callback}
use moment_flow.Jobs.Callbacks.{callback_dispatcher, handle_simply, audit_callback}

-- No two rows have the same id.
unfoldable pub IsKeyed : List Job → Type 0
IsKeyed [] = Unit
IsKeyed (j ∷ js) = (find? (λ r. r.id == j.id) js ≡ none) × IsKeyed js

find-none :
    (p : Job → Bool) (js : List Job) (j : Job) (id : ℕ)
    → find? (λ r. r.id == id) js ≡ none
    → find? p js ≡ some j
    → (j.id == id) ≡ false
find-none p [] j id h e = ground arith
find-none p (r ∷ js) j id h e = ground (arith, find-none p js j id)

-- A row that some search finds is the row with its id.
pub find-keyed :
    (p : Job → Bool) (js : List Job) (j : Job)
    → IsKeyed js
    → find? p js ≡ some j
    → find? (λ r. r.id == j.id) js ≡ some j
unfolding IsKeyed
find-keyed p [] j k e = ground arith
find-keyed p (r ∷ js) j (n, k) e = ground (arith, find-none p js j r.id n, find-keyed p js j k)

-- Rewriting rows does not change what a search finds, where it looks at what is not rewritten.
pub find-update :
    (p q : Job → Bool) (f : Job → Job) (js : List Job) (j : Job)
    → ((r : Job) → p (f r) ≡ p r)
    → find? p js ≡ some j
    → find? p (update_where q f js) ≡ some (if q j then f j else j)
find-update p q f [] j keeps e = ground arith
find-update p q f (r ∷ js) j keeps e = ground (arith, keeps r, find-update p q f js j keeps)

module _ {P : Type 0} where
  handle_simply-IsHandler : (suffix : Text) → IsHandler P (handle_simply suffix)
  unfolding handle_simply audit_callback apply_job_callback
  handle_simply-IsHandler suffix env cb db = inl (cb.message, refl, refl)

  pub callback_dispatcher-IsHandler :
      (entities : Entities P) (ty : JobType) → IsHandler P (callback_dispatcher entities ty)
  unfolding callback_dispatcher
  callback_dispatcher-IsHandler entities JobType.content_generation = entities.content-IsHandler
  callback_dispatcher-IsHandler entities JobType.report_generation = entities.report-IsHandler
  callback_dispatcher-IsHandler entities JobType.media_kit_generation = entities.media_kit-IsHandler
  callback_dispatcher-IsHandler entities JobType.video_rendering =
      handle_simply-IsHandler (str "callback_unhandled")
  callback_dispatcher-IsHandler entities _ = handle_simply-IsHandler (str "callback_received")

-- Two rewritings of the row with one id.
pub find-update_twice :
    (p : Job → Bool) (f g : Job → Job) (id : ℕ) (js : List Job) (j : Job)
    → ((r : Job) → p (f r) ≡ p r)
    → ((r : Job) → p (g r) ≡ p r)
    → ((r : Job) → (f r).id ≡ r.id)
    → find? p js ≡ some j
    → find? p (update_where (λ r. r.id == id) g (update_where (λ r. r.id == id) f js))
      ≡ some (if j.id == id then g (f j) else j)
find-update_twice p f g id js j f-keeps g-keeps f-id e =
    let twice =
      find-update p (λ r. r.id == id) g (update_where (λ r. r.id == id) f js)
        (if j.id == id then f j else j) g-keeps
        (find-update p (λ r. r.id == id) f js j f-keeps e) in
    elim (Bool-cases (j.id == id)) [ inl t ↦ ground (arith, f-id j) | inr n ↦ ground arith ]
