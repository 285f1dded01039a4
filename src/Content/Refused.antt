-- ===== src/Content/Refused.antt =====
-- A refused request for a content pack (content/services.py) writes nothing.
use moment_flow.Common.{
  ℕ, ℤ, pos, ◌≡◌, refl, Bool, Option, none, Text, str, arith, Option-cases, inl, inr,
}
use moment_flow.Store.{Env, Db}
use moment_flow.Store.Content.{PackRequest}
use moment_flow.Store.Jobs.{Job}
use moment_flow.Store.Log.{Metadata, MetaValue, put}
use moment_flow.Store.Exec.{Error, Result, ok, err, pure, ◌>>◌}
use moment_flow.Store.Reverts.{Reverts, Returns, atomic-Reverts, read-Reverts, then-Returns-Reverts}
use moment_flow.Audit.{record_audit_event}
use moment_flow.Billing.Plans.Quota.{check-keeps}
use moment_flow.Jobs.{Entities, find_job}
use moment_flow.Jobs.Sending.{Gateway}
use moment_flow.Jobs.Submission.{create_and_submit_external_job}
use moment_flow.Content.{save_request, pack_credit_cost}
use moment_flow.Content.Requests.{
  PackArgs, validate_request, open_request, audit_submitted, pack_job, note_submission,
  submit_content_generation_job, create_content_pack_request,
}

-- The checks write nothing.
pub validate_request-db : (env : Env) (a : PackArgs) (db : Db) → (validate_request env a db).1 ≡ db
unfolding validate_request
validate_request-db env a db =
    ground (arith, check-keeps env a.workspace (str "content_packs_per_month") (pos 1) none db)

audit_submitted-ok :
    (env : Env) (request : PackRequest) (user : Option ℕ) (j : Job) (db : Db)
    → (audit_submitted env request user j db).0 ≡ ok tt
unfolding audit_submitted record_audit_event
audit_submitted-ok env request user j db = refl

open_request-Reverts : (env : Env) (a : PackArgs) (cost : ℤ) → Reverts (open_request env a cost)
unfolding open_request
open_request-Reverts env a cost = atomic-Reverts _

module _ {P : Type 0} (entities : Entities P) (payload_of : PackRequest → Metadata)
    (error_text : Error → Text) (env : Env) where
  note_submission-ok :
      (request : PackRequest) (user : Option ℕ) (r : Result (ℕ × Bool)) (db : Db)
      → (note_submission entities payload_of error_text env request user r db).0 ≡ ok tt
  unfolding note_submission
  note_submission-ok request user (err e) db = refl
  note_submission-ok request user (ok (id, created)) db =
      let noted =
        save_request request.id
          (λ r. record r {
            metadata = put (str "external_job_id") (MetaValue.text (env.uuid_text id)) r.metadata;
          })
          db in
      elim (Option-cases (find_job id noted)) [
        | inl n ↦ rw (n, note_submission) refl
        | inr (j, found) ↦ rw (found, note_submission) (audit_submitted-ok env request user j noted)
      ]

  submit-Returns :
      (gateway : Gateway) (request : PackRequest) (user : Option ℕ) (correlation_id : Text)
      → Returns (
          submit_content_generation_job entities payload_of error_text env gateway request user
            correlation_id
          >> pure request.id)
  unfolding submit_content_generation_job
  submit-Returns gateway request user correlation_id = record {
    value = λ db. request.id;
    returns = λ db.
        let sent =
          create_and_submit_external_job entities env gateway
            (pack_job entities payload_of error_text env request user correlation_id) db in
        ground (arith, note_submission-ok request user sent.0 sent.1);
  }

  create_content_pack_request-Reverts :
      (gateway : Gateway) (a : PackArgs)
      → Reverts (create_content_pack_request entities payload_of error_text env gateway a)
  unfolding create_content_pack_request
  create_content_pack_request-Reverts gateway a =
      read-Reverts (validate_request env a) (validate_request-db env a) (λ _.
        read-Reverts (λ db. (pack_credit_cost a.content_pack, db)) (λ db. refl)
          (λ cost.
            then-Returns-Reverts (open_request-Reverts env a cost)
              (λ request. submit-Returns gateway request a.requested_by a.correlation_id)))

  -- A request for a content pack that raises has written nothing: no request, no usage, no credit
  -- movement, no job.
  pub create_content_pack_request-raised :
      (gateway : Gateway) (a : PackArgs) (db : Db) (x : Error)
      → (create_content_pack_request entities payload_of error_text env gateway a db).0 ≡ err x
      → (create_content_pack_request entities payload_of error_text env gateway a db).1 ≡ db
  create_content_pack_request-raised gateway a =
      (create_content_pack_request-Reverts gateway a).reverts
