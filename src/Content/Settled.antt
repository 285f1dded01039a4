-- ===== src/Content/Settled.antt =====
-- What the callback of a content pack promises of the workspace's wallet, and that it does it.
use moment_flow.Common.{ℤ, ◌≡◌, refl, sym, ap, ◌∙◌, true, false, some, Bool-cases, inl, inr}
use moment_flow.Core.{ledger_of, ledger-core}
use moment_flow.Store.{Env, Db}
use moment_flow.Store.Content.{PackRequest, ContentPack}
use moment_flow.Store.Exec.{ok, Exec, modify, ◌>>=◌, ◌>>◌, >>=-eq_ok, atomic-eq_ok}
use moment_flow.Payload.{Payload}
use moment_flow.Content.Upserts.{Tally}
use moment_flow.Billing.Ledger.Refinement.{wallet, wallet-ledger}
use moment_flow.Jobs.{Callback}
use moment_flow.Content.{resolve_request}
use moment_flow.Content.Callbacks.{
  store_outputs, outputs_of, cost_of, handle_success, fail_outputs, handle_failed, is_failure,
  apply_content_generation_callback, settle_success, settle_failure,
}
use moment_flow.Content.Credits.{
  Settlement, settlement_of, settle_wallet, succeeded, failed, cost_of-packs, store_outputs-packs,
  settle_success-wallet, settle_failure-wallet,
}
use moment_flow.Content.Handler.{store_outputs-Keeps, cost_of-Keeps}

-- The settlement of a request, in the wallet of its workspace.
abbrev pub IsSettled : Env → PackRequest → (ℤ → Settlement) → Db → Db → Type 0
IsSettled env request rule db db' =
    (pack : ContentPack) × (cost : ℤ) × ((cost_of request db).0 ≡ ok (pack, cost))
    × (wallet request.workspace db'
        ≡ settle_wallet env pack cost request.id (rule cost) (wallet request.workspace db))

-- Two rules that agree settle alike.
IsSettled-rule :
    (env : Env) (request : PackRequest) (rule rule' : ℤ → Settlement) (db db' : Db)
    → ((cost : ℤ) → rule' cost ≡ rule cost)
    → IsSettled env request rule db db'
    → IsSettled env request rule' db db'
IsSettled-rule env request rule rule' db db' same (pack, cost, e, w) = (
  pack,
  cost,
  e,
  w
      ∙ ap (λ s. settle_wallet env pack cost request.id s (wallet request.workspace db))
          (sym (same cost)),
)

module _ (cb : Callback Payload) where
  settlement-failed : is_failure cb.status ≡ true → (cost : ℤ) → settlement_of cb cost ≡ failed cost
  unfolding settlement_of
  settlement-failed bad cost = rw bad refl

  settlement-succeeded :
      is_failure cb.status ≡ false → (cost : ℤ) → settlement_of cb cost ≡ succeeded cb cost
  unfolding settlement_of
  settlement-succeeded good cost = rw good refl

module _ (env : Env) (cb : Callback Payload) (request : PackRequest) (db : Db) where
  callback-failed :
      resolve_request env cb.job db ≡ some request
      → is_failure cb.status ≡ true
      → apply_content_generation_callback env cb db ≡ handle_failed env cb request db
  unfolding apply_content_generation_callback
  callback-failed found bad = rw (found, bad, apply_content_generation_callback) refl

  callback-succeeded :
      resolve_request env cb.job db ≡ some request
      → is_failure cb.status ≡ false
      → apply_content_generation_callback env cb db ≡ handle_success env cb request db
  unfolding apply_content_generation_callback
  callback-succeeded found good = rw (found, good, apply_content_generation_callback) refl

module _ (env : Env) (cb : Callback Payload) (request : PackRequest) (db db' : Db) where
  handle_success-IsSettled :
      handle_success env cb request db ≡ (ok tt, db') → IsSettled env request (succeeded cb) db db'
  unfolding handle_success
  handle_success-IsSettled h =
      let ws = request.workspace in
      let store = store_outputs env request (outputs_of cb.result) in
      let rest : Tally → Exec Db (Unit {0}) =
        λ t. cost_of request >>= settle_success env cb request t in
      let (t, e1, h1) =
        >>=-eq_ok store rest db db' tt (atomic-eq_ok (store >>= rest) db db' tt h) in
      let ((pack, cost), e2, h2) =
        >>=-eq_ok (cost_of request) (settle_success env cb request t) (store db).1 db' tt h1 in
      (
        pack,
        cost,
        cost_of-packs request db (store db).1
              (sym (store_outputs-packs env request (outputs_of cb.result) db))
            ∙ e2,
        settle_success-wallet env cb request (cost_of request (store db).1).1 db' t pack cost h2
            ∙ ap (settle_wallet env pack cost request.id (succeeded cb cost)) (
                wallet-ledger ws (cost_of request (store db).1).1 (store db).1
                  ((cost_of-Keeps {field = ledger_of} request).keeps (store db).1)
                ∙ wallet-ledger ws (store db).1 db (
                    (ledger-core (store_outputs-Keeps env request (outputs_of cb.result))).keeps
                      db)),
      )

  handle_failed-IsSettled :
      handle_failed env cb request db ≡ (ok tt, db') → IsSettled env request failed db db'
  unfolding handle_failed
  handle_failed-IsSettled h =
      let ws = request.workspace in
      let rest = cost_of request >>= settle_failure env cb request in
      let fail = modify (fail_outputs request.id) in
      let (u0, e0, h0) =
        >>=-eq_ok fail (λ _. rest) db db' tt (atomic-eq_ok (fail >> rest) db db' tt h) in
      let ((pack, cost), e2, h2) =
        >>=-eq_ok (cost_of request) (settle_failure env cb request) (fail db).1 db' tt h0 in
      (
        pack,
        cost,
        cost_of-packs request db (fail db).1 refl ∙ e2,
        settle_failure-wallet env cb request (cost_of request (fail db).1).1 db' pack cost h2
            ∙ ap (settle_wallet env pack cost request.id (failed cost)) (
                wallet-ledger ws (cost_of request (fail db).1).1 (fail db).1
                  ((cost_of-Keeps {field = ledger_of} request).keeps (fail db).1)
                ∙ wallet-ledger ws (fail db).1 db refl),
      )

-- A callback that returns has moved the wallet of its request's workspace by one step: a failure
-- releases the cost of the pack as it is now, a success consumes what was reserved if what is
-- delivered is charged and releases it otherwise, and a pack without a cost moves nothing.
pub content_callback-IsSettled :
    (env : Env) (cb : Callback Payload) (request : PackRequest) (db db' : Db)
    → resolve_request env cb.job db ≡ some request
    → apply_content_generation_callback env cb db ≡ (ok tt, db')
    → IsSettled env request (settlement_of cb) db db'
content_callback-IsSettled env cb request db db' found h =
    elim (Bool-cases (is_failure cb.status)) [
      | inl bad ↦
          IsSettled-rule env request failed (settlement_of cb) db db' (settlement-failed cb bad) (
            handle_failed-IsSettled env cb request db db'
              (sym (callback-failed env cb request db found bad) ∙ h))
      | inr good ↦
          IsSettled-rule env request (succeeded cb) (settlement_of cb) db db'
            (settlement-succeeded cb good)
            (handle_success-IsSettled env cb request db db'
              (sym (callback-succeeded env cb request db found good) ∙ h))
    ]
