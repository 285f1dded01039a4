-- ===== src/Content/Credits.antt =====
-- What the steps of a content pack's callback do to the workspace's wallet (content/callbacks.py).
use moment_flow.Common.{
  ℕ, ℤ, pos, ltb_ℤ, ◌≡◌, refl, sym, ap, ◌∙◌, true, none, List, [], Text, Bool-cases, inl, inr,
  if◌then◌else◌, arith,
}
use moment_flow.Core.{ledger-core}
use moment_flow.Store.{Env, Db}
use moment_flow.Store.Content.{PackRequest, ContentPack}
use moment_flow.Store.Exec.{ok, Exec, ◌>>◌, >>=-eq_ok}
use moment_flow.Payload.{OutputData, Payload}
use moment_flow.Content.Outputs.{existing_outputs}
use moment_flow.Content.Upserts.{Tally}
use moment_flow.Billing.Ledger.{CreditKind, run_credit, consume_credits, release_reserved_credits}
use moment_flow.Billing.Ledger.Wallet.{Wallet, wallet_step}
use moment_flow.Billing.Ledger.Refinement.{wallet, wallet-ledger, run_credit-wallet_step}
use moment_flow.Jobs.{Callback, apply_job_callback}
use moment_flow.Content.{consume_details, release_details, pack_of}
use moment_flow.Content.Callbacks.{
  store_outputs, outputs_of, cost_of, settle_credits, should_consume, finish_success,
  release_credits, finish_failure, failure_message, is_failure, void, settle_success,
  settle_failure,
}
use moment_flow.Content.Kept.{process_outputs-field}
use moment_flow.Content.Handler.{finish_success-Keeps, finish_failure-Keeps}

-- What a settled request is to the wallet: the reservation consumed, or released, or nothing for a
-- pack without a cost.
pub data Settlement : Type 0 where
  settled released free : Settlement

-- The rule of the callbacks: a failure releases, a success consumes if what is delivered is charged.
unfoldable pub settlement_of : Callback Payload → ℤ → Settlement
settlement_of cb cost =
    if ltb_ℤ (pos 0) cost
    then if is_failure cb.status
      then Settlement.released
      else if should_consume cb.status (outputs_of cb.result)
      then Settlement.settled
      else Settlement.released
    else Settlement.free

-- The wallet after it.
unfoldable pub settle_wallet : Env → ContentPack → ℤ → ℕ → Settlement → Wallet → Wallet
settle_wallet env pack cost id Settlement.settled w =
    (wallet_step CreditKind.settle cost (consume_details env pack id).idempotency_key w).1
settle_wallet env pack cost id Settlement.released w =
    (wallet_step CreditKind.release cost (release_details env pack id).idempotency_key w).1
settle_wallet env pack cost id Settlement.free w = w

pub void-state : {A : Type 0} (m : Exec Db A) (db : Db) → (void m db).1 ≡ (m db).1
void-state m db = ground arith

module _ (env : Env) (request : PackRequest) (pack : ContentPack) (cost : ℤ) where
  settled-wallet :
      (db : Db)
      → wallet request.workspace
          (void
            (consume_credits env request.workspace cost true (consume_details env pack request.id))
            db).1
        ≡ settle_wallet env pack cost request.id Settlement.settled (wallet request.workspace db)
  unfolding settle_wallet run_credit
  settled-wallet db =
      ap (wallet request.workspace) (
        void-state
          (consume_credits env request.workspace cost true (consume_details env pack request.id))
          db)
      ∙ (run_credit-wallet_step env CreditKind.settle request.workspace cost
          (consume_details env pack request.id) none db).1

  released-wallet :
      (db : Db)
      → wallet request.workspace
          (void
            (release_reserved_credits request.workspace cost (release_details env pack request.id))
            db).1
        ≡ settle_wallet env pack cost request.id Settlement.released (wallet request.workspace db)
  unfolding settle_wallet run_credit
  released-wallet db =
      ap (wallet request.workspace) (
        void-state
          (release_reserved_credits request.workspace cost (release_details env pack request.id))
          db)
      ∙ (run_credit-wallet_step env CreditKind.release request.workspace cost
          (release_details env pack request.id) none db).1

-- The pack that a request leads to depends on the packs alone.
pub cost_of-packs :
    (request : PackRequest) (a b : Db)
    → a.content_packs ≡ b.content_packs
    → (cost_of request a).0 ≡ (cost_of request b).0
unfolding cost_of pack_of
cost_of-packs request a b h = ground arith

applied-ledger :
    (env : Env) (cb : Callback Payload) (message : Text) (db db' : Db)
    → apply_job_callback env cb.job cb.status message cb.metadata db ≡ (ok tt, db')
    → db'.ledger ≡ db.ledger
unfolding apply_job_callback
applied-ledger env cb message db db' h = ap (λ s. s.1.ledger) (sym h)

pub store_outputs-packs :
    (env : Env) (request : PackRequest) (outs : List OutputData) (db : Db)
    → (store_outputs env request outs db).1.content_packs ≡ db.content_packs
unfolding store_outputs
store_outputs-packs env request outs db =
    process_outputs-field (λ x. x.content_packs) (λ x a b c. refl) env request outs 0
      (existing_outputs request.id db.outputs [])
      (record { completed = 0; failed = 0; skipped = 0 }) db

abbrev pub succeeded : Callback Payload → ℤ → Settlement
succeeded cb cost =
    if ltb_ℤ (pos 0) cost
    then if should_consume cb.status (outputs_of cb.result)
      then Settlement.settled
      else Settlement.released
    else Settlement.free

abbrev pub failed : ℤ → Settlement
failed cost = if ltb_ℤ (pos 0) cost then Settlement.released else Settlement.free

module _ (env : Env) (request : PackRequest) (pack : ContentPack) (cost : ℤ) where
  settle_credits-wallet :
      (cb : Callback Payload) (db : Db)
      → wallet request.workspace
          (settle_credits env request pack cost
            (should_consume cb.status (outputs_of cb.result))
            db).1
        ≡ settle_wallet env pack cost request.id (succeeded cb cost) (wallet request.workspace db)
  unfolding settle_credits settle_wallet
  settle_credits-wallet cb db = elim (Bool-cases (ltb_ℤ (pos 0) cost)) [
    | inr n ↦ rw n refl
    | inl t ↦ elim (Bool-cases (should_consume cb.status (outputs_of cb.result))) [
      | inl c ↦ rw (t, c) (settled-wallet env request pack cost db)
      | inr r ↦ rw (t, r) (released-wallet env request pack cost db)
    ]
  ]

  release_credits-wallet :
      (db : Db)
      → wallet request.workspace (release_credits env request pack cost db).1
        ≡ settle_wallet env pack cost request.id (failed cost) (wallet request.workspace db)
  unfolding release_credits settle_wallet
  release_credits-wallet db = elim (Bool-cases (ltb_ℤ (pos 0) cost)) [
    | inr n ↦ rw n refl
    | inl t ↦ rw t (released-wallet env request pack cost db)
  ]

module _ (env : Env) (cb : Callback Payload) (request : PackRequest) (db db' : Db) where
  pub settle_success-wallet :
      (t : Tally) (pack : ContentPack) (cost : ℤ)
      → settle_success env cb request t (pack, cost) db ≡ (ok tt, db')
      → wallet request.workspace db'
        ≡ settle_wallet env pack cost request.id (succeeded cb cost) (wallet request.workspace db)
  settle_success-wallet t pack cost h =
      let ws = request.workspace in
      let settle =
        settle_credits env request pack cost (should_consume cb.status (outputs_of cb.result)) in
      let finish = finish_success env request cb.status t in
      let land = apply_job_callback env cb.job cb.status [] cb.metadata in
      let (u, e, h1) = >>=-eq_ok settle (λ _. finish >> land) db db' tt h in
      let (v, d, h2) = >>=-eq_ok finish (λ _. land) (settle db).1 db' tt h1 in
      wallet-ledger ws db' (finish (settle db).1).1
        (applied-ledger env cb [] (finish (settle db).1).1 db' h2)
      ∙ wallet-ledger ws (finish (settle db).1).1 (settle db).1
          ((ledger-core (finish_success-Keeps env request cb.status t)).keeps (settle db).1)
      ∙ settle_credits-wallet env request pack cost cb db

  pub settle_failure-wallet :
      (pack : ContentPack) (cost : ℤ)
      → settle_failure env cb request (pack, cost) db ≡ (ok tt, db')
      → wallet request.workspace db'
        ≡ settle_wallet env pack cost request.id (failed cost) (wallet request.workspace db)
  settle_failure-wallet pack cost h =
      let ws = request.workspace in
      let message = failure_message cb in
      let release = release_credits env request pack cost in
      let finish = finish_failure env request message in
      let land = apply_job_callback env cb.job cb.status message cb.metadata in
      let (u, e, h1) = >>=-eq_ok release (λ _. finish >> land) db db' tt h in
      let (v, d, h2) = >>=-eq_ok finish (λ _. land) (release db).1 db' tt h1 in
      wallet-ledger ws db' (finish (release db).1).1
        (applied-ledger env cb message (finish (release db).1).1 db' h2)
      ∙ wallet-ledger ws (finish (release db).1).1 (release db).1
          ((ledger-core (finish_failure-Keeps env request message)).keeps (release db).1)
      ∙ release_credits-wallet env request pack cost db
