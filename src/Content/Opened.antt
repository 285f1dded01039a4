-- ===== src/Content/Opened.antt =====
-- What opening a request for a content pack does to the wallet (content/services.py).
use moment_flow.Common.{
  ℕ, ℤ, pos, ltb_ℤ, ◌≡◌, refl, sym, ap, ◌∙◌, Bool, true, none, some, arith, Bool-cases, inl, inr,
  if◌then◌else◌,
}
use moment_flow.Core.{ledger_of, ledger-core, record_usage_event-Keeps}
use moment_flow.Store.{Env, Db}
use moment_flow.Store.Billing.{EventType, UsageEvent, LedgerEntry}
use moment_flow.Store.Content.{PackRequest, ContentPack}
use moment_flow.Store.Exec.{Result, ok, Exec, pure, modify, ◌>>=◌, ◌>>◌, >>=-eq_ok, atomic-eq_ok}
use moment_flow.Store.Keeps.{Keeps, then-Keeps, modify-Keeps, pure-Keeps}
use moment_flow.Audit.{record_audit_event}
use moment_flow.Billing.Usage.{record_usage_event}
use moment_flow.Billing.Ledger.{CreditKind, run_credit, reserve_credits}
use moment_flow.Billing.Ledger.Wallet.{Wallet, wallet_step}
use moment_flow.Billing.Ledger.Refinement.{
  wallet, wallet-ledger, outcome_of, run_credit-wallet_step,
}
use moment_flow.Content.{reserve_details, save_request}
use moment_flow.Content.Callbacks.{void}
use moment_flow.Content.Credits.{void-state}
use moment_flow.Content.Opening.{audit_requested-Keeps}
use moment_flow.Content.Requests.{
  PackArgs, new_request, insert_request, requested_usage, reserve_cost, audit_requested,
  reserve_and_link, open_request,
}

-- The wallet once the reservation is made: the cost is held under the request's key, where there is
-- one.
abbrev pub held_wallet : Env → ContentPack → ℤ → ℕ → Wallet → Wallet
held_wallet env pack cost id w =
    if ltb_ℤ (pos 0) cost
    then (wallet_step CreditKind.reserve cost (reserve_details env pack id).idempotency_key w).1
    else w

module _ (env : Env) (a : PackArgs) (cost : ℤ) (id : ℕ) (db : Db) where
  reserved-step :
      let (r, db') = reserve_credits a.workspace cost (reserve_details env a.content_pack id) db in
      let (o, w) =
        wallet_step CreditKind.reserve cost
          (reserve_details env a.content_pack id).idempotency_key
          (wallet a.workspace db) in
      (outcome_of r ≡ o) × (wallet a.workspace db' ≡ w)
  unfolding run_credit
  reserved-step =
      run_credit-wallet_step env CreditKind.reserve a.workspace cost
        (reserve_details env a.content_pack id) none db

  reserve_cost-wallet :
      wallet a.workspace (reserve_cost env a cost id db).1
      ≡ held_wallet env a.content_pack cost id (wallet a.workspace db)
  unfolding reserve_cost
  reserve_cost-wallet = elim (Bool-cases (ltb_ℤ (pos 0) cost)) [
    | inr n ↦ rw n refl
    | inl t ↦ rw t (
        ap (wallet a.workspace)
          (void-state (reserve_credits a.workspace cost (reserve_details env a.content_pack id)) db)
        ∙ reserved-step.1)
  ]

  -- A reservation that returned was not refused by the wallet.
  reserve_cost-accepted :
      (db' : Db)
      → reserve_cost env a cost id db ≡ (ok tt, db')
      → ltb_ℤ (pos 0) cost ≡ true
      → (x : LedgerEntry × Bool) × ((wallet_step CreditKind.reserve cost
            (reserve_details env a.content_pack id).idempotency_key
            (wallet a.workspace db)).0
          ≡ outcome_of (ok x))
  unfolding reserve_cost
  reserve_cost-accepted db' h t =
      let reserve = reserve_credits a.workspace cost (reserve_details env a.content_pack id) in
      let (x, e, _) =
        >>=-eq_ok reserve (λ _. pure tt) db db' tt
          (ap (λ b. (if b then void reserve else pure tt) db) (sym t) ∙ h) in
      (x, sym reserved-step.0 ∙ ap outcome_of e)

-- What an opened request says of its transaction: it is the row that was made, and the wallet holds
-- its cost.
pub record Opened (env : Env) (a : PackArgs) (cost : ℤ) (db : Db) (request : PackRequest) (db' : Db)
    : Type 0 where
  pub id : request.id ≡ db.drawn
  pub workspace : request.workspace ≡ a.workspace
  pub held :
      wallet a.workspace db' ≡ held_wallet env a.content_pack cost db.drawn (wallet a.workspace db)
  pub accepted :
      ltb_ℤ (pos 0) cost ≡ true
      → (x : LedgerEntry × Bool) × ((wallet_step CreditKind.reserve cost
            (reserve_details env a.content_pack db.drawn).idempotency_key
            (wallet a.workspace db)).0
          ≡ outcome_of (ok x))

linked-Keeps :
    (env : Env) (a : PackArgs) (request : PackRequest) (event : UsageEvent)
    → Keeps ledger_of (
        modify (save_request request.id (λ r. record r { usage_event_id = some event.id }))
        >> (audit_requested env a request.id
            >> pure (record request { usage_event_id = some event.id })))
linked-Keeps env a request event =
    then-Keeps (modify-Keeps _ (λ db. refl))
      (then-Keeps (ledger-core (audit_requested-Keeps env a request.id)) (pure-Keeps _))

linked-value :
    (env : Env) (a : PackArgs) (request : PackRequest) (event : UsageEvent) (db : Db)
    → ((modify (save_request request.id (λ r. record r { usage_event_id = some event.id }))
          >> (audit_requested env a request.id
              >> pure (record request { usage_event_id = some event.id })))
        db).0
      ≡ ok (record request { usage_event_id = some event.id })
unfolding audit_requested record_audit_event
linked-value env a request event db = refl

-- Two requests that differ in their usage event alone.
same_request :
    (made request : PackRequest) (event : UsageEvent) (r : Result PackRequest)
    → r ≡ ok (record made { usage_event_id = some event.id })
    → r ≡ ok request
    → (made.id ≡ request.id) × (made.workspace ≡ request.workspace)
same_request made request event r h k = ground arith

pub open_request-Opened :
    (env : Env) (a : PackArgs) (cost : ℤ) (db db' : Db) (request : PackRequest)
    → open_request env a cost db ≡ (ok request, db')
    → Opened env a cost db request db'
unfolding open_request insert_request
open_request-Opened env a cost db db' request h =
    let made = new_request a db in
    let block : Exec Db PackRequest = insert_request a >>= (λ r.
      record_usage_event env a.workspace EventType.content_pack_requested
        (requested_usage env cost r.id)
      >>= reserve_and_link env a cost r) in
    let record_usage =
      record_usage_event env a.workspace EventType.content_pack_requested
        (requested_usage env cost made.id) in
    let db1 = (insert_request a db).1 in
    let ((event, created), e1, h1) =
      >>=-eq_ok record_usage (reserve_and_link env a cost made) db1 db' request
        (atomic-eq_ok block db db' request h) in
    let db2 = (record_usage db1).1 in
    let link =
      modify (save_request made.id (λ r. record r { usage_event_id = some event.id }))
      >> (audit_requested env a made.id >> pure (record made { usage_event_id = some event.id })) in
    let reserve = reserve_cost env a cost made.id in
    let (_, e2, h2) = >>=-eq_ok reserve (λ _. link) db2 db' request h1 in
    let db3 = (reserve db2).1 in
    let ws = a.workspace in
    let before = wallet-ledger ws db2 db1 (
      (ledger-core (
          record_usage_event-Keeps env ws EventType.content_pack_requested
            (requested_usage env cost made.id))).keeps
        db1) in
    let (same_id, same_workspace) =
      same_request made request event (link db3).0 (linked-value env a made event db3)
        (ap (λ r. r.0) h2) in
    record {
      id = sym same_id;
      workspace = sym same_workspace;
      held =
          ap (λ r. wallet ws r.1) (sym h2)
          ∙ wallet-ledger ws (link db3).1 db3 ((linked-Keeps env a made event).keeps db3)
          ∙ reserve_cost-wallet env a cost made.id db2
          ∙ ap (held_wallet env a.content_pack cost db.drawn)
              (before ∙ wallet-ledger ws db1 db refl);
      accepted = λ t.
          let (x, e) = reserve_cost-accepted env a cost made.id db2 db3 (ap (λ r. (r, db3)) e2) t in
          (
            x,
            ap
                  (λ w.
                    (wallet_step CreditKind.reserve cost
                      (reserve_details env a.content_pack db.drawn).idempotency_key w).0)
                  (sym (before ∙ wallet-ledger ws db1 db refl))
                ∙ e,
          );
    }
