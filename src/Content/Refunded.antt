-- ===== src/Content/Refunded.antt =====
-- The credits of a request for a content pack, from its opening to a callback that fails
-- (content/services.py and content/callbacks.py).
use moment_flow.Common.{
  ℕ, ℤ, pos, negate_cancel, ltb_ℤ, ◌≡◌, refl, sym, ap, ◌∙◌, Bool, true, false, none, some, is_some,
  Text, arith, text_eq, Bool-cases, inl, inr, if◌then◌else◌,
}
use moment_flow.Store.{Env, Db}
use moment_flow.Store.Billing.{LedgerEntry}
use moment_flow.Store.Content.{PackRequest, ContentPack}
use moment_flow.Store.Exec.{Result, ok}
use moment_flow.Payload.{Payload}
use moment_flow.Billing.Ledger.{CreditKind, get_credit_balance, existing_entry}
use moment_flow.Billing.Ledger.Wallet.{Wallet, wallet_step, delta_of, is_guarded}
use moment_flow.Billing.Ledger.Refinement.{wallet, outcome_of}
use moment_flow.Jobs.{Callback}
use moment_flow.Content.{reserve_details, release_details, resolve_request}
use moment_flow.Content.Callbacks.{cost_of, is_failure, apply_content_generation_callback}
use moment_flow.Content.Credits.{settlement_of, settle_wallet}
use moment_flow.Content.Settled.{content_callback-IsSettled}
use moment_flow.Content.Requests.{PackArgs, open_request}
use moment_flow.Content.Opened.{held_wallet, open_request-Opened}

-- Held and then released, under two keys that were not spent: the wallet has its balance again.
held-released :
    (cost : ℤ) (hold release : Text) (w : Wallet) (x : LedgerEntry × Bool)
    → (wallet_step CreditKind.reserve cost hold w).0 ≡ outcome_of (ok x)
    → w.used hold ≡ false
    → w.used release ≡ false
    → text_eq hold release ≡ false
    → (wallet_step CreditKind.release cost release
        (wallet_step CreditKind.reserve cost hold w).1).1.balance
      ≡ w.balance
unfolding wallet_step delta_of is_guarded
held-released cost hold release w (e, true) accepted h r ne =
    ground (arith, negate_cancel w.balance cost)
held-released cost hold release w (e, false) accepted h r ne =
    ground (arith, negate_cancel w.balance cost)

-- The two keys of a request differ.
hold_key-release_key :
    (env : Env) (pack : ContentPack) (id : ℕ)
    → text_eq
        (reserve_details env pack id).idempotency_key
        (release_details env pack id).idempotency_key
      ≡ false
unfolding text_eq
hold_key-release_key env pack id = refl

failed-released :
    (env : Env) (cb : Callback Payload) (pack : ContentPack) (cost : ℤ) (id : ℕ) (w : Wallet)
    (held : Wallet)
    → is_failure cb.status ≡ true
    → held ≡ held_wallet env pack cost id w
    → (ltb_ℤ (pos 0) cost ≡ true
        → (x : LedgerEntry × Bool) × ((wallet_step CreditKind.reserve cost
              (reserve_details env pack id).idempotency_key
              w).0
            ≡ outcome_of (ok x)))
    → w.used (reserve_details env pack id).idempotency_key ≡ false
    → w.used (release_details env pack id).idempotency_key ≡ false
    → (settle_wallet env pack cost id (settlement_of cb cost) held).balance ≡ w.balance
unfolding settlement_of settle_wallet
failed-released env cb pack cost id w held bad h accepted hold release =
    elim (Bool-cases (ltb_ℤ (pos 0) cost)) [
      | inr n ↦ rw n (
          ap (λ v. v.balance)
            (h
              ∙ ap
                  (λ b.
                    if b
                    then (wallet_step CreditKind.reserve cost
                        (reserve_details env pack id).idempotency_key w).1
                    else w)
                  n))
      | inl t ↦
          let (x, e) = accepted t in
          rw (t, bad)
            (ap
                (λ v.
                  (wallet_step CreditKind.release cost (release_details env pack id).idempotency_key
                    v).1.balance)
                (h
                  ∙ ap
                      (λ b.
                        if b
                        then (wallet_step CreditKind.reserve cost
                            (reserve_details env pack id).idempotency_key w).1
                        else w)
                      t)
              ∙ held-released cost (reserve_details env pack id).idempotency_key
                  (release_details env pack id).idempotency_key w x e hold release
                  (hold_key-release_key env pack id))
    ]

same_costs :
    (r : Result (ContentPack × ℤ)) (p q : ContentPack) (c d : ℤ)
    → r ≡ ok (p, c)
    → r ≡ ok (q, d)
    → (p ≡ q) × (c ≡ d)
same_costs r p q c d h k = ground arith

-- The credits of a failed content pack come back: a request that was opened, under keys not spent
-- before, and whose job is then called back with a failure, leaves the workspace's balance as it was
-- before the request, provided that between the two the workspace's wallet did not move and the
-- pack's cost did not change.
pub content_pack_refunded :
    (env : Env) (a : PackArgs) (cost : ℤ) (request found : PackRequest) (cb : Callback Payload)
    (db db1 db2 db3 : Db)
    → existing_entry a.workspace (reserve_details env a.content_pack db.drawn).idempotency_key db
      ≡ none
    → existing_entry a.workspace (release_details env a.content_pack db.drawn).idempotency_key db
      ≡ none
    → open_request env a cost db ≡ (ok request, db1)
    → wallet a.workspace db2 ≡ wallet a.workspace db1
    → resolve_request env cb.job db2 ≡ some found
    → found.id ≡ request.id
    → found.workspace ≡ request.workspace
    → (cost_of found db2).0 ≡ ok (a.content_pack, cost)
    → is_failure cb.status ≡ true
    → apply_content_generation_callback env cb db2 ≡ (ok tt, db3)
    → get_credit_balance a.workspace db3 ≡ get_credit_balance a.workspace db
content_pack_refunded env a cost request found cb db db1 db2 db3 hold release opened idle finds
      same_id same_ws costs bad called =
    let o = open_request-Opened env a cost db db1 request opened in
    let (pack, cost', e, moved) = content_callback-IsSettled env cb found db2 db3 finds called in
    let (same_pack, same_cost) =
      same_costs (cost_of found db2).0 pack a.content_pack cost' cost e costs in
    let ws = same_ws ∙ o.workspace in
    ap (λ v. get_credit_balance v db3) (sym ws)
    ∙ ap (λ w. w.balance)
        (moved
          ∙ ap
              (λ p.
                settle_wallet env p cost' found.id (settlement_of cb cost')
                  (wallet found.workspace db2))
              same_pack
          ∙ ap
              (λ c.
                settle_wallet env a.content_pack c found.id (settlement_of cb c)
                  (wallet found.workspace db2))
              same_cost
          ∙ ap
              (λ i.
                settle_wallet env a.content_pack cost i (settlement_of cb cost)
                  (wallet found.workspace db2))
              (same_id ∙ o.id)
          ∙ ap
              (λ v.
                settle_wallet env a.content_pack cost db.drawn (settlement_of cb cost)
                  (wallet v db2))
              ws)
    ∙ failed-released env cb a.content_pack cost db.drawn (wallet a.workspace db)
        (wallet a.workspace db2) bad (idle ∙ o.held) o.accepted (ap is_some hold)
        (ap is_some release)
