-- ===== src/Content/Uncharged.antt =====
-- The callback of a content pack does not charge (content/callbacks.py): the request did.
use moment_flow.Common.{ℕ, ℤ, +ℤ-zero, ◌≤ℤ◌, ◌≡◌, sym, some, arith, +ℤ_parts, Text}
use mathlib.Core.Path.{subst}
use moment_flow.Store.{Env, Db}
use moment_flow.Store.Content.{PackRequest, ContentPack}
use moment_flow.Store.Exec.{ok}
use moment_flow.Payload.{Payload}
use moment_flow.Billing.Ledger.{CreditKind, get_credit_balance}
use moment_flow.Billing.Ledger.Wallet.{Wallet, wallet_step, delta_of, is_guarded}
use moment_flow.Billing.Ledger.Refinement.{wallet}
use moment_flow.Jobs.{Callback}
use moment_flow.Content.{resolve_request}
use moment_flow.Content.Callbacks.{apply_content_generation_callback}
use moment_flow.Content.Credits.{Settlement, settlement_of, settle_wallet}
use moment_flow.Content.Settled.{content_callback-IsSettled}

settled_balance :
    (cost : ℤ) (key : Text) (w : Wallet)
    → (wallet_step CreditKind.settle cost key w).1.balance ≡ w.balance
unfolding wallet_step delta_of is_guarded
settled_balance cost key w = ground (arith, +ℤ-zero w.balance)

released_balance :
    (cost : ℤ) (key : Text) (w : Wallet)
    → w.balance ≤ℤ (wallet_step CreditKind.release cost key w).1.balance
unfolding wallet_step delta_of is_guarded
released_balance cost key w = ground (arith, +ℤ_parts w.balance cost)

settle_wallet_balance :
    (env : Env) (pack : ContentPack) (cost : ℤ) (id : ℕ) (s : Settlement) (w : Wallet)
    → w.balance ≤ℤ (settle_wallet env pack cost id s w).balance
unfolding settle_wallet
settle_wallet_balance env pack cost id Settlement.settled w =
    rw (settled_balance cost _ w) (omega arith)
settle_wallet_balance env pack cost id Settlement.released w = released_balance cost _ w
settle_wallet_balance env pack cost id Settlement.free w = omega arith

-- A callback never charges: when it returns, the balance of its request's workspace is at least what
-- it was, whatever was delivered.
pub content_callback_uncharged :
    (env : Env) (cb : Callback Payload) (request : PackRequest) (db db' : Db)
    → resolve_request env cb.job db ≡ some request
    → apply_content_generation_callback env cb db ≡ (ok tt, db')
    → get_credit_balance request.workspace db ≤ℤ get_credit_balance request.workspace db'
content_callback_uncharged env cb request db db' found called =
    let (pack, cost, _, moved) = content_callback-IsSettled env cb request db db' found called in
    subst (λ w. get_credit_balance request.workspace db ≤ℤ w.balance) (sym moved)
      (settle_wallet_balance env pack cost request.id (settlement_of cb cost)
        (wallet request.workspace db))
