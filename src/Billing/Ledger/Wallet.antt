-- ===== src/Billing/Ledger/Wallet.antt =====
-- What the ledger promises for one workspace (the docstring of billing/services.py): an available
-- balance and the set of idempotency keys that are spent. No table, no rows, no order.
use moment_flow.Common.{
  ℤ, pos, ◌+ℤ◌, negate, ltb_ℤ, leb_ℤ, Bool, true, false, ◌&&◌, ◌||◌, Text, is_blank, text_eq,
  if◌then◌else◌,
}
use moment_flow.Billing.Ledger.{CreditKind}

pub record Wallet : Type 0 where
  pub balance : ℤ
  pub used : Text → Bool

pub data Outcome : Type 0 where
  recorded replayed invalid broken : Outcome
  insufficient : ℤ → ℤ → Outcome

-- The signed change of the available balance.
unfoldable pub delta_of : CreditKind → ℤ → ℤ
delta_of CreditKind.reserve amount = negate amount
delta_of CreditKind.consume amount = negate amount
delta_of CreditKind.settle amount = pos 0
delta_of _ amount = amount

-- The operations that need the amount to be available.
unfoldable pub is_guarded : CreditKind → Bool
is_guarded CreditKind.reserve = true
is_guarded CreditKind.consume = true
is_guarded _ = false

-- A blank key is never spent.
abbrev pub spend_key : Text → (Text → Bool) → Text → Bool
spend_key key used k = if is_blank k then false else text_eq key k || used k

unfoldable pub wallet_step : CreditKind → ℤ → Text → Wallet → Outcome × Wallet
unfolding delta_of is_guarded
wallet_step kind amount key w =
    if leb_ℤ amount (pos 0)
    then (Outcome.invalid, w)
    else if w.used key
    then (Outcome.replayed, w)
    else if is_guarded kind && ltb_ℤ w.balance amount
    then (Outcome.insufficient amount w.balance, w)
    else (
      Outcome.recorded,
      record { balance = w.balance +ℤ delta_of kind amount; used = spend_key key w.used },
    )
