-- ===== src/Billing/Ledger/Safety.antt =====
-- No overdraft: credits that are not there cannot be reserved or consumed, over any sequence of
-- calls.
use moment_flow.Common.{
  ℕ, ℤ, pos, ◌≤ℤ◌, ◌+ℤ◌, int_laws, ltb_ℤ, leb_ℤ, ◌≡◌, ap, List, [], ◌∷◌, Option, arith, Text, false,
  ◌&&◌,
}
use native.Mathlib.Decide.{ℕ_discrete}
use moment_flow.Store.{Env, Db}
use moment_flow.Billing.Ledger.{Details, CreditKind, get_credit_balance, run_credit}
use moment_flow.Billing.Ledger.Wallet.{Wallet, wallet_step, delta_of, is_guarded}
use moment_flow.Billing.Ledger.Refinement.{wallet, run_credit-wallet_step, run_credit-wallet_ne}

-- A positive amount that the guard let through leaves the balance at zero or more.
delta_of_nonneg :
    (kind : CreditKind) (amount balance : ℤ)
    → pos 0 ≤ℤ balance
    → leb_ℤ amount (pos 0) ≡ false
    → (is_guarded kind && ltb_ℤ balance amount) ≡ false
    → pos 0 ≤ℤ balance +ℤ delta_of kind amount
unfolding delta_of is_guarded
delta_of_nonneg CreditKind.grant amount balance h p g = grind int_laws
delta_of_nonneg _ amount balance h p g = grind int_laws

wallet_step_nonneg :
    (kind : CreditKind) (amount : ℤ) (key : Text) (w : Wallet)
    → pos 0 ≤ℤ w.balance
    → pos 0 ≤ℤ (wallet_step kind amount key w).1.balance
unfolding wallet_step
wallet_step_nonneg kind amount key w h = ground (arith, delta_of_nonneg kind amount w.balance h)

pub run_credit_nonneg :
    (env : Env) (kind : CreditKind) (ws : ℕ) (amount : ℤ) (d : Details) (actor : Option ℕ) (db : Db)
    → pos 0 ≤ℤ get_credit_balance ws db
    → pos 0 ≤ℤ get_credit_balance ws (run_credit env kind ws amount d actor db).1
run_credit_nonneg env kind ws amount d actor db h =
    rw (ap (λ (w : Wallet). w.balance) (run_credit-wallet_step env kind ws amount d actor db).1)
      (wallet_step_nonneg kind amount d.idempotency_key (wallet ws db) h)

-- A call of the ledger, by whichever service.
pub record Call : Type 0 where
  pub env : Env
  pub kind : CreditKind
  pub workspace : ℕ
  pub amount : ℤ
  pub details : Details
  pub actor : Option ℕ

abbrev pub run_call : Call → Db → Db
run_call c db = (run_credit c.env c.kind c.workspace c.amount c.details c.actor db).1

-- The calls one after another; a call that raises has its exception handled by its caller.
abbrev pub run_calls : List Call → Db → Db
run_calls [] db = db
run_calls (c ∷ cs) db = run_calls cs (run_call c db)

-- No workspace has a negative balance.
abbrev pub IsSolvent : Db → Type 0
IsSolvent db = (ws : ℕ) → pos 0 ≤ℤ get_credit_balance ws db

run_call-IsSolvent : (c : Call) (db : Db) → IsSolvent db → IsSolvent (run_call c db)
run_call-IsSolvent c db h ws = elim (ℕ_discrete c.workspace ws) [
  | yes e ↦
      rw (← e)
        (run_credit_nonneg c.env c.kind c.workspace c.amount c.details c.actor db (h c.workspace))
  | no ne ↦
      rw
        (ap (λ (w : Wallet). w.balance)
          (run_credit-wallet_ne c.env c.kind c.workspace c.amount c.details c.actor ws db ne))
        (h ws)
]

-- After any calls of the ledger's operations, whatever their kinds, amounts and keys, no workspace
-- has a negative balance, if none had one before.
pub run_calls-IsSolvent : (cs : List Call) (db : Db) → IsSolvent db → IsSolvent (run_calls cs db)
run_calls-IsSolvent [] db h = h
run_calls-IsSolvent (c ∷ cs) db h =
    run_calls-IsSolvent cs (run_call c db) (run_call-IsSolvent c db h)
