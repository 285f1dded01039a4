-- ===== src/Billing/Ledger/Refinement.antt =====
-- The operations of the ledger against the wallet: what a workspace can see of its ledger, and that
-- each operation moves it as the wallet moves.
use moment_flow.Common.{
  ℕ, ℤ, ◌+ℤ◌, ◌≡◌, ◌≢◌, refl, ap, ◌∙◌, Bool, Option, arith, inl, inr, Text, is_some, Option-cases,
  if◌then◌else◌,
}
use moment_flow.Store.{Env, Db}
use moment_flow.Store.Billing.{LedgerEntry}
use moment_flow.Store.Exec.{Error, Result, ok, err}
use moment_flow.Billing.Ledger.{
  Details, CreditKind, existing_entry, find_entry, sum_amounts, get_credit_balance, run_credit,
}
use moment_flow.Billing.Ledger.Wallet.{Wallet, Outcome, delta_of, spend_key, wallet_step}
use moment_flow.Billing.Ledger.Runs.{
  details_of, entry_of, push_entry, audited, run_normal, run_normal_lem, ledger-audited,
  ledger-run_credit,
}

-- What a workspace sees of the ledger.
abbrev pub wallet : ℕ → Db → Wallet
wallet ws db = record {
  balance = get_credit_balance ws db;
  used = λ key. is_some (existing_entry ws key db);
}

abbrev pub outcome_of : Result (LedgerEntry × Bool) → Outcome
outcome_of (ok (e, created)) = if created then Outcome.recorded else Outcome.replayed
outcome_of (err Error.value_error) = Outcome.invalid
outcome_of (err (Error.insufficient_credits amount balance)) = Outcome.insufficient amount balance
outcome_of (err _) = Outcome.broken

-- The wallet is a function of the table.
pub wallet-ledger : (ws : ℕ) (a b : Db) → a.ledger ≡ b.ledger → wallet ws a ≡ wallet ws b
unfolding get_credit_balance existing_entry
wallet-ledger ws a b h = rw h

used-push :
    (ws : ℕ) (e : LedgerEntry) (db : Db) (key : Text)
    → e.workspace ≡ ws
    → is_some (existing_entry ws key (push_entry e db))
      ≡ spend_key e.idempotency_key (λ k. is_some (existing_entry ws k db)) key
unfolding existing_entry find_entry
used-push ws e db key h = ground arith

balance-push :
    (ws : ℕ) (e : LedgerEntry) (db : Db)
    → e.workspace ≡ ws
    → get_credit_balance ws (push_entry e db) ≡ get_credit_balance ws db +ℤ e.amount
unfolding get_credit_balance sum_amounts
balance-push ws e db h = ground arith

pub wallet-push :
    (ws : ℕ) (e : LedgerEntry) (db : Db)
    → e.workspace ≡ ws
    → wallet ws (push_entry e db) ≡ record {
      balance = get_credit_balance ws db +ℤ e.amount;
      used = spend_key e.idempotency_key (λ k. is_some (existing_entry ws k db));
    }
wallet-push ws e db h =
    λ i. record { balance = balance-push ws e db h i; used = λ key. used-push ws e db key h i }

used-push_ne :
    (ws : ℕ) (e : LedgerEntry) (db : Db) (key : Text)
    → e.workspace ≢ ws
    → is_some (existing_entry ws key (push_entry e db)) ≡ is_some (existing_entry ws key db)
unfolding existing_entry find_entry
used-push_ne ws e db key h = ground arith

balance-push_ne :
    (ws : ℕ) (e : LedgerEntry) (db : Db)
    → e.workspace ≢ ws
    → get_credit_balance ws (push_entry e db) ≡ get_credit_balance ws db
unfolding get_credit_balance sum_amounts
balance-push_ne ws e db h = ground arith

-- A row of one workspace is not seen by another.
pub wallet-push_ne :
    (ws : ℕ) (e : LedgerEntry) (db : Db)
    → e.workspace ≢ ws
    → wallet ws (push_entry e db) ≡ wallet ws db
wallet-push_ne ws e db h = λ i. record {
  balance = balance-push_ne ws e db h i;
  used = λ key. used-push_ne ws e db key h i;
}

pub details_of_key :
    (kind : CreditKind) (amount : ℤ) (d : Details)
    → (details_of kind amount d).idempotency_key ≡ d.idempotency_key
details_of_key CreditKind.grant amount d = refl
details_of_key _ amount d = refl

module _ (env : Env) (kind : CreditKind) (ws : ℕ) (amount : ℤ) (d : Details)
    (actor : Option ℕ) where
  -- What the operation writes last, for the workspace `v`.
  written-wallet :
      (v : ℕ) (db : Db)
      → wallet v (
          audited env kind ws actor
            (entry_of kind ws amount d db)
            (push_entry (entry_of kind ws amount d db) db))
        ≡ wallet v (push_entry (entry_of kind ws amount d db) db)
  written-wallet v db = wallet-ledger v _ _ (
      ledger-audited env kind ws actor (entry_of kind ws amount d db)
        (push_entry (entry_of kind ws amount d db) db))

  written-spent :
      (db : Db)
      → wallet ws (
          audited env kind ws actor
            (entry_of kind ws amount d db)
            (push_entry (entry_of kind ws amount d db) db))
        ≡ record {
          balance = get_credit_balance ws db +ℤ delta_of kind amount;
          used = spend_key d.idempotency_key (λ k. is_some (existing_entry ws k db));
        }
  written-spent db =
      written-wallet ws db
      ∙ wallet-push ws (entry_of kind ws amount d db) db refl
      ∙ ap
          (λ key. record {
            balance = get_credit_balance ws db +ℤ delta_of kind amount;
            used = spend_key key (λ k. is_some (existing_entry ws k db));
          })
          (details_of_key kind amount d)

  normal-wallet_step :
      (db : Db)
      → let (r, db') = run_normal env kind ws amount d actor db in
        let (o, w) = wallet_step kind amount d.idempotency_key (wallet ws db) in
        (outcome_of r ≡ o) × (wallet ws db' ≡ w)
  unfolding wallet_step
  normal-wallet_step db = elim (Option-cases (existing_entry ws d.idempotency_key db)) [
    | inl h ↦ ground (arith, written-spent db)
    | inr (e, h) ↦ ground arith
  ]

module _ (env : Env) (kind : CreditKind) (ws : ℕ) (amount : ℤ) (d : Details)
    (actor : Option ℕ) where
  -- Each operation of the ledger, on every branch, answers as the wallet answers and leaves the
  -- workspace with the balance and the spent keys of the wallet's next state.
  pub run_credit-wallet_step :
      (db : Db)
      → let (r, db') = run_credit env kind ws amount d actor db in
        let (o, w) = wallet_step kind amount d.idempotency_key (wallet ws db) in
        (outcome_of r ≡ o) × (wallet ws db' ≡ w)
  run_credit-wallet_step db =
      rw (run_normal_lem env ws amount d actor db kind)
        (normal-wallet_step env kind ws amount d actor db)

  -- An operation for one workspace changes neither the balance nor the spent keys of another.
  pub run_credit-wallet_ne :
      (v : ℕ) (db : Db)
      → ws ≢ v
      → wallet v (run_credit env kind ws amount d actor db).1 ≡ wallet v db
  run_credit-wallet_ne v db h = elim (ledger-run_credit env kind ws amount d actor db) [
    | inl same ↦ wallet-ledger v _ db same
    | inr (_, pushed) ↦
        wallet-ledger v _ (push_entry (entry_of kind ws amount d db) db) pushed
        ∙ wallet-push_ne v (entry_of kind ws amount d db) db h
  ]
