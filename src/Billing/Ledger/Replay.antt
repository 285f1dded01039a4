-- ===== src/Billing/Ledger/Replay.antt =====
-- Retries never move credits twice, and a hold is settled or returned exactly.
use moment_flow.Common.{
  ℕ, ℤ, pos, negate, ◌+ℤ◌, +ℤ-zero, negate_cancel, leb_ℤ, ltb_ℤ, ◌≡◌, refl, ap, ◌∙◌, ◌&&◌, Bool,
  false, Option, none, some, arith, Text, is_blank, text_eq, text_eq_refl, ◌∷◌, inl, inr, ◌⊎◌,
}
use moment_flow.Store.{Env, Db}
use moment_flow.Store.Billing.{LedgerEntry}
use moment_flow.Store.Exec.{ok}
use moment_flow.Billing.Ledger.{
  Details, CreditKind, find_entry, existing_entry, get_credit_balance, run_credit,
}
use moment_flow.Billing.Ledger.Runs.{
  ledger-audited, push_entry, entry_of, run_normal, run_normal_lem, ledger-run_credit,
}
use moment_flow.Billing.Ledger.Refinement.{details_of_key, run_credit-wallet_step}
use moment_flow.Billing.Ledger.Wallet.{Wallet, wallet_step, delta_of, is_guarded}

-- What a call that returned has done.
record Replayed (ws : ℕ) (d : Details) (e : LedgerEntry) (db db' : Db) : Type 0 where
  pub spent : existing_entry ws d.idempotency_key db ≡ some e
  pub kept : db' ≡ db

record Recorded (ws : ℕ) (d : Details) (e : LedgerEntry) (db db' : Db) : Type 0 where
  pub workspace : e.workspace ≡ ws
  pub key : e.idempotency_key ≡ d.idempotency_key
  pub pushed : db'.ledger ≡ e ∷ db.ledger

module _ (env : Env) (kind : CreditKind) (ws : ℕ) (amount : ℤ) (d : Details)
    (actor : Option ℕ) where
  normal-answer :
      (db : Db) (e : LedgerEntry) (created : Bool)
      → let (r, db') = run_normal env kind ws amount d actor db in
        r ≡ ok (e, created) → Replayed ws d e db db' ⊎ Recorded ws d e db db'
  normal-answer db e created h = ground (
    arith,
    details_of_key kind amount d,
    ledger-audited env kind ws actor (entry_of kind ws amount d db)
        (push_entry (entry_of kind ws amount d db) db),
  )

  answer :
      (db : Db) (e : LedgerEntry) (created : Bool)
      → let (r, db') = run_credit env kind ws amount d actor db in
        r ≡ ok (e, created) → Replayed ws d e db db' ⊎ Recorded ws d e db db'
  answer db e created =
      rw (run_normal_lem env ws amount d actor db kind) (normal-answer db e created)

spent-Recorded :
    (ws : ℕ) (d : Details) (e : LedgerEntry) (db db' : Db)
    → is_blank d.idempotency_key ≡ false
    → Recorded ws d e db db'
    → existing_entry ws d.idempotency_key db' ≡ some e
unfolding existing_entry find_entry
spent-Recorded ws d e db db' key r =
    rw r.pushed (ground (arith, r.workspace, r.key, text_eq_refl d.idempotency_key))

-- After an operation that returned, its key is spent by the row that it returned.
spent_after :
    (env : Env) (kind : CreditKind) (ws : ℕ) (amount : ℤ) (d : Details) (actor : Option ℕ) (db : Db)
    → (e : LedgerEntry) (created : Bool) → is_blank d.idempotency_key ≡ false
    → (run_credit env kind ws amount d actor db).0 ≡ ok (e, created)
    → existing_entry ws d.idempotency_key (run_credit env kind ws amount d actor db).1 ≡ some e
spent_after env kind ws amount d actor db e created key h =
    elim (answer env kind ws amount d actor db e created h) [
      | inl r ↦ rw r.kept r.spent
      | inr r ↦ spent-Recorded ws d e db _ key r
    ]

-- Repeating a call with the same key, at whatever positive amount and by whatever operation, returns
-- the first call's row with `created` false and writes nothing at all.
pub run_credit_retry :
    (env env' : Env) (kind kind' : CreditKind) (ws : ℕ) (amount amount' : ℤ) (d d' : Details)
    → (actor actor' : Option ℕ) (db : Db) (e : LedgerEntry) (created : Bool)
    → is_blank d.idempotency_key ≡ false
    → (run_credit env kind ws amount d actor db).0 ≡ ok (e, created)
    → d'.idempotency_key ≡ d.idempotency_key
    → leb_ℤ amount' (pos 0) ≡ false
    → let db' = (run_credit env kind ws amount d actor db).1 in
      run_credit env' kind' ws amount' d' actor' db' ≡ (ok (e, false), db')
run_credit_retry env env' kind kind' ws amount amount' d d' actor actor' db e created key h k p =
    rw (run_normal_lem env' ws amount' d' actor' (run_credit env kind ws amount d actor db).1 kind')
      (ground (arith, spent_after env kind ws amount d actor db e created key h))

module _ (env : Env) (kind : CreditKind) (ws : ℕ) (amount : ℤ) (d : Details)
    (actor : Option ℕ) where
  -- A positive amount that the guard lets through, under a key that is not spent, moves the balance.
  pub recorded_balance :
      (db : Db)
      → leb_ℤ amount (pos 0) ≡ false
      → existing_entry ws d.idempotency_key db ≡ none
      → (is_guarded kind && ltb_ℤ (get_credit_balance ws db) amount) ≡ false
      → get_credit_balance ws (run_credit env kind ws amount d actor db).1
        ≡ get_credit_balance ws db +ℤ delta_of kind amount
  unfolding wallet_step
  recorded_balance db p fresh g =
      ap (λ (w : Wallet). w.balance) (run_credit-wallet_step env kind ws amount d actor db).1
      ∙ ground arith

  -- A key that differs from the call's stays unspent.
  pub unspent_after :
      (db : Db) (key : Text)
      → existing_entry ws key db ≡ none
      → text_eq d.idempotency_key key ≡ false
      → existing_entry ws key (run_credit env kind ws amount d actor db).1 ≡ none
  unfolding existing_entry find_entry
  unspent_after db key fresh ne =
      ground (arith, ledger-run_credit env kind ws amount d actor db, details_of_key kind amount d)

-- A hold of a positive amount that is there takes it out of the balance; settling the hold leaves the
-- balance there, and releasing it puts the amount back.
pub reserve_then :
    (env : Env) (ws : ℕ) (amount : ℤ) (hold close : Details) (actor : Option ℕ) (db : Db)
    → let balance = get_credit_balance ws db in
      let held = (run_credit env CreditKind.reserve ws amount hold actor db).1 in
      let settled = (run_credit env CreditKind.settle ws amount close actor held).1 in
      let released = (run_credit env CreditKind.release ws amount close actor held).1 in
      leb_ℤ amount (pos 0) ≡ false
      → ltb_ℤ balance amount ≡ false
      → existing_entry ws hold.idempotency_key db ≡ none
      → existing_entry ws close.idempotency_key db ≡ none
      → text_eq hold.idempotency_key close.idempotency_key ≡ false
      → (get_credit_balance ws held +ℤ amount ≡ balance)
        × (get_credit_balance ws settled ≡ get_credit_balance ws held)
        × (get_credit_balance ws released ≡ balance)
unfolding is_guarded delta_of
reserve_then env ws amount hold close actor db p g fresh fresh' ne = (
  ap (λ x. x +ℤ amount) balance-held ∙ negate_cancel (get_credit_balance ws db) amount,
  balance-settled ∙ +ℤ-zero (get_credit_balance ws held),
  balance-released
      ∙ ap (λ x. x +ℤ amount) balance-held
      ∙ negate_cancel (get_credit_balance ws db) amount,
)
  where
    held : Db
    held = (run_credit env CreditKind.reserve ws amount hold actor db).1

    balance-held : get_credit_balance ws held ≡ get_credit_balance ws db +ℤ negate amount
    balance-held = recorded_balance env CreditKind.reserve ws amount hold actor db p fresh g

    open_key : existing_entry ws close.idempotency_key held ≡ none
    open_key =
        unspent_after env CreditKind.reserve ws amount hold actor db close.idempotency_key fresh' ne

    balance-settled :
        get_credit_balance ws (run_credit env CreditKind.settle ws amount close actor held).1
        ≡ get_credit_balance ws held +ℤ pos 0
    balance-settled =
        recorded_balance env CreditKind.settle ws amount close actor held p open_key refl

    balance-released :
        get_credit_balance ws (run_credit env CreditKind.release ws amount close actor held).1
        ≡ get_credit_balance ws held +ℤ amount
    balance-released =
        recorded_balance env CreditKind.release ws amount close actor held p open_key refl
