-- ===== src/Billing/Ledger/Valid.antt =====
-- The table as the model's docstring describes it: append-only, `balance_after` of each row the sum
-- of the amounts up to it, and no key of a workspace on two rows.
use mathlib.Core.Path.{subst}
use mathlib.Core.List.{append_assoc}
use moment_flow.Common.{
  ℕ, ℤ, ◌+ℤ◌, ◌≡◌, refl, sym, ap, ◌∙◌, ◌⊎◌, inl, inr, true, List, [], ◌∷◌, ◌++◌, none, arith,
  is_blank,
}
use moment_flow.Store.{Db}
use moment_flow.Store.Billing.{LedgerEntry}
use moment_flow.Billing.Ledger.{
  Details, CreditKind, find_entry, existing_entry, sum_amounts, get_credit_balance,
}
use moment_flow.Billing.Ledger.Runs.{entry_of, ledger-run_credit}
use moment_flow.Billing.Ledger.Refinement.{details_of_key}
use moment_flow.Billing.Ledger.Safety.{Call, run_call, run_calls}

-- A row above the rows `es` that are older.
pub record IsEntry (e : LedgerEntry) (es : List LedgerEntry) : Type 0 where
  pub balance : e.balance_after ≡ sum_amounts e.workspace es +ℤ e.amount
  pub unspent :
      (is_blank e.idempotency_key ≡ true) ⊎ (find_entry e.workspace e.idempotency_key es ≡ none)

abbrev pub IsLedger : List LedgerEntry → Type 0
IsLedger [] = Unit
IsLedger (e ∷ es) = IsEntry e es × IsLedger es

entry_of-IsEntry :
    (kind : CreditKind) (ws : ℕ) (amount : ℤ) (d : Details) (db : Db)
    → existing_entry ws d.idempotency_key db ≡ none
    → IsEntry (entry_of kind ws amount d db) db.ledger
unfolding existing_entry get_credit_balance
entry_of-IsEntry kind ws amount d db h = record {
  balance = refl;
  unspent = rw (details_of_key kind amount d) (ground arith);
}

run_call-IsLedger : (c : Call) (db : Db) → IsLedger db.ledger → IsLedger (run_call c db).ledger
run_call-IsLedger c db h =
    elim (ledger-run_credit c.env c.kind c.workspace c.amount c.details c.actor db) [
      | inl same ↦ rw same h
      | inr (unspent, pushed) ↦
          rw pushed (entry_of-IsEntry c.kind c.workspace c.amount c.details db unspent, h)
    ]

-- Any calls keep the table well formed: every row's `balance_after` is the sum of its workspace's
-- amounts up to it, and no two rows of a workspace share a key that is not blank.
pub run_calls-IsLedger :
    (cs : List Call) (db : Db) → IsLedger db.ledger → IsLedger (run_calls cs db).ledger
run_calls-IsLedger [] db h = h
run_calls-IsLedger (c ∷ cs) db h = run_calls-IsLedger cs (run_call c db) (run_call-IsLedger c db h)

-- `balance_after` of the newest row is the balance.
pub newest_balance :
    (ws : ℕ) (db : Db) (e : LedgerEntry) (es : List LedgerEntry)
    → db.ledger ≡ e ∷ es
    → e.workspace ≡ ws
    → IsLedger db.ledger
    → e.balance_after ≡ get_credit_balance ws db
unfolding get_credit_balance sum_amounts
newest_balance ws db e es h w valid = rw h (ground (arith, (subst IsLedger h valid).0.balance))

-- The table is append-only: what was there stays, under the new rows.
pub run_calls_append :
    (cs : List Call) (db : Db)
    → (new : List LedgerEntry) × ((run_calls cs db).ledger ≡ new ++ db.ledger)
run_calls_append [] db = ([], refl)
run_calls_append (c ∷ cs) db =
    let (new, e) = run_calls_append cs (run_call c db) in
    elim (ledger-run_credit c.env c.kind c.workspace c.amount c.details c.actor db) [
      | inl same ↦ (new, e ∙ ap (λ (l : List LedgerEntry). new ++ l) same)
      | inr (_, pushed) ↦
          let row : LedgerEntry = entry_of c.kind c.workspace c.amount c.details db in
          (
            new ++ row ∷ [],
            e
                ∙ ap (λ (l : List LedgerEntry). new ++ l) pushed
                ∙ sym (append_assoc new (row ∷ []) db.ledger),
          )
    ]
