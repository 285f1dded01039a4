-- ===== src/Billing/Ledger/Entries.antt =====
-- What one call of `_record_ledger_entry` does to the table, and that the six operations write
-- through it alone.
use moment_flow.Common.{ℕ, suc, ℤ, ◌≡◌, true, false, none, some, ◌∷◌, arith}
use moment_flow.Store.{Db}
use moment_flow.Store.Billing.{LedgerEntry, TransactionType}
use moment_flow.Store.Exec.{ok}
use moment_flow.Billing.Ledger.{
  Details, existing_entry, create_entry, or_winner, new_entry, record_ledger_entry,
}

module _ (ws : ℕ) (ty : TransactionType) (delta : ℤ) (d : Details) (db : Db) where
  -- A key that is spent returns the row that spent it, and writes nothing.
  pub record_replay :
      (e : LedgerEntry)
      → existing_entry ws d.idempotency_key db ≡ some e
      → record_ledger_entry ws ty delta d db ≡ (ok (e, false), db)
  unfolding record_ledger_entry
  record_replay e h = rw (h, record_ledger_entry)

  -- The unique constraint lets a row through whose key is blank or not spent.
  create-unspent :
      existing_entry ws d.idempotency_key db ≡ none
      → create_entry (new_entry ws ty delta d db) db ≡ (
        ok (new_entry ws ty delta d db),
        record db { drawn = suc db.drawn; ledger = new_entry ws ty delta d db ∷ db.ledger },
      )
  unfolding existing_entry create_entry
  create-unspent h = ground arith

  -- Otherwise one row is put in front.
  pub record_new :
      existing_entry ws d.idempotency_key db ≡ none
      → record_ledger_entry ws ty delta d db ≡ (
        ok (new_entry ws ty delta d db, true),
        record db { drawn = suc db.drawn; ledger = new_entry ws ty delta d db ∷ db.ledger },
      )
  unfolding record_ledger_entry or_winner
  record_new h = rw (h, record_ledger_entry) (rw (create-unspent h, or_winner))
