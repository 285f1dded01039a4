-- ===== src/Billing/Ledger/Runs.antt =====
-- Every operation in one form: refuse, replay, refuse for want of credits, or write one row.
use moment_flow.Common.{
  ℕ, suc, ℤ, pos, leb_ℤ, ltb_ℤ, ◌≡◌, refl, ◌⊎◌, inl, inr, Bool, true, false, ◌&&◌, Option, some,
  none, [], ◌∷◌, arith, str, if◌then◌else◌, Option-cases,
}
use moment_flow.Store.{Env, Db}
use moment_flow.Store.Billing.{LedgerEntry, TransactionType}
use moment_flow.Store.Exec.{Error, Result, ok, err}
use moment_flow.Billing.Ledger.{
  Details, CreditKind, existing_entry, get_credit_balance, new_entry, consumption, audit_if_created,
  run_credit, grant_credits, purchase_credits, reserve_credits, reserve_new, consume_credits,
  consume_entry, consume_available, release_reserved_credits, refund_credits,
}
use moment_flow.Billing.Ledger.Wallet.{delta_of, is_guarded}
use moment_flow.Billing.Ledger.Entries.{record_replay, record_new}

abbrev pub type_of : CreditKind → TransactionType
type_of CreditKind.grant = TransactionType.grant
type_of CreditKind.purchase = TransactionType.purchase
type_of CreditKind.reserve = TransactionType.reserve
type_of CreditKind.consume = TransactionType.consume
type_of CreditKind.settle = TransactionType.consume
type_of CreditKind.release = TransactionType.release
type_of CreditKind.refund = TransactionType.refund

abbrev pub details_of : CreditKind → ℤ → Details → Details
details_of CreditKind.purchase amount d = record d {
  related_entity_type = [];
  related_entity_id = [];
}
details_of CreditKind.consume amount d = consumption amount d
details_of CreditKind.settle amount d = consumption amount d
details_of _ amount d = d

-- The row that the operation writes.
abbrev pub entry_of : CreditKind → ℕ → ℤ → Details → Db → LedgerEntry
entry_of kind ws amount d db =
    new_entry ws (type_of kind) (delta_of kind amount) (details_of kind amount d) db

abbrev pub push_entry : LedgerEntry → Db → Db
push_entry e db = record db { drawn = suc db.drawn; ledger = e ∷ db.ledger }

-- What the audit adds.
abbrev pub audited : Env → CreditKind → ℕ → Option ℕ → LedgerEntry → Db → Db
audited env CreditKind.grant ws actor e db =
    (audit_if_created env (str "credits.granted") ws actor (e, true) db).1
audited env CreditKind.consume ws actor e db =
    (audit_if_created env (str "credits.consumed") ws none (e, true) db).1
audited env CreditKind.settle ws actor e db =
    (audit_if_created env (str "credits.consumed") ws none (e, true) db).1
audited env _ ws actor e db = db

abbrev pub run_normal :
    Env → CreditKind → ℕ → ℤ → Details → Option ℕ → Db → Result (LedgerEntry × Bool) × Db
run_normal env kind ws amount d actor db =
    if leb_ℤ amount (pos 0)
    then (err Error.value_error, db)
    else elim (existing_entry ws d.idempotency_key db) [
      | some e ↦ (ok (e, false), db)
      | none ↦
          if is_guarded kind && ltb_ℤ (get_credit_balance ws db) amount
          then (err (Error.insufficient_credits amount (get_credit_balance ws db)), db)
          else (
            ok (entry_of kind ws amount d db, true),
            audited env kind ws actor (entry_of kind ws amount d db)
                (push_entry (entry_of kind ws amount d db) db),
          )
    ]

-- An operation on a spent key writes nothing; the guards of the code stand before the write.
module _ (env : Env) (ws : ℕ) (amount : ℤ) (d : Details) (actor : Option ℕ) (db : Db) where
  replay_normal :
      (kind : CreditKind) (e : LedgerEntry)
      → existing_entry ws d.idempotency_key db ≡ some e
      → run_credit env kind ws amount d actor db ≡ run_normal env kind ws amount d actor db
  unfolding run_credit grant_credits purchase_credits reserve_credits reserve_new consume_credits
      consume_entry consume_available release_reserved_credits refund_credits audit_if_created
      delta_of is_guarded
  replay_normal CreditKind.grant e h = ground (
    arith,
    record_replay ws (type_of CreditKind.grant) (delta_of CreditKind.grant amount)
        (details_of CreditKind.grant amount d) db e h,
  )
  replay_normal CreditKind.purchase e h = ground (
    arith,
    record_replay ws (type_of CreditKind.purchase) (delta_of CreditKind.purchase amount)
        (details_of CreditKind.purchase amount d) db e h,
  )
  replay_normal CreditKind.reserve e h = ground (
    arith,
    record_replay ws (type_of CreditKind.reserve) (delta_of CreditKind.reserve amount)
        (details_of CreditKind.reserve amount d) db e h,
  )
  replay_normal CreditKind.consume e h = ground (
    arith,
    record_replay ws (type_of CreditKind.consume) (delta_of CreditKind.consume amount)
        (details_of CreditKind.consume amount d) db e h,
  )
  replay_normal CreditKind.settle e h = ground (
    arith,
    record_replay ws (type_of CreditKind.settle) (delta_of CreditKind.settle amount)
        (details_of CreditKind.settle amount d) db e h,
  )
  replay_normal CreditKind.release e h = ground (
    arith,
    record_replay ws (type_of CreditKind.release) (delta_of CreditKind.release amount)
        (details_of CreditKind.release amount d) db e h,
  )
  replay_normal CreditKind.refund e h = ground (
    arith,
    record_replay ws (type_of CreditKind.refund) (delta_of CreditKind.refund amount)
        (details_of CreditKind.refund amount d) db e h,
  )

  new_normal :
      (kind : CreditKind)
      → existing_entry ws d.idempotency_key db ≡ none
      → run_credit env kind ws amount d actor db ≡ run_normal env kind ws amount d actor db
  unfolding run_credit grant_credits purchase_credits reserve_credits reserve_new consume_credits
      consume_entry consume_available release_reserved_credits refund_credits audit_if_created
      delta_of is_guarded
  new_normal CreditKind.grant h = ground (
    arith,
    record_new ws (type_of CreditKind.grant) (delta_of CreditKind.grant amount)
        (details_of CreditKind.grant amount d) db h,
  )
  new_normal CreditKind.purchase h = ground (
    arith,
    record_new ws (type_of CreditKind.purchase) (delta_of CreditKind.purchase amount)
        (details_of CreditKind.purchase amount d) db h,
  )
  new_normal CreditKind.reserve h = ground (
    arith,
    record_new ws (type_of CreditKind.reserve) (delta_of CreditKind.reserve amount)
        (details_of CreditKind.reserve amount d) db h,
  )
  new_normal CreditKind.consume h = ground (
    arith,
    record_new ws (type_of CreditKind.consume) (delta_of CreditKind.consume amount)
        (details_of CreditKind.consume amount d) db h,
  )
  new_normal CreditKind.settle h = ground (
    arith,
    record_new ws (type_of CreditKind.settle) (delta_of CreditKind.settle amount)
        (details_of CreditKind.settle amount d) db h,
  )
  new_normal CreditKind.release h = ground (
    arith,
    record_new ws (type_of CreditKind.release) (delta_of CreditKind.release amount)
        (details_of CreditKind.release amount d) db h,
  )
  new_normal CreditKind.refund h = ground (
    arith,
    record_new ws (type_of CreditKind.refund) (delta_of CreditKind.refund amount)
        (details_of CreditKind.refund amount d) db h,
  )

  pub run_normal_lem :
      (kind : CreditKind)
      → run_credit env kind ws amount d actor db ≡ run_normal env kind ws amount d actor db
  run_normal_lem kind = elim (Option-cases (existing_entry ws d.idempotency_key db)) [
    | inl h ↦ new_normal kind h
    | inr (e, h) ↦ replay_normal kind e h
  ]

pub ledger-audited :
    (env : Env) (kind : CreditKind) (ws : ℕ) (actor : Option ℕ) (e : LedgerEntry) (db : Db)
    → (audited env kind ws actor e db).ledger ≡ db.ledger
unfolding audit_if_created
ledger-audited env CreditKind.grant ws actor e db = refl
ledger-audited env _ ws actor e db = refl

-- An operation leaves the table alone, or puts its row in front of it, under a key not yet spent.
module _ (env : Env) (kind : CreditKind) (ws : ℕ) (amount : ℤ) (d : Details)
    (actor : Option ℕ) where
  abbrev pub Kept : Db → Db → Type 0
  Kept db db' =
      (db'.ledger ≡ db.ledger)
      ⊎ ((existing_entry ws d.idempotency_key db ≡ none)
          × (db'.ledger ≡ entry_of kind ws amount d db ∷ db.ledger))

  ledger-normal : (db : Db) → Kept db (run_normal env kind ws amount d actor db).1
  ledger-normal db = ground (
    arith,
    ledger-audited env kind ws actor (entry_of kind ws amount d db)
        (push_entry (entry_of kind ws amount d db) db),
  )

  pub ledger-run_credit : (db : Db) → Kept db (run_credit env kind ws amount d actor db).1
  ledger-run_credit db = rw (run_normal_lem env ws amount d actor db kind) (ledger-normal db)
