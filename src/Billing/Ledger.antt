-- ===== src/Billing/Ledger.antt =====
-- The credit ledger of billing/services.py: an append-only table whose sum is the balance, and the
-- six operations on it.
pub mod Wallet
pub mod Runs
pub mod Refinement
pub mod Safety
pub mod Replay
pub mod Valid
pub mod Entries
use moment_flow.Common.{
  ℕ, suc, ℤ, pos, ◌+ℤ◌, negate, ltb_ℤ, leb_ℤ, Bool, true, false, ◌&&◌, not, ◌==◌, Option, none,
  some, List, [], ◌∷◌, Text, str, is_blank, text_eq, is_some, find?, if◌then◌else◌,
}
use moment_flow.Store.{Env, Db}
use moment_flow.Store.Billing.{LedgerEntry, TransactionType}
use moment_flow.Store.Log.{MetaValue, Metadata, ActorType, set_default}
use moment_flow.Store.Exec.{Error, Result, ok, err, Exec, pure, raise_if, gets, ◌>>=◌, ◌>>◌}
use moment_flow.Audit.{record_audit_event}

-- The keyword arguments that the operations pass on to the entry.
pub record Details : Type 0 where
  pub reason : Text
  pub related_entity_type : Text
  pub related_entity_id : Text
  pub idempotency_key : Text
  pub metadata : Metadata

abbrev pub has_key : ℕ → Text → LedgerEntry → Bool
has_key ws key e = e.workspace == ws && text_eq e.idempotency_key key

-- `CreditLedgerEntry.objects.filter(workspace=…, idempotency_key=…).first()`
unfoldable pub find_entry : ℕ → Text → List LedgerEntry → Option LedgerEntry
find_entry ws key = find? (has_key ws key)

-- `filter(workspace=…).aggregate(Sum("amount"))`, zero on no rows
unfoldable pub sum_amounts : ℕ → List LedgerEntry → ℤ
sum_amounts ws [] = pos 0
sum_amounts ws (e ∷ es) =
    if e.workspace == ws then sum_amounts ws es +ℤ e.amount else sum_amounts ws es

unfoldable pub get_credit_balance : ℕ → Db → ℤ
get_credit_balance ws db = sum_amounts ws db.ledger

-- `CreditLedgerEntry.objects.create(…)`, with the unique constraint on workspace and key of the rows
-- that have a key
unfoldable pub create_entry : LedgerEntry → Exec Db LedgerEntry
create_entry e db =
    if not (is_blank e.idempotency_key)
      && is_some (find_entry e.workspace e.idempotency_key db.ledger)
    then (err Error.integrity_error, db)
    else (ok e, record db { drawn = suc db.drawn; ledger = e ∷ db.ledger })

-- `if idempotency_key: existing = …`
unfoldable pub existing_entry : ℕ → Text → Db → Option LedgerEntry
existing_entry ws key db = if is_blank key then none else find_entry ws key db.ledger

-- The `except IntegrityError` of `_record_ledger_entry`: the row of the winner, if it is there.
unfoldable pub or_winner : ℕ → Text → Result LedgerEntry × Db → Result (LedgerEntry × Bool) × Db
or_winner ws key (ok e, db) = (ok (e, true), db)
or_winner ws key (err Error.integrity_error, db) = elim (find_entry ws key db.ledger) [
  | some e ↦ (ok (e, false), db)
  | none ↦ (err Error.integrity_error, db)
]
or_winner ws key (err x, db) = (err x, db)

-- The row that `_record_ledger_entry` writes.
abbrev pub new_entry : ℕ → TransactionType → ℤ → Details → Db → LedgerEntry
new_entry ws ty delta d db = record {
  id = db.drawn;
  workspace = ws;
  transaction_type = ty;
  amount = delta;
  balance_after = get_credit_balance ws db +ℤ delta;
  reason = d.reason;
  related_entity_type = d.related_entity_type;
  related_entity_id = d.related_entity_id;
  idempotency_key = d.idempotency_key;
  metadata = d.metadata;
}

unfoldable pub record_ledger_entry :
    ℕ → TransactionType → ℤ → Details → Exec Db (LedgerEntry × Bool)
record_ledger_entry ws ty delta d db = elim (existing_entry ws d.idempotency_key db) [
  | some e ↦ (ok (e, false), db)
  | none ↦ or_winner ws d.idempotency_key (create_entry (new_entry ws ty delta d db) db)
]

unfoldable pub record_credit_audit : Env → Text → ℕ → LedgerEntry → Option ℕ → Exec Db (Unit {0})
unfolding record_audit_event
record_credit_audit env action ws entry actor =
    record_audit_event (record {
      action = action;
      workspace = some ws;
      actor_user = actor;
      actor_type = elim actor [ some u ↦ none | none ↦ some ActorType.system ];
      entity_type = str "credit_ledger_entry";
      entity_id = env.uuid_text entry.id;
      before_data = [];
      after_data =
          (str "amount", MetaValue.decimal entry.amount)
          ∷ (str "balance_after", MetaValue.decimal entry.balance_after)
          ∷ [];
    })
    >> pure tt

-- `if created: _record_credit_audit(…)`
unfoldable pub audit_if_created :
    Env → Text → ℕ → Option ℕ → LedgerEntry × Bool → Exec Db (LedgerEntry × Bool)
unfolding record_credit_audit
audit_if_created env action ws actor (entry, true) =
    record_credit_audit env action ws entry actor >> pure (entry, true)
audit_if_created env action ws actor (entry, false) = pure (entry, false)

unfoldable pub grant_credits : Env → ℕ → ℤ → Details → Option ℕ → Exec Db (LedgerEntry × Bool)
grant_credits env ws amount d actor = do
  raise_if (leb_ℤ amount (pos 0)) Error.value_error
  r ← record_ledger_entry ws TransactionType.grant amount d
  audit_if_created env (str "credits.granted") ws actor r

unfoldable pub purchase_credits : ℕ → ℤ → Details → Exec Db (LedgerEntry × Bool)
purchase_credits ws amount d = do
  raise_if (leb_ℤ amount (pos 0)) Error.value_error
  record_ledger_entry ws TransactionType.purchase amount
      (record d { related_entity_type = []; related_entity_id = [] })

-- The body of `reserve_credits` below its replay check.
unfoldable pub reserve_new : ℕ → ℤ → Details → Exec Db (LedgerEntry × Bool)
reserve_new ws amount d = do
  balance ← gets (get_credit_balance ws)
  raise_if (ltb_ℤ balance amount) (Error.insufficient_credits amount balance)
  record_ledger_entry ws TransactionType.reserve (negate amount) d

unfoldable pub reserve_credits : ℕ → ℤ → Details → Exec Db (LedgerEntry × Bool)
reserve_credits ws amount d = do
  raise_if (leb_ℤ amount (pos 0)) Error.value_error
  existing ← gets (existing_entry ws d.idempotency_key)
  elim existing [ some e ↦ pure (e, false) | none ↦ reserve_new ws amount d ]

-- `meta = dict(metadata or {}); meta.setdefault("consumed_amount", str(amount))`
abbrev pub consumption : ℤ → Details → Details
consumption amount d = record d {
  metadata = set_default (str "consumed_amount") (MetaValue.decimal amount) d.metadata;
}

-- `consume_credits` from the entry on, with the delta that was decided.
unfoldable pub consume_entry : Env → ℕ → ℤ → ℤ → Details → Exec Db (LedgerEntry × Bool)
consume_entry env ws amount delta d = do
  r ← record_ledger_entry ws TransactionType.consume delta (consumption amount d)
  audit_if_created env (str "credits.consumed") ws none r

-- The `else` branch of `consume_credits` below its replay check.
unfoldable pub consume_available : Env → ℕ → ℤ → Details → Exec Db (LedgerEntry × Bool)
consume_available env ws amount d = do
  balance ← gets (get_credit_balance ws)
  raise_if (ltb_ℤ balance amount) (Error.insufficient_credits amount balance)
  consume_entry env ws amount (negate amount) d

unfoldable pub consume_credits : Env → ℕ → ℤ → Bool → Details → Exec Db (LedgerEntry × Bool)
consume_credits env ws amount true d = do
  raise_if (leb_ℤ amount (pos 0)) Error.value_error
  consume_entry env ws amount (pos 0) d
consume_credits env ws amount false d = do
  raise_if (leb_ℤ amount (pos 0)) Error.value_error
  existing ← gets (existing_entry ws d.idempotency_key)
  elim existing [ some e ↦ pure (e, false) | none ↦ consume_available env ws amount d ]

unfoldable pub release_reserved_credits : ℕ → ℤ → Details → Exec Db (LedgerEntry × Bool)
release_reserved_credits ws amount d = do
  raise_if (leb_ℤ amount (pos 0)) Error.value_error
  record_ledger_entry ws TransactionType.release amount d

unfoldable pub refund_credits : ℕ → ℤ → Details → Exec Db (LedgerEntry × Bool)
refund_credits ws amount d = do
  raise_if (leb_ℤ amount (pos 0)) Error.value_error
  record_ledger_entry ws TransactionType.refund amount d

-- The operations of the ledger. `settle` is `consume_credits` with `settle_reserved=True`.
pub data CreditKind : Type 0 where
  grant purchase reserve consume settle release refund : CreditKind

unfoldable pub run_credit :
    Env → CreditKind → ℕ → ℤ → Details → Option ℕ → Exec Db (LedgerEntry × Bool)
run_credit env CreditKind.grant ws amount d actor = grant_credits env ws amount d actor
run_credit env CreditKind.purchase ws amount d actor = purchase_credits ws amount d
run_credit env CreditKind.reserve ws amount d actor = reserve_credits ws amount d
run_credit env CreditKind.consume ws amount d actor = consume_credits env ws amount false d
run_credit env CreditKind.settle ws amount d actor = consume_credits env ws amount true d
run_credit env CreditKind.release ws amount d actor = release_reserved_credits ws amount d
run_credit env CreditKind.refund ws amount d actor = refund_credits ws amount d
