-- ===== src/Examples/LedgerExamples.antt =====
-- The credit ledger on concrete calls.
use moment_flow.Common.{
  pos, ◌+ℤ◌, ltb_ℤ, ◌≡◌, refl, true, false, none, List, [], ◌∷◌, arith, Text, str, text_eq,
}
use moment_flow.Store.{Db}
use moment_flow.Store.Billing.{LedgerEntry}
use moment_flow.Store.Exec.{Error, ok, err}
use moment_flow.Billing.Ledger.{
  CreditKind, find_entry, sum_amounts, get_credit_balance, create_entry, existing_entry, or_winner,
  record_ledger_entry, run_credit, grant_credits, reserve_credits, reserve_new, audit_if_created,
}
use moment_flow.Billing.Ledger.Wallet.{delta_of, wallet_step}
use moment_flow.Billing.Ledger.Runs.{entry_of}
use moment_flow.Billing.Ledger.Refinement.{wallet, outcome_of, run_credit-wallet_step}
use moment_flow.Billing.Ledger.Safety.{Call, run_calls, IsSolvent, run_calls-IsSolvent}
use moment_flow.Billing.Ledger.Valid.{IsLedger, run_calls-IsLedger}
use moment_flow.Billing.Ledger.Replay.{run_credit_retry, reserve_then}
use moment_flow.Examples.Data.{env, empty_db, keyed}

-- Workspace 7 is granted 100 credits.
abbrev granted : Db
granted = (run_credit env CreditKind.grant 7 (pos 1000000) (keyed (str "g")) none empty_db).1

granted_balance : get_credit_balance 7 granted ≡ pos 1000000
unfolding get_credit_balance sum_amounts run_credit grant_credits record_ledger_entry existing_entry
    find_entry or_winner create_entry audit_if_created text_eq ◌+ℤ◌
granted_balance = refl

reserve_too_much :
    (run_credit env CreditKind.reserve 7 (pos 1000001) (keyed (str "r")) none granted).0
    ≡ err (Error.insufficient_credits (pos 1000001) (pos 1000000))
unfolding get_credit_balance sum_amounts run_credit grant_credits reserve_credits reserve_new
    record_ledger_entry existing_entry find_entry or_winner create_entry audit_if_created text_eq
    ◌+ℤ◌
reserve_too_much = refl

run_credit-wallet_step_example :
    let (r, db) = run_credit env CreditKind.reserve 7 (pos 30) (keyed (str "r")) none granted in
    let (o, w) = wallet_step CreditKind.reserve (pos 30) (str "r") (wallet 7 granted) in
    (outcome_of r ≡ o) × (wallet 7 db ≡ w)
run_credit-wallet_step_example =
    run_credit-wallet_step env CreditKind.reserve 7 (pos 30) (keyed (str "r")) none granted

abbrev calls : List Call
calls =
    record {
      env = env;
      kind = CreditKind.grant;
      workspace = 7;
      amount = pos 50;
      details = keyed (str "g");
      actor = none;
    }
    ∷ record {
      env = env;
      kind = CreditKind.reserve;
      workspace = 7;
      amount = pos 20;
      details = keyed (str "r");
      actor = none;
    }
    ∷ record {
      env = env;
      kind = CreditKind.consume;
      workspace = 7;
      amount = pos 40;
      details = keyed [];
      actor = none;
    }
    ∷ []

empty-IsSolvent : IsSolvent empty_db
unfolding get_credit_balance sum_amounts
empty-IsSolvent ws = omega arith

run_calls-IsSolvent_example : IsSolvent (run_calls calls empty_db)
run_calls-IsSolvent_example = run_calls-IsSolvent calls empty_db empty-IsSolvent

run_calls-IsLedger_example : IsLedger (run_calls calls empty_db).ledger
run_calls-IsLedger_example = run_calls-IsLedger calls empty_db tt

abbrev first_entry : LedgerEntry
first_entry = entry_of CreditKind.grant 7 (pos 1000000) (keyed (str "g")) empty_db

first_grant :
    (run_credit env CreditKind.grant 7 (pos 1000000) (keyed (str "g")) none empty_db).0
    ≡ ok (first_entry, true)
unfolding get_credit_balance sum_amounts run_credit grant_credits record_ledger_entry existing_entry
    find_entry or_winner create_entry audit_if_created text_eq ◌+ℤ◌ delta_of
first_grant = refl

run_credit_retry_example :
    run_credit env CreditKind.refund 7 (pos 5) (keyed (str "g")) none granted
    ≡ (ok (first_entry, false), granted)
run_credit_retry_example =
    run_credit_retry env env CreditKind.grant CreditKind.refund 7 (pos 1000000) (pos 5)
      (keyed (str "g")) (keyed (str "g")) none none empty_db first_entry true refl first_grant refl
      refl

granted_fresh : (key : Text) → text_eq (str "g") key ≡ false → existing_entry 7 key granted ≡ none
unfolding existing_entry find_entry run_credit grant_credits record_ledger_entry or_winner
    create_entry audit_if_created
granted_fresh key h = ground (arith)

hold_fits : ltb_ℤ (get_credit_balance 7 granted) (pos 300000) ≡ false
hold_fits = rw granted_balance

reserve_then_example :
    let held =
      (run_credit env CreditKind.reserve 7 (pos 300000) (keyed (str "r")) none granted).1 in
    let settled = (run_credit env CreditKind.settle 7 (pos 300000) (keyed (str "c")) none held).1 in
    let released =
      (run_credit env CreditKind.release 7 (pos 300000) (keyed (str "c")) none held).1 in
    (get_credit_balance 7 held +ℤ pos 300000 ≡ get_credit_balance 7 granted)
    × (get_credit_balance 7 settled ≡ get_credit_balance 7 held)
    × (get_credit_balance 7 released ≡ get_credit_balance 7 granted)
unfolding text_eq existing_entry find_entry run_credit grant_credits record_ledger_entry or_winner
    create_entry audit_if_created
reserve_then_example =
    reserve_then env 7 (pos 300000) (keyed (str "r")) (keyed (str "c")) none granted refl hold_fits
      refl refl refl
