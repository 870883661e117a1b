-- ===== src/Ledger/Tests.antt =====
-- Runs of the ledger on small tables, and the theorems at them.
use amazingchance.Ledger.Defects.{IsClean}
use amazingchance.Base.{
  some, pos, ◌≡◌, refl, true, none, [], ◌∷◌, ok, err, conflict, state_after, All, is_blank,
  is_currency_code, ◌+ℤ◌,
}
use amazingchance.Ledger.Types.{
  text_value, AppendLedgerTransactionInput, LedgerTables, debit, credit, payment_clearing,
  weekly_jackpot, company_revenue, payment_allocation, adjustment,
}
use amazingchance.Ledger.Service.{
  validate_input, append, append_in_transaction, sum_sides, replay, replay_or, insert_transaction,
}
use amazingchance.Ledger.Validation.{IsWellFormed, validate_input_iff}
use amazingchance.Ledger.Store.{IsValid, with_stored}
use amazingchance.Ledger.Steps.{stored}
use amazingchance.Ledger.Retry.{same, grown, append_in_transaction-retry}
use amazingchance.Ledger.Append.{append-IsValid, stored_result}
use amazingchance.Ledger.Integrity.{
  verify, check_page, check_transaction, check_seal, check_presence, check_postings, check_posting,
  check_balance,
}
use amazingchance.Ledger.Audit.{verify-healthy_iff}

abbrev pub payment : AppendLedgerTransactionInput
payment = record {
  type = payment_allocation;
  idempotency_key = "payment-allocation:p1";
  reference_type = "PAYMENT";
  reference_id = "p1";
  currency = "USD";
  description = none;
  metadata = some (("drawId", text_value "d1") ∷ []);
  postings =
      record { account_code = payment_clearing; side = debit; amount_minor = pos 500 }
      ∷ record { account_code = weekly_jackpot; side = credit; amount_minor = pos 300 }
      ∷ record { account_code = company_revenue; side = credit; amount_minor = pos 200 }
      ∷ [];
}

abbrev pub no_rows : LedgerTables
no_rows = record { transactions = []; postings = [] }

-- The payment's key under another business event.
abbrev adjusted : AppendLedgerTransactionInput
adjusted = record payment { type = adjustment }

abbrev paid : LedgerTables
paid = with_stored "t1" 7 payment no_rows

pub payment-IsWellFormed : IsWellFormed payment
unfolding validate_input is_blank is_currency_code sum_sides ◌+ℤ◌
payment-IsWellFormed = (validate_input_iff payment).0 refl

pub no_rows-IsValid : IsValid no_rows
no_rows-IsValid = record { sound = tt; distinct = tt; foreign_key = tt }

append_payment :
    append_in_transaction "t1" 7 payment no_rows
    ≡ ok (with_stored "t1" 7 payment no_rows, stored_result "t1" 7 payment)
unfolding append_in_transaction validate_input is_blank is_currency_code sum_sides ◌+ℤ◌ replay_or
    insert_transaction
append_payment = refl

reuse_conflicts :
    append "t2" 9 adjusted (with_stored "t1" 7 payment no_rows) no_rows no_rows
    ≡ err (conflict "Ledger idempotency key was reused for another business event")
unfolding append validate_input is_blank is_currency_code sum_sides ◌+ℤ◌ replay_or replay
reuse_conflicts = refl

append-IsValid_example :
    IsValid (state_after no_rows (append "t1" 7 payment no_rows no_rows no_rows))
append-IsValid_example = append-IsValid "t1" 7 payment no_rows no_rows no_rows no_rows-IsValid

-- Another payment.
abbrev second : AppendLedgerTransactionInput
second = record payment { idempotency_key = "second"; reference_id = "p2" }

abbrev paid_twice : LedgerTables
paid_twice = with_stored "t3" 8 second paid

second-IsWellFormed : IsWellFormed second
unfolding validate_input is_blank is_currency_code sum_sides ◌+ℤ◌
second-IsWellFormed = (validate_input_iff second).0 refl

append_in_transaction-retry_example :
    append "t2" 9 payment paid_twice no_rows no_rows
    ≡ ok (no_rows, record (stored_result "t1" 7 payment) { already_appended = true })
append_in_transaction-retry_example =
    append_in_transaction-retry "t1" "t2" 7 9 payment no_rows paid_twice no_rows no_rows
      no_rows-IsValid append_payment
      (grown "t3" 8 second same (stored refl refl second-IsWellFormed refl))

validate_input_iff_example : IsWellFormed payment
unfolding validate_input is_blank is_currency_code sum_sides ◌+ℤ◌
validate_input_iff_example = (validate_input_iff payment).0 refl

verify-healthy_iff_example : All (IsClean paid.postings) paid.transactions
unfolding verify check_page check_transaction check_seal check_presence check_postings check_posting
    check_balance ◌+ℤ◌
verify-healthy_iff_example = (verify-healthy_iff 0 paid).0 refl
