-- ===== src/Payments/Confirmation.antt =====
-- PaymentOrchestratorService of payment-orchestrator.service.ts: `confirmPayment`.
use amazingchance.Base.{
  pos, ℕ, suc, zero, ◌-◌, String, Bool, false, not, ◌&&◌, ◌||◌, Option, some, ◌∷◌, find,
  count_where, str_eq, ◌==◌, if◌then◌else◌, Outcome, ok, err, conflict, not_found, plain_error,
  Exception, ◌>>=◌, ◌>>◌, throw_if, or_throw, if_found,
}
use amazingchance.Finance.Allocation.{resolve_and_allocate}
use amazingchance.Ledger.Service.{append_in_transaction}
use amazingchance.Tickets.Allocation.{reserve_range}
use amazingchance.Payments.Tables.{
  completed, same_purchase_status, Purchase, Payment, PaymentTables, is_payment, is_purchase,
  of_purchase, ConfirmPaymentResult,
}
use amazingchance.Payments.Bookings.{confirmation, division}
use amazingchance.Payments.Completed.{validate_completed_purchase}
use amazingchance.Payments.Issuing.{
  Supplied, paid_at, check_payment, check_sale, issue_tickets, complete_purchase, completion_event,
  notify, range_input,
}

-- From the ledger on: the two transactions, the tickets and the purchase.
unfoldable pub complete :
    Supplied → Payment → Purchase → PaymentTables → Outcome (PaymentTables × ConfirmPaymentResult)
unfolding confirmation division issue_tickets complete_purchase notify
complete s payment purchase db = do
  paid ← append_in_transaction s.ledger_id s.now (confirmation payment purchase) db.ledger
  allocation ← resolve_and_allocate db.rules payment.amount_minor (some (paid_at payment))
  divided ←
      append_in_transaction s.allocation_ledger_id s.now (division payment purchase allocation)
        paid.0
  reserved ← reserve_range s.range_id db.ranges (range_input s purchase)
  tickets ← issue_tickets s purchase reserved.1 db.tickets
  throw_if (not (count_where (of_purchase purchase.id) tickets == purchase.requested_ticket_count))
      (conflict "Issued ticket count does not match the purchase")
  purchases ← complete_purchase s payment purchase db.purchases
  ok (
    record db {
      purchases = purchases;
      ledger = divided.0;
      ranges = reserved.0;
      tickets = tickets;
      events = completion_event s purchase ∷ db.events;
      outbox = notify purchase reserved.1 db.tickets db.outbox;
    },
    record {
      purchase_id = purchase.id;
      payment_id = payment.id;
      ledger_transaction_id = paid.1.transaction.id;
      allocation_ledger_transaction_id = divided.1.transaction.id;
      allocation_rule_version = pos allocation.rule_version;
      ticket_count = count_where (of_purchase purchase.id) tickets;
      already_processed =
          paid.1.already_appended && divided.1.already_appended && reserved.1.already_allocated;
    },
  )

unfoldable pub confirm_pending :
    Supplied → Payment → Purchase → PaymentTables → Outcome (PaymentTables × ConfirmPaymentResult)
unfolding check_payment check_sale complete
confirm_pending s payment purchase db = do
  check_payment payment purchase
  check_sale db.draws payment purchase
  complete s payment purchase db

-- A purchase is there by a foreign key.
unfoldable pub confirm_payment_in_transaction :
    Supplied → String → PaymentTables → Outcome (PaymentTables × ConfirmPaymentResult)
unfolding confirm_pending validate_completed_purchase
confirm_payment_in_transaction s payment_id db = do
  payment ← or_throw (find (is_payment payment_id) db.payments) (not_found "Payment not found")
  purchase ←
      or_throw (find (is_purchase payment.purchase_id) db.purchases) (plain_error "TypeError")
  let existing = validate_completed_purchase db payment.id purchase >>= λ r. ok (db, r)
  let fresh = confirm_pending s payment purchase db
  if same_purchase_status purchase.status completed then existing else fresh

abbrev pub is_retryable_transaction_error : Exception → Bool
is_retryable_transaction_error (plain_error code) = str_eq code "P2002" || str_eq code "P2034"
is_retryable_transaction_error _ = false

-- An attempt: what it is supplied with, the tables that it meets, and the error of its commit, if
-- that fails.
pub record Attempt : Type 0 where
  pub supplied : Supplied
  pub tables : PaymentTables
  pub commit_error : Option Exception

unfoldable pub run_attempt : String → Attempt → Outcome (PaymentTables × ConfirmPaymentResult)
unfolding confirm_payment_in_transaction
run_attempt payment_id a = confirm_payment_in_transaction a.supplied payment_id a.tables >>= λ done.
    if_found a.commit_error (λ e. err e) (ok done)

abbrev pub max_transaction_attempts : ℕ
max_transaction_attempts = 3

-- The loop, with so many attempts left.
unfoldable pub confirm_from :
    ℕ → String → (ℕ → Attempt) → Outcome (PaymentTables × ConfirmPaymentResult)
confirm_from zero payment_id attempts =
    err (plain_error "Payment confirmation retry loop exhausted")
confirm_from (suc left) payment_id attempts =
    let again = confirm_from left payment_id attempts in
    elim (run_attempt payment_id (attempts (suc max_transaction_attempts - suc left))) [
      | ok done ↦ ok done
      | err e ↦ if left == 0 || not (is_retryable_transaction_error e) then err e else again
    ]

unfoldable pub confirm_payment :
    String → (ℕ → Attempt) → Outcome (PaymentTables × ConfirmPaymentResult)
unfolding confirm_from
confirm_payment payment_id attempts = confirm_from max_transaction_attempts payment_id attempts
