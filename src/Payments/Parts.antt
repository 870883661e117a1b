-- ===== src/Payments/Parts.antt =====
-- A call of `confirmPaymentInTransaction` of payment-orchestrator.service.ts that returns, taken apart.
use amazingchance.Base.{
  pos, ◌&&◌, String, ◌≡◌, sym, ap, ◌∙◌, inl, inr, true, not, some, List, ◌∷◌, find, count_where,
  ◌==◌, Bool-cases, arith, ok, ok_pair, >>=-eq-ok, throw_if, throw_if-eq-ok, or_throw,
  or_throw-eq-ok,
}
use amazingchance.Finance.Allocation.{FinancialAllocation, resolve_and_allocate}
use amazingchance.Ledger.Types.{LedgerTables, AppendLedgerTransactionResult}
use amazingchance.Ledger.Service.{append_in_transaction}
use amazingchance.Tickets.Allocation.{TicketTables, ReserveTicketRangeResult, reserve_range}
use amazingchance.Payments.Tables.{
  completed, same_purchase_status, Payment, Purchase, Ticket, PaymentTables, is_payment,
  is_purchase, of_purchase, ConfirmPaymentResult,
}
use amazingchance.Payments.Bookings.{confirmation, division}
use amazingchance.Payments.Completed.{validate_completed_purchase}
use amazingchance.Payments.Issuing.{
  Supplied, paid_at, check_payment, check_sale, issue_tickets, complete_purchase, completion_event,
  notify, range_input,
}
use amazingchance.Payments.Confirmation.{complete, confirm_pending, confirm_payment_in_transaction}

-- The parts of `complete`.
pub record IsConfirmation (s : Supplied) (payment : Payment) (purchase : Purchase)
    (db u : PaymentTables) (r : ConfirmPaymentResult) : Type 0 where
  pub paid : LedgerTables × AppendLedgerTransactionResult
  pub allocation : FinancialAllocation
  pub divided : LedgerTables × AppendLedgerTransactionResult
  pub reserved : TicketTables × ReserveTicketRangeResult
  pub tickets : List Ticket
  pub purchases : List Purchase
  pub pays :
      append_in_transaction s.ledger_id s.now (confirmation payment purchase) db.ledger ≡ ok paid
  pub allocates :
      resolve_and_allocate db.rules payment.amount_minor (some (paid_at payment)) ≡ ok allocation
  pub divides :
      append_in_transaction s.allocation_ledger_id s.now
        (division payment purchase allocation)
        paid.0
      ≡ ok divided
  pub reserves : reserve_range s.range_id db.ranges (range_input s purchase) ≡ ok reserved
  pub issues : issue_tickets s purchase reserved.1 db.tickets ≡ ok tickets
  pub counted : count_where (of_purchase purchase.id) tickets ≡ purchase.requested_ticket_count
  pub completes : complete_purchase s payment purchase db.purchases ≡ ok purchases
  pub tables : u ≡ record db {
    purchases = purchases;
    ledger = divided.0;
    ranges = reserved.0;
    tickets = tickets;
    events = completion_event s purchase ∷ db.events;
    outbox = notify purchase reserved.1 db.tickets db.outbox;
  }
  pub result : r ≡ record {
    purchase_id = purchase.id;
    payment_id = payment.id;
    ledger_transaction_id = paid.1.transaction.id;
    allocation_ledger_transaction_id = divided.1.transaction.id;
    allocation_rule_version = pos allocation.rule_version;
    ticket_count = count_where (of_purchase purchase.id) tickets;
    already_processed =
        paid.1.already_appended && divided.1.already_appended && reserved.1.already_allocated;
  }

complete-parts :
    (s : Supplied) (payment : Payment) (purchase : Purchase) (db : PaymentTables)
    {u : PaymentTables} {r : ConfirmPaymentResult}
    → complete s payment purchase db ≡ ok (u, r)
    → IsConfirmation s payment purchase db u r
unfolding complete
complete-parts s payment purchase db h =
    let (paid, a, h0) =
      >>=-eq-ok (append_in_transaction s.ledger_id s.now (confirmation payment purchase) db.ledger)
        _ h in
    let (allocation, b, h1) =
      >>=-eq-ok (resolve_and_allocate db.rules payment.amount_minor (some (paid_at payment))) _
        h0 in
    let (divided, c, h2) =
      >>=-eq-ok
        (append_in_transaction s.allocation_ledger_id s.now (division payment purchase allocation)
          paid.0)
        _ h1 in
    let (reserved, d, h3) =
      >>=-eq-ok (reserve_range s.range_id db.ranges (range_input s purchase)) _ h2 in
    let (tickets, e, h4) = >>=-eq-ok (issue_tickets s purchase reserved.1 db.tickets) _ h3 in
    let count = count_where (of_purchase purchase.id) tickets in
    let (_, f, h5) = >>=-eq-ok (throw_if (not (count == purchase.requested_ticket_count)) _) _ h4 in
    let (purchases, k, h6) = >>=-eq-ok (complete_purchase s payment purchase db.purchases) _ h5 in
    let counts = throw_if-eq-ok (not (count == purchase.requested_ticket_count)) _ f in
    let done = ok_pair h6 in
    record {
      paid = paid;
      allocation = allocation;
      divided = divided;
      reserved = reserved;
      tickets = tickets;
      purchases = purchases;
      pays = a;
      allocates = b;
      divides = c;
      reserves = d;
      issues = e;
      counted = ground arith;
      completes = k;
      tables = sym done.0;
      result = sym done.1;
    }

-- What a call found and did that returned: a purchase that was completed, or one it completed.
pub data Confirms (s : Supplied) (payment_id : String) (db u : PaymentTables)
    (r : ConfirmPaymentResult) : Type 0 where
  found_completed :
      (payment : Payment) (purchase : Purchase)
      → find (is_payment payment_id) db.payments ≡ some payment
      → find (is_purchase payment.purchase_id) db.purchases ≡ some purchase
      → same_purchase_status purchase.status completed ≡ true
      → validate_completed_purchase db payment.id purchase ≡ ok r
      → u ≡ db
      → Confirms s payment_id db u r
  confirms_now :
      (payment : Payment) (purchase : Purchase)
      → find (is_payment payment_id) db.payments ≡ some payment
      → find (is_purchase payment.purchase_id) db.purchases ≡ some purchase
      → check_payment payment purchase ≡ ok tt
      → check_sale db.draws payment purchase ≡ ok tt
      → IsConfirmation s payment purchase db u r
      → Confirms s payment_id db u r

pub confirm_payment_in_transaction-cases :
    (s : Supplied) (payment_id : String) (db : PaymentTables) {u : PaymentTables}
    {r : ConfirmPaymentResult}
    → confirm_payment_in_transaction s payment_id db ≡ ok (u, r)
    → Confirms s payment_id db u r
unfolding confirm_payment_in_transaction confirm_pending
confirm_payment_in_transaction-cases s payment_id db {u} {r} h =
    let (payment, a, h0) = >>=-eq-ok (or_throw (find (is_payment payment_id) db.payments) _) _ h in
    let (purchase, b, h1) =
      >>=-eq-ok (or_throw (find (is_purchase payment.purchase_id) db.purchases) _) _ h0 in
    let at_payment = or_throw-eq-ok (find (is_payment payment_id) db.payments) _ a in
    let at_purchase = or_throw-eq-ok (find (is_purchase payment.purchase_id) db.purchases) _ b in
    elim (Bool-cases (same_purchase_status purchase.status completed)) [
      | inl done ↦
          let (r', c, h2) =
            >>=-eq-ok (validate_completed_purchase db payment.id purchase) _ (rw done at h1) in
          let same = ok_pair h2 in
          found_completed payment purchase at_payment at_purchase done (c ∙ ap ok same.1)
            (sym same.0)
      | inr unfinished ↦
          let (_, c, h2) = >>=-eq-ok (check_payment payment purchase) _ (rw unfinished at h1) in
          let (_, d, h3) = >>=-eq-ok (check_sale db.draws payment purchase) _ h2 in
          confirms_now payment purchase at_payment at_purchase c d
            (complete-parts s payment purchase db h3)
    ]
