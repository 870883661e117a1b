-- ===== src/Payments/Evidence.antt =====
-- The tickets and the ledger transactions of a payment that `confirmPaymentInTransaction` of
-- payment-orchestrator.service.ts confirmed.
use amazingchance.Base.{
  String, ℕ, ◌+◌, ◌-◌, ◌≡◌, refl, sym, ap, subst, ◌∙◌, true, none, some, List, [], ◌∷◌, map, ok,
}
use amazingchance.Ledger.Types.{MetadataValue, LedgerTransaction}
use amazingchance.Ledger.Service.{find_by_idempotency_key}
use amazingchance.Ledger.Steps.{
  append_in_transaction-Appends, Appends-IsValid, append_in_transaction-found, Appends-keeps,
  Appends-free,
}
use amazingchance.Tickets.Allocation.{TicketAllocation}
use amazingchance.Tickets.Ranges.{reserve_range-new}
use amazingchance.Payments.Tables.{Payment, Purchase, PaymentTables, Ticket, ConfirmPaymentResult}
use amazingchance.Payments.Bookings.{
  division_members, payment_key, allocation_key, confirmation, division, keys_apart,
}
use amazingchance.Payments.Completed.{lookup, whole_number, allocation_of, tickets_of, match_range}
use amazingchance.Payments.Issuing.{
  Supplied, paid_at, check_payment, check_sale, is_pending, complete_row, complete_purchase,
  create_tickets, issue_tickets, numbers_from, range_input,
}
use amazingchance.Payments.Parts.{IsConfirmation}
use amazingchance.Payments.Issued.{rows_from, create_tickets-all, rows-match_range}
use amazingchance.Payments.Soundness.{IsSound}

-- The tickets of a purchase: a range of as many numbers as it asked for, each on one ticket.
pub record HasTickets (purchase : Purchase) (u : PaymentTables) : Type 0 where
  pub range : TicketAllocation
  pub reserved : allocation_of u purchase.id ≡ some range
  pub size : range.end_number + 1 - range.start_number ≡ purchase.requested_ticket_count
  pub numbers :
      map (λ t. t.number_in_draw) (tickets_of purchase.id u.tickets)
      ≡ numbers_from range.start_number purchase.requested_ticket_count
  pub in_order : match_range range.start_number (tickets_of purchase.id u.tickets) ≡ true

module _ (s : Supplied) (payment : Payment) (purchase : Purchase) (db : PaymentTables) where
  numbers_of_rows :
      (ns : List ℕ)
      → map
          (λ (t : Ticket). t.number_in_draw)
          (map (amazingchance.Payments.Issuing.ticket_row s purchase) ns)
        ≡ ns
  numbers_of_rows [] = refl
  numbers_of_rows (n ∷ ns) = ap (◌∷◌ n) (numbers_of_rows ns)

  pub IsConfirmation-HasTickets :
      {u : PaymentTables} {r : ConfirmPaymentResult}
      → allocation_of db purchase.id ≡ none
      → IsConfirmation s payment purchase db u r
      → HasTickets purchase u
  unfolding issue_tickets
  IsConfirmation-HasTickets {u} {r} absent c =
      let n = purchase.requested_ticket_count in
      let (there, new, size) =
        reserve_range-new s.range_id db.ranges (range_input s purchase) n refl absent c.reserves in
      let range = c.reserved.1.allocation in
      let made : create_tickets (rows_from s purchase range.start_number n) db.tickets
          ≡ ok c.tickets =
        subst
          (λ k.
            create_tickets (rows_from s purchase range.start_number k) db.tickets ≡ ok c.tickets)
          size (rw new at c.issues) in
      let rows =
        ap (λ (x : PaymentTables). tickets_of purchase.id x.tickets) c.tables
        ∙ create_tickets-all s purchase range.start_number n db.tickets made c.counted in
      record {
        range = range;
        reserved = ap (λ (x : PaymentTables). allocation_of x purchase.id) c.tables ∙ there;
        size = size;
        numbers =
            ap (map (λ (t : Ticket). t.number_in_draw)) rows
            ∙ numbers_of_rows (numbers_from range.start_number n);
        in_order =
            ap (match_range range.start_number) rows
            ∙ rows-match_range s purchase range.start_number n;
      }

  -- The two transactions of a payment whose allocation is new to the ledger.
  pub record HasBookings (u : PaymentTables) (r : ConfirmPaymentResult) : Type 0 where
    pub paid : LedgerTransaction
    pub divided : LedgerTransaction
    pub at_paid : find_by_idempotency_key u.ledger (payment_key payment.id) ≡ some paid
    pub at_divided : find_by_idempotency_key u.ledger (allocation_key payment.id) ≡ some divided
    pub paid_id : r.ledger_transaction_id ≡ paid.id
    pub divided_id : r.allocation_ledger_transaction_id ≡ divided.id
    pub members : List (String × MetadataValue)
    pub at_members : divided.metadata ≡ some members
    pub version :
        whole_number (lookup "allocationRuleVersion" members) ≡ some r.allocation_rule_version

  pub IsConfirmation-HasBookings :
      {u : PaymentTables} {r : ConfirmPaymentResult}
      → IsSound db
      → find_by_idempotency_key db.ledger (allocation_key payment.id) ≡ none
      → IsConfirmation s payment purchase db u r
      → HasBookings u r
  unfolding find_by_idempotency_key confirmation division lookup
  IsConfirmation-HasBookings {u} {r} v new c =
      let pay = confirmation payment purchase in
      let divide = division payment purchase c.allocation in
      let first = append_in_transaction-Appends s.ledger_id s.now pay db.ledger v.ledger c.pays in
      let v' = Appends-IsValid s.ledger_id s.now pay db.ledger v.ledger first in
      let second =
        append_in_transaction-Appends s.allocation_ledger_id s.now divide c.paid.0 v' c.divides in
      let paid = (append_in_transaction-found s.ledger_id s.now pay db.ledger v.ledger c.pays).0 in
      let (divided, fresh) =
        append_in_transaction-found s.allocation_ledger_id s.now divide c.paid.0 v' c.divides in
      let still_new =
        Appends-free s.ledger_id s.now pay db.ledger (allocation_key payment.id)
          (keys_apart payment.id payment.id) new first in
      let row = fresh still_new in
      let ledger = ap (λ (x : PaymentTables). x.ledger) c.tables in
      record {
        paid = c.paid.1.transaction;
        divided = c.divided.1.transaction;
        at_paid = rw ledger (
            Appends-keeps s.allocation_ledger_id s.now divide c.paid.0 (payment_key payment.id) paid
              second);
        at_divided = rw ledger divided;
        paid_id = ap (λ (x : ConfirmPaymentResult). x.ledger_transaction_id) c.result;
        divided_id = ap (λ (x : ConfirmPaymentResult). x.allocation_ledger_transaction_id) c.result;
        members = division_members purchase c.allocation;
        at_members = ap (λ (t : LedgerTransaction). t.metadata) row;
        version =
            ap some (sym (ap (λ (x : ConfirmPaymentResult). x.allocation_rule_version) c.result));
      }
