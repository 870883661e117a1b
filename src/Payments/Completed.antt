-- ===== src/Payments/Completed.antt =====
-- `validateCompletedPurchase` of payment-orchestrator.service.ts.
use amazingchance.Base.{
  ℕ, ℤ, ◌+◌, ◌-◌, String, Bool, true, not, ◌&&◌, ◌||◌, Option, none, some, List, [], ◌∷◌, length,
  filter, find, order_asc, str_eq, ◌==◌, if◌then◌else◌, Outcome, ok, conflict, ◌>>=◌, ◌>>◌,
  throw_if, or_throw,
}
use amazingchance.Ledger.Types.{MetadataValue, text_value, number_value, other_value}
use amazingchance.Ledger.Service.{find_by_idempotency_key}
use amazingchance.Tickets.Allocation.{TicketAllocation}
use amazingchance.Payments.Tables.{
  Purchase, Ticket, PaymentTables, of_purchase, ConfirmPaymentResult,
}
use amazingchance.Payments.Bookings.{payment_key, allocation_key}

-- `metadata[name]`
unfoldable pub lookup : String → List (String × MetadataValue) → Option MetadataValue
lookup name [] = none
lookup name (p ∷ ps) = if str_eq p.0 name then some p.1 else lookup name ps

-- `typeof value === 'number' && Number.isInteger(value)`
abbrev pub whole_number : Option MetadataValue → Option ℤ
whole_number (some (number_value z)) = some z
whole_number (some (text_value s)) = none
whole_number (some other_value) = none
whole_number none = none

-- `ticketAllocation: true`
abbrev pub allocation_of : PaymentTables → String → Option TicketAllocation
allocation_of db purchase_id =
    find (amazingchance.Tickets.Allocation.of_purchase purchase_id) db.ranges.allocations

-- `tickets: { orderBy: { numberInDraw: 'asc' } }`
abbrev pub tickets_of : String → List Ticket → List Ticket
tickets_of purchase_id tickets =
    order_asc (λ t. t.number_in_draw) (filter (of_purchase purchase_id) tickets)

-- `tickets.every((ticket, index) => ...)`, from a number on.
unfoldable pub match_range : ℕ → List Ticket → Bool
match_range start [] = true
match_range start (t ∷ ts) = t.number_in_draw == start && match_range (start + 1) ts

unfoldable pub validate_completed_purchase :
    PaymentTables → String → Purchase → Outcome ConfirmPaymentResult
unfolding lookup match_range
validate_completed_purchase db payment_id purchase = do
  paid ←
      or_throw (find_by_idempotency_key db.ledger (payment_key payment_id))
        (conflict "Completed purchase is missing its payment ledger transaction")
  divided ←
      or_throw (find_by_idempotency_key db.ledger (allocation_key payment_id))
        (conflict "Completed purchase is missing its financial allocation ledger transaction")
  members ←
      or_throw divided.metadata
        (conflict "Completed purchase has invalid financial allocation metadata")
  version ←
      or_throw (whole_number (lookup "allocationRuleVersion" members))
        (conflict "Completed purchase is missing its financial allocation rule version")
  range ←
      or_throw (allocation_of db purchase.id)
        (conflict "Completed purchase is missing its ticket allocation")
  let tickets = tickets_of purchase.id db.tickets
  throw_if
      (not (length tickets == purchase.requested_ticket_count)
        || not (range.end_number + 1 - range.start_number == purchase.requested_ticket_count)
        || not (match_range range.start_number tickets))
      (conflict "Completed purchase has an inconsistent ticket allocation")
  ok (record {
    purchase_id = purchase.id;
    payment_id = payment_id;
    ledger_transaction_id = paid.id;
    allocation_ledger_transaction_id = divided.id;
    allocation_rule_version = version;
    ticket_count = length tickets;
    already_processed = true;
  })
