-- ===== src/Payments/Issuing.antt =====
-- What `confirmPaymentInTransaction` of payment-orchestrator.service.ts checks, issues and completes.
use amazingchance.Base.{
  ℕ, suc, zero, ◌+◌, ◌-◌, pos, ◌==ℤ◌, String, Bool, not, ◌&&◌, ◌||◌, Option, none, some, List, [],
  ◌∷◌, map, find, any, update_where, count_where, str_eq, ◌==◌, if◌then◌else◌, prefixed, Outcome,
  ok, err, conflict, not_found, plain_error, ◌>>=◌, ◌>>◌, throw_if, or_throw, if_found,
}
use amazingchance.Draws.Types.{LotteryDraw, sales_open, same_status, has_id}
use amazingchance.Draws.SalesWindow.{ticket_sales_block_reason}
use amazingchance.Tickets.Allocation.{
  ReserveTicketRangeInput, ReserveTicketRangeResult, TicketAllocation,
}
use amazingchance.Payments.Tables.{
  completed, payment_pending, same_purchase_status, has_succeeded, Purchase, Payment, Ticket,
  PurchaseStateEvent, PurchaseNotification, is_purchase,
}
use amazingchance.Payments.Completed.{tickets_of}

-- What the database, its clock and the generators of identifiers supply.
pub record Supplied : Type 0 where
  pub ledger_id : String
  pub allocation_ledger_id : String
  pub range_id : String
  pub ticket_public_id : ℕ → String
  pub correlation_id : String
  pub now : ℕ

abbrev pub or_else : Option ℕ → ℕ → ℕ
or_else none other = other
or_else (some n) other = n

-- `payment.confirmedAt ?? payment.createdAt`
abbrev pub paid_at : Payment → ℕ
paid_at payment = or_else payment.confirmed_at payment.created_at

-- The guards of a purchase that is not completed.
unfoldable pub check_payment : Payment → Purchase → Outcome (Unit {0})
check_payment payment purchase = do
  throw_if (not (has_succeeded payment.status))
      (conflict "Only a succeeded payment can be confirmed")
  throw_if
      (not (payment.amount_minor ==ℤ purchase.total_amount_minor)
        || not (str_eq payment.currency purchase.currency))
      (conflict "Payment amount or currency does not match the purchase")
  throw_if (not (same_purchase_status purchase.status payment_pending))
      (conflict "Purchase in its status cannot be completed")

unfoldable pub check_sale : List LotteryDraw → Payment → Purchase → Outcome (Unit {0})
check_sale draws payment purchase = do
  draw ← or_throw (find (has_id purchase.draw_id) draws) (not_found "Lottery draw not found")
  throw_if (not (same_status draw.status sales_open))
      (conflict "Tickets cannot be issued for a draw in its status")
  if_found (ticket_sales_block_reason draw (paid_at payment))
      (λ reason. err (conflict "Paid purchase is outside the ticket sales window")) (ok tt)

-- The numbers of a range: so many from one on.
unfoldable pub numbers_from : ℕ → ℕ → List ℕ
numbers_from start zero = []
numbers_from start (suc n) = start ∷ numbers_from (start + 1) n

-- `for (number = startNumber; number <= endNumber; number += 1n)`
abbrev pub numbers_of_range : TicketAllocation → List ℕ
numbers_of_range a = numbers_from a.start_number (a.end_number + 1 - a.start_number)

abbrev pub ticket_row : Supplied → Purchase → ℕ → Ticket
ticket_row s purchase number = record {
  public_id = s.ticket_public_id number;
  user_id = purchase.user_id;
  purchase_id = purchase.id;
  draw_id = purchase.draw_id;
  number_in_draw = number;
}

-- The keys of `tickets`: the public id, and the number in a draw.
abbrev pub ticket_clashes : Ticket → Ticket → Bool
ticket_clashes t x =
    str_eq t.public_id x.public_id
    || (str_eq t.draw_id x.draw_id && t.number_in_draw == x.number_in_draw)

-- `ticket.createMany`
unfoldable pub create_tickets : List Ticket → List Ticket → Outcome (List Ticket)
create_tickets [] tickets = ok tickets
create_tickets (t ∷ ts) tickets = do
  throw_if (any (ticket_clashes t) tickets) (plain_error "P2002")
  create_tickets ts (t ∷ tickets)

unfoldable pub issue_tickets :
    Supplied → Purchase → ReserveTicketRangeResult → List Ticket → Outcome (List Ticket)
unfolding create_tickets numbers_from
issue_tickets s purchase reserved tickets =
    let rows = map (ticket_row s purchase) (numbers_of_range reserved.allocation) in
    let new = create_tickets rows tickets in if reserved.already_allocated then ok tickets else new

abbrev pub complete_row : Supplied → Payment → Purchase → Purchase
complete_row s payment p = record p {
  status = completed;
  payment_confirmed_at = some (or_else p.payment_confirmed_at (or_else payment.confirmed_at s.now));
  completed_at = some s.now;
}

abbrev pub is_pending : String → Purchase → Bool
is_pending id p = is_purchase id p && same_purchase_status p.status payment_pending

unfoldable pub complete_purchase :
    Supplied → Payment → Purchase → List Purchase → Outcome (List Purchase)
complete_purchase s payment purchase purchases = do
  throw_if (not (count_where (is_pending purchase.id) purchases == 1))
      (conflict "Purchase state changed while payment confirmation was processing")
  ok (update_where (is_pending purchase.id) (complete_row s payment) purchases)

abbrev pub completion_event : Supplied → Purchase → PurchaseStateEvent
completion_event s purchase = record {
  purchase_id = purchase.id;
  from_status = purchase.status;
  to_status = completed;
  cause = "PAYMENT_CONFIRMED_ALLOCATED_AND_TICKETS_ISSUED";
  correlation_id = s.correlation_id;
  sealed_at = some s.now;
}

-- `notificationOutbox.upsert`, which leaves a row that is there.
unfoldable pub notify :
    Purchase
    → ReserveTicketRangeResult
    → List Ticket
    → List PurchaseNotification
    → List PurchaseNotification
unfolding numbers_from
notify purchase reserved before outbox =
    let key = prefixed "purchase-completed:" purchase.id in
    if any (λ n. str_eq n.idempotency_key key) outbox
    then outbox
    else record {
      idempotency_key = key;
      recipient_email = purchase.user_email;
      purchase_public_id = purchase.public_id;
      draw_public_id = purchase.draw_public_id;
      ticket_numbers =
          if reserved.already_allocated
          then map (λ t. t.number_in_draw) (tickets_of purchase.id before)
          else numbers_from reserved.allocation.start_number purchase.requested_ticket_count;
    }
      ∷ outbox

abbrev pub range_input : Supplied → Purchase → ReserveTicketRangeInput
range_input s purchase = record {
  purchase_id = purchase.id;
  draw_id = purchase.draw_id;
  ticket_count = some (pos purchase.requested_ticket_count);
  correlation_id = s.correlation_id;
}
