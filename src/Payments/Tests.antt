-- ===== src/Payments/Tests.antt =====
-- A payment of 300 for three tickets, confirmed twice, and the theorems at it.
use amazingchance.Base.{
  ℕ, ◌+ℤ◌, ◌-ℤ◌, pos, ◌≡◌, refl, ap, ◌∙◌, ◌>>=◌, true, none, some, [], ◌∷◌, map, ◌==◌,
  if◌then◌else◌, prefixed, number_text, ok, err, not_found, plain_error, is_blank, is_currency_code,
}
use amazingchance.Draws.Types.{LotteryDraw}
use amazingchance.Draws.SalesWindow.{
  scheduled_sales_cutoff_at, effective_sales_cutoff_at, ticket_sales_block_reason,
}
use amazingchance.Draws.Tests.{draw}
use amazingchance.Finance.Tests.{rules}
use amazingchance.Finance.Allocation.{
  effective_rules, share, allocate_by, resolve_and_allocate, credits, build_ledger_postings,
}
use amazingchance.Ledger.Service.{
  append_in_transaction, validate_input, sum_sides, find_by_idempotency_key, replay_or,
  insert_transaction,
}
use amazingchance.Ledger.Tests.{no_rows, no_rows-IsValid}
use amazingchance.Tickets.Allocation.{
  positive_safe, add_sequence, advance_sequence, reserve_new, reserve_range,
}
use amazingchance.Tickets.Sequence.{next_number, numbers_of}
use amazingchance.Payments.Tables.{
  payment_pending, succeeded, Payment, Purchase, PaymentTables, ConfirmPaymentResult,
}
use amazingchance.Payments.Bookings.{confirmation, division}
use amazingchance.Payments.Issuing.{
  Supplied, check_payment, check_sale, numbers_from, create_tickets, issue_tickets,
  complete_purchase, notify,
}
use amazingchance.Payments.Confirmation.{
  complete, confirm_pending, confirm_payment_in_transaction, Attempt, run_attempt,
  is_retryable_transaction_error, confirm_from, confirm_payment,
}
use amazingchance.Payments.Retries.{GivesUp, confirm_payment-GivesUp}
use amazingchance.Payments.Soundness.{
  IsSound, confirm_from_done, confirm_from_again, confirm_payment-IsSound,
}
use amazingchance.Payments.Repetition.{
  IsIssued, confirm_payment_in_transaction-IsIssued, confirm_payment_in_transaction-again,
}

abbrev purchase : Purchase
purchase = record {
  id = "b1";
  public_id = "PUR-1";
  user_id = "u1";
  user_email = "a@b.c";
  draw_id = "d1";
  draw_public_id = "W1";
  status = payment_pending;
  requested_ticket_count = 3;
  total_amount_minor = pos 300;
  currency = "USD";
  payment_confirmed_at = none;
  completed_at = none;
}

abbrev payment : Payment
payment = record {
  id = "p1";
  purchase_id = "b1";
  status = succeeded;
  amount_minor = pos 300;
  currency = "USD";
  confirmed_at = some 150;
  created_at = 140;
}

abbrev supplied : Supplied
supplied = record {
  ledger_id = "t1";
  allocation_ledger_id = "t2";
  range_id = "a1";
  ticket_public_id = λ number. prefixed "TKT-" (number_text number);
  correlation_id = "c1";
  now = 160;
}

abbrev open_draw : LotteryDraw
open_draw = record draw { sales_open_at = some 100 }

abbrev db : PaymentTables
db = record {
  payments = payment ∷ [];
  purchases = purchase ∷ [];
  draws = open_draw ∷ [];
  rules = rules;
  ledger = no_rows;
  ranges = record { allocations = []; sequences = [] };
  tickets = [];
  events = [];
  outbox = [];
}

confirmed :
    (u : PaymentTables) × (r : ConfirmPaymentResult) × (confirm_payment_in_transaction supplied "p1"
        db
      ≡ ok (u, r))
    × (map (λ t. t.number_in_draw) u.tickets ≡ 3 ∷ 2 ∷ 1 ∷ [])
unfolding confirm_payment_in_transaction confirm_pending complete check_payment check_sale
    ticket_sales_block_reason effective_sales_cutoff_at scheduled_sales_cutoff_at ◌-ℤ◌ ◌+ℤ◌
    append_in_transaction validate_input is_blank is_currency_code sum_sides find_by_idempotency_key
    replay_or insert_transaction resolve_and_allocate effective_rules share allocate_by credits
    build_ledger_postings confirmation division prefixed number_text reserve_range positive_safe
    add_sequence advance_sequence reserve_new issue_tickets numbers_from create_tickets
    complete_purchase notify
confirmed = (_, _, refl, refl)

-- A first attempt whose commit fails, and a second.
abbrev attempts : ℕ → Attempt
attempts i = record {
  supplied = supplied;
  tables = db;
  commit_error = if i == 1 then some (plain_error "P2034") else none;
}

first_fails : run_attempt "p1" (attempts 1) ≡ err (plain_error "P2034")
unfolding run_attempt
first_fails = ap (λ m. m >>= λ done. err (plain_error "P2034")) confirmed.2

second_succeeds : run_attempt "p1" (attempts 2) ≡ ok (confirmed.0, confirmed.1)
unfolding run_attempt
second_succeeds = ap (λ m. m >>= λ done. ok done) confirmed.2

second_attempt : confirm_payment "p1" attempts ≡ ok (confirmed.0, confirmed.1)
unfolding confirm_payment confirm_from is_retryable_transaction_error
second_attempt =
    confirm_from_again "p1" attempts 2 first_fails refl
    ∙ confirm_from_done "p1" attempts 1 second_succeeds

db-IsSound : IsSound db
unfolding next_number numbers_of
db-IsSound = record {
  ledger = no_rows-IsValid;
  ranges = record { handed_out = tt; disjoint = tt; tiled = λ d. refl };
}

confirm_payment-IsSound_example : IsSound confirmed.0
confirm_payment-IsSound_example =
    confirm_payment-IsSound "p1" attempts (λ i. db-IsSound) second_attempt

confirm_payment_in_transaction-IsIssued_example : IsIssued payment purchase db confirmed.0
confirm_payment_in_transaction-IsIssued_example =
    confirm_payment_in_transaction-IsIssued supplied "p1" db payment purchase refl refl refl
      confirmed.2

confirm_payment_in_transaction-again_example :
    confirm_payment_in_transaction (record supplied { now = 170 }) "p1" confirmed.0
    ≡ ok (confirmed.0, record confirmed.1 { already_processed = true })
unfolding find_by_idempotency_key
confirm_payment_in_transaction-again_example =
    confirm_payment_in_transaction-again supplied "p1" db (record supplied { now = 170 }) payment
      purchase db-IsSound refl refl (λ pending. (refl, refl)) confirmed.2

unknown_payment : confirm_payment "p2" attempts ≡ err (not_found "Payment not found")
unfolding confirm_payment confirm_from run_attempt is_retryable_transaction_error
    confirm_payment_in_transaction
unknown_payment = refl

confirm_payment-GivesUp_example : GivesUp "p2" attempts (not_found "Payment not found")
confirm_payment-GivesUp_example = confirm_payment-GivesUp "p2" attempts unknown_payment
