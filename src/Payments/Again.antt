-- ===== src/Payments/Again.antt =====
-- `validateCompletedPurchase` of payment-orchestrator.service.ts behind a confirmation.
use amazingchance.Base.{
  or_throw-eq-ok, ◌+◌, ◌-◌, ◌==ℤ◌, String, ◌≡◌, refl, sym, ap, ◌∙◌, true, not, ◌||◌, none, some,
  List, length, length-map, find, find-update_where, count_where, str_eq, str_eq_refl, ◌==◌, ==_iff,
  arith, ok, ok-injective, or_throw, >>=-eq-ok, throw_if, throw_if-eq-ok,
}
use amazingchance.Ledger.Service.{find_by_idempotency_key}
use amazingchance.Payments.Tables.{
  PurchaseStatus, payment_pending, same_purchase_status, has_succeeded, Payment, Purchase,
  PaymentTables, Ticket, is_payment, is_purchase, ConfirmPaymentResult,
}
use amazingchance.Payments.Bookings.{payment_key, allocation_key}
use amazingchance.Payments.Completed.{
  lookup, whole_number, allocation_of, tickets_of, match_range, validate_completed_purchase,
}
use amazingchance.Payments.Issuing.{
  Supplied, check_payment, is_pending, complete_row, complete_purchase,
}
use amazingchance.Payments.Confirmation.{confirm_payment_in_transaction}
use amazingchance.Payments.Parts.{IsConfirmation}
use amazingchance.Payments.Issued.{length-numbers_from}
use amazingchance.Payments.Evidence.{HasTickets, HasBookings}

module _ (s : Supplied) (payment : Payment) (purchase : Purchase) (db : PaymentTables) where
  -- The purchase of the table behind the update.
  pub purchase_after :
      {purchases : List Purchase}
      → find (is_purchase payment.purchase_id) db.purchases ≡ some purchase
      → check_payment payment purchase ≡ ok tt
      → complete_purchase s payment purchase db.purchases ≡ ok purchases
      → find (is_purchase payment.purchase_id) purchases ≡ some (complete_row s payment purchase)
  unfolding check_payment complete_purchase
  purchase_after {purchases} there checked completes =
      let (_, _, h1) = >>=-eq-ok (throw_if (not (has_succeeded payment.status)) _) _ checked in
      let (_, _, h2) =
        >>=-eq-ok
          (throw_if
            (not (payment.amount_minor ==ℤ purchase.total_amount_minor)
              || not (str_eq payment.currency purchase.currency))
            _)
          _ h1 in
      let not_pending =
        throw_if-eq-ok (not (same_purchase_status purchase.status payment_pending)) _ h2 in
      let pending : same_purchase_status purchase.status payment_pending ≡ true = ground arith in
      let (_, _, updated) =
        >>=-eq-ok (throw_if (not (count_where (is_pending purchase.id) db.purchases == 1)) _) _
          completes in
      ap (find (is_purchase payment.purchase_id)) (sym (ok-injective updated))
      ∙ find-update_where (is_purchase payment.purchase_id) (is_pending purchase.id)
          (complete_row s payment) db.purchases (λ x. refl) there
      ∙ rw (str_eq_refl purchase.id, pending) refl

  pub completed_again :
      (later : Supplied) (payment_id : String) {u : PaymentTables} {r : ConfirmPaymentResult}
      → find (is_payment payment_id) db.payments ≡ some payment
      → find (is_purchase payment.purchase_id) db.purchases ≡ some purchase
      → check_payment payment purchase ≡ ok tt
      → HasTickets purchase u
      → HasBookings s payment purchase db u r
      → IsConfirmation s payment purchase db u r
      → confirm_payment_in_transaction later payment_id u
        ≡ ok (u, record r { already_processed = true })
  unfolding confirm_payment_in_transaction validate_completed_purchase
  completed_again later payment_id {u} {r} at_payment at_purchase checked t b c =
      let n = purchase.requested_ticket_count in
      let payments =
        ap (λ (x : PaymentTables). find (is_payment payment_id) x.payments) c.tables ∙ at_payment in
      let row =
        ap (λ (x : PaymentTables). find (is_purchase payment.purchase_id) x.purchases) c.tables
        ∙ purchase_after at_purchase checked c.completes in
      let length_eq : length (tickets_of purchase.id u.tickets) ≡ n =
        sym (length-map (λ (t : Ticket). t.number_in_draw) (tickets_of purchase.id u.tickets))
        ∙ ap length t.numbers
        ∙ length-numbers_from t.range.start_number n in
      let counted : (length (tickets_of purchase.id u.tickets) == n) ≡ true =
        (==_iff _ _).1 length_eq in
      let sized : (t.range.end_number + 1 - t.range.start_number == n) ≡ true =
        (==_iff _ _).1 t.size in
      rw
        (
          payments, row, b.at_paid, b.at_divided, b.at_members, b.version, t.reserved, counted,
          sized, t.in_order,
        )
        (rw
          (
            ap (λ (x : ConfirmPaymentResult). x.purchase_id) c.result,
            ap (λ (x : ConfirmPaymentResult). x.payment_id) c.result,
            b.paid_id,
            b.divided_id,
            ap (λ (x : ConfirmPaymentResult). x.ticket_count) c.result ∙ c.counted,
            length_eq,
          )
          refl)

pub validated_already :
    (db : PaymentTables) (payment_id : String) (purchase : Purchase) {r : ConfirmPaymentResult}
    → validate_completed_purchase db payment_id purchase ≡ ok r
    → r.already_processed ≡ true
unfolding validate_completed_purchase
validated_already db payment_id purchase h =
    let tickets = tickets_of purchase.id db.tickets in
    let n = purchase.requested_ticket_count in
    let (_, _, h1) =
      >>=-eq-ok (or_throw (find_by_idempotency_key db.ledger (payment_key payment_id)) _) _ h in
    let (divided, _, h2) =
      >>=-eq-ok (or_throw (find_by_idempotency_key db.ledger (allocation_key payment_id)) _) _ h1 in
    let (members, _, h2') = >>=-eq-ok (or_throw divided.metadata _) _ h2 in
    let (_, _, h3) =
      >>=-eq-ok (or_throw (whole_number (lookup "allocationRuleVersion" members)) _) _ h2' in
    let (range, _, h4) = >>=-eq-ok (or_throw (allocation_of db purchase.id) _) _ h3 in
    let (_, _, h5) =
      >>=-eq-ok
        (throw_if
          (not (length tickets == n)
            || not (range.end_number + 1 - range.start_number == n)
            || not (match_range range.start_number tickets))
          _)
        _ h4 in
    ap (λ r. r.already_processed) (sym (ok-injective h5))

-- A purchase without a range is not accepted as completed.
pub without_range :
    (db : PaymentTables) (payment_id : String) (purchase : Purchase) {r : ConfirmPaymentResult}
    → allocation_of db purchase.id ≡ none
    → validate_completed_purchase db payment_id purchase ≡ ok r
    → ⊥
unfolding validate_completed_purchase
without_range db payment_id purchase absent h =
    let (_, _, h1) =
      >>=-eq-ok (or_throw (find_by_idempotency_key db.ledger (payment_key payment_id)) _) _ h in
    let (divided, _, h2) =
      >>=-eq-ok (or_throw (find_by_idempotency_key db.ledger (allocation_key payment_id)) _) _ h1 in
    let (members, _, h2') = >>=-eq-ok (or_throw divided.metadata _) _ h2 in
    let (_, _, h3) =
      >>=-eq-ok (or_throw (whole_number (lookup "allocationRuleVersion" members)) _) _ h2' in
    let (_, got, _) = >>=-eq-ok (or_throw (allocation_of db purchase.id) _) _ h3 in
    absurd (cc (absent, or_throw-eq-ok (allocation_of db purchase.id) _ got))

-- A purchase whose payment passes the checks is still to be paid.
pub checked_pending :
    (payment : Payment) (purchase : Purchase)
    → check_payment payment purchase ≡ ok tt
    → purchase.status ≡ payment_pending
unfolding check_payment
checked_pending payment purchase h =
    let (_, _, h1) = >>=-eq-ok (throw_if (not (has_succeeded payment.status)) _) _ h in
    let (_, _, h2) =
      >>=-eq-ok
        (throw_if
          (not (payment.amount_minor ==ℤ purchase.total_amount_minor)
            || not (str_eq payment.currency purchase.currency))
          _)
        _ h1 in
    let not_pending =
      throw_if-eq-ok (not (same_purchase_status purchase.status payment_pending)) _ h2 in
    pending_only purchase.status (ground arith)
  where
    pending_only :
        (s : PurchaseStatus) → same_purchase_status s payment_pending ≡ true → s ≡ payment_pending
    pending_only s e = ground arith
