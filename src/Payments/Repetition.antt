-- ===== src/Payments/Repetition.antt =====
-- What `confirmPaymentInTransaction` of payment-orchestrator.service.ts leaves, and a second call behind it.
use amazingchance.Base.{
  String, ◌≡◌, refl, sym, ap, subst, ◌∙◌, Bool, true, none, some, find, ok, some-injective,
}
use amazingchance.Draws.Types.{LotteryDraw, has_id}
use amazingchance.Draws.SalesWindow.{IsOnSale}
use amazingchance.Ledger.Service.{find_by_idempotency_key}
use amazingchance.Payments.Tables.{
  payment_pending, completed, Payment, Purchase, PaymentTables, is_payment, is_purchase,
  ConfirmPaymentResult,
}
use amazingchance.Payments.Bookings.{allocation_key}
use amazingchance.Payments.Completed.{allocation_of}
use amazingchance.Payments.Issuing.{Supplied, paid_at, check_payment, check_sale, complete_row}
use amazingchance.Payments.Confirmation.{confirm_payment_in_transaction}
use amazingchance.Payments.Parts.{
  IsConfirmation, found_completed, confirms_now, confirm_payment_in_transaction-cases,
}
use amazingchance.Payments.Issued.{check_sale-IsOnSale}
use amazingchance.Payments.Soundness.{IsSound}
use amazingchance.Payments.Evidence.{
  HasTickets, IsConfirmation-HasTickets, IsConfirmation-HasBookings,
}
use amazingchance.Payments.Again.{
  checked_pending, purchase_after, completed_again, validated_already, without_range,
}

-- What a call did that completed a purchase.
pub record IsIssued (payment : Payment) (purchase : Purchase) (db u : PaymentTables) : Type 0 where
  pub draw : LotteryDraw
  pub of_purchase : find (has_id purchase.draw_id) db.draws ≡ some draw
  pub on_sale : IsOnSale draw (paid_at payment)
  pub issued : HasTickets purchase u
  pub is_completed :
      (q : Purchase) × (find (is_purchase payment.purchase_id) u.purchases ≡ some q)
      × (q.status ≡ completed)

module _ (s : Supplied) (payment_id : String) (db : PaymentTables) where
  same_rows :
      (payment p : Payment) (purchase q : Purchase)
      → find (is_payment payment_id) db.payments ≡ some payment
      → find (is_payment payment_id) db.payments ≡ some p
      → find (is_purchase payment.purchase_id) db.purchases ≡ some purchase
      → find (is_purchase p.purchase_id) db.purchases ≡ some q
      → (payment ≡ p) × (purchase ≡ q)
  same_rows payment p purchase q at_payment at_p at_purchase at_q =
      let p_is = some-injective _ _ (sym at_payment ∙ at_p) in
      (
        p_is,
        some-injective _ _ (
            sym at_purchase
            ∙ ap (λ (x : Payment). find (is_purchase x.purchase_id) db.purchases) p_is
            ∙ at_q),
      )

  -- A call that returned for a purchase without a range has completed it: the payment was made while
  -- the draw was on sale, and the purchase has as many tickets as it asked for, whose numbers are one
  -- range, each once.
  pub confirm_payment_in_transaction-IsIssued :
      (payment : Payment) (purchase : Purchase) {u : PaymentTables} {r : ConfirmPaymentResult}
      → find (is_payment payment_id) db.payments ≡ some payment
      → find (is_purchase payment.purchase_id) db.purchases ≡ some purchase
      → allocation_of db purchase.id ≡ none
      → confirm_payment_in_transaction s payment_id db ≡ ok (u, r)
      → IsIssued payment purchase db u
  confirm_payment_in_transaction-IsIssued payment purchase {u} {r} at_payment at_purchase no_range
        h =
      elim (confirm_payment_in_transaction-cases s payment_id db h) [
        | found_completed p q at_p at_q done valid same ↦
            let (p_is, q_is) = same_rows payment p purchase q at_payment at_p at_purchase at_q in
            absurd (
              without_range db p.id q
                (subst (λ (x : Purchase). allocation_of db x.id ≡ none) q_is no_range) valid)
        | confirms_now p q at_p at_q checked on_sale c ↦
            let (p_is, q_is) = same_rows payment p purchase q at_payment at_p at_purchase at_q in
            let absent : allocation_of db q.id ≡ none =
              subst (λ (x : Purchase). allocation_of db x.id ≡ none) q_is no_range in
            let made = IsConfirmation-IsIssued p q at_q checked on_sale absent c in
            subst (λ (x : Payment). IsIssued x purchase db u) (sym p_is)
              (subst (λ (x : Purchase). IsIssued p x db u) (sym q_is) made)
      ]
    where
      IsConfirmation-IsIssued :
          (p : Payment) (q : Purchase) {u : PaymentTables} {r : ConfirmPaymentResult}
          → find (is_purchase p.purchase_id) db.purchases ≡ some q
          → check_payment p q ≡ ok tt
          → check_sale db.draws p q ≡ ok tt
          → allocation_of db q.id ≡ none
          → IsConfirmation s p q db u r
          → IsIssued p q db u
      IsConfirmation-IsIssued p q at_q checked on_sale absent c =
          let (draw, at_draw, open_then) = check_sale-IsOnSale db.draws p q on_sale in
          record {
            draw = draw;
            of_purchase = at_draw;
            on_sale = open_then;
            issued = IsConfirmation-HasTickets s p q db absent c;
            is_completed = (
              complete_row s p q,
              ap (λ (y : PaymentTables). find (is_purchase p.purchase_id) y.purchases) c.tables
                  ∙ purchase_after s p q db at_q checked c.completes,
              refl,
            );
          }

  -- Where the tables are sound, and a purchase that is still to be paid has no range and its payment no
  -- allocation in the ledger, a call that returned is returned again by any later one, marked as
  -- processed already, and nothing changes. A purchase that was completed before may have both.
  pub confirm_payment_in_transaction-again :
      (later : Supplied) (payment : Payment) (purchase : Purchase) {u : PaymentTables}
      {r : ConfirmPaymentResult}
      → IsSound db
      → find (is_payment payment_id) db.payments ≡ some payment
      → find (is_purchase payment.purchase_id) db.purchases ≡ some purchase
      → (purchase.status ≡ payment_pending
          → (allocation_of db purchase.id ≡ none)
            × (find_by_idempotency_key db.ledger (allocation_key payment.id) ≡ none))
      → confirm_payment_in_transaction s payment_id db ≡ ok (u, r)
      → confirm_payment_in_transaction later payment_id u
        ≡ ok (u, record r { already_processed = true })
  unfolding confirm_payment_in_transaction
  confirm_payment_in_transaction-again later payment purchase {u} {r} v at_payment at_purchase
        new_if h =
      elim (confirm_payment_in_transaction-cases s payment_id db h) [
        | found_completed p q at_p at_q done valid same ↦ rw same (
            rw (at_p, at_q, done, valid)
              (ap (λ (b : Bool). ok (db, record r { already_processed = b }))
                (validated_already db p.id q valid)))
        | confirms_now p q at_p at_q checked on_sale c ↦
            let (p_is, q_is) = same_rows payment p purchase q at_payment at_p at_purchase at_q in
            let pending = ap (λ (x : Purchase). x.status) q_is ∙ checked_pending p q checked in
            let (no_range, no_allocation) = new_if pending in
            let absent : allocation_of db q.id ≡ none =
              subst (λ (x : Purchase). allocation_of db x.id ≡ none) q_is no_range in
            let new : find_by_idempotency_key db.ledger (allocation_key p.id) ≡ none =
              subst
                (λ (x : Payment). find_by_idempotency_key db.ledger (allocation_key x.id) ≡ none)
                p_is no_allocation in
            completed_again s p q db later payment_id at_p at_q checked
              (IsConfirmation-HasTickets s p q db absent c)
              (IsConfirmation-HasBookings s p q db v new c) c
      ]
