-- ===== src/Payments/Soundness.antt =====
-- The ledger and the ticket ranges under `confirmPayment` of payment-orchestrator.service.ts.
use amazingchance.Base.{
  ℕ, zero, suc, ◌-◌, ◌||◌, ◌∙◌, String, ◌≡◌, refl, sym, ap, subst, inl, inr, false, not, ◌==◌,
  Bool-cases, Option-cases, Outcome, ok, err, Outcome-cases, Exception, ok-injective, >>=-eq-ok,
  state_after,
}
use amazingchance.Tickets.Allocation.{TicketTables, ReserveTicketRangeResult}
use amazingchance.Tickets.Ranges.{reserve_range-IsValid}
use amazingchance.Ledger.Steps.{append_in_transaction-Appends, Appends-IsValid}
use amazingchance.Payments.Tables.{Payment, Purchase, PaymentTables, ConfirmPaymentResult}
use amazingchance.Payments.Bookings.{confirmation, division}
use amazingchance.Payments.Issuing.{Supplied, range_input}
use amazingchance.Payments.Confirmation.{
  confirm_payment_in_transaction, Attempt, run_attempt, max_transaction_attempts,
  is_retryable_transaction_error, confirm_from, confirm_payment,
}
use amazingchance.Payments.Parts.{
  IsConfirmation, found_completed, confirms_now, confirm_payment_in_transaction-cases,
}

-- A valid ledger, and in each draw disjoint ranges of all numbers up to the next.
pub record IsSound (db : PaymentTables) : Type 0 where
  pub ledger : amazingchance.Ledger.Store.IsValid db.ledger
  pub ranges : amazingchance.Tickets.Sequence.IsValid db.ranges

pub IsConfirmation-IsSound :
    (s : Supplied) (payment : Payment) (purchase : Purchase) (db : PaymentTables)
    {u : PaymentTables} {r : ConfirmPaymentResult}
    → IsSound db
    → IsConfirmation s payment purchase db u r
    → IsSound u
IsConfirmation-IsSound s payment purchase db {u} v c =
    let paid = confirmation payment purchase in
    let divided = division payment purchase c.allocation in
    let once =
      Appends-IsValid s.ledger_id s.now paid db.ledger v.ledger
        (append_in_transaction-Appends s.ledger_id s.now paid db.ledger v.ledger c.pays) in
    let twice = Appends-IsValid s.allocation_ledger_id s.now divided c.paid.0 once (
      append_in_transaction-Appends s.allocation_ledger_id s.now divided c.paid.0 once c.divides) in
    let ranges =
      subst
        (λ (m : Outcome (TicketTables × ReserveTicketRangeResult)).
          amazingchance.Tickets.Sequence.IsValid (state_after db.ranges m))
        c.reserves (reserve_range-IsValid s.range_id db.ranges (range_input s purchase) v.ranges) in
    subst IsSound (sym c.tables) (record { ledger = twice; ranges = ranges })

run_attempt-IsSound :
    (payment_id : String) (a : Attempt) {u : PaymentTables} {r : ConfirmPaymentResult}
    → IsSound a.tables
    → run_attempt payment_id a ≡ ok (u, r)
    → IsSound u
unfolding run_attempt
run_attempt-IsSound payment_id a {u} {r} v h =
    let (done, ran, h1) =
      >>=-eq-ok (confirm_payment_in_transaction a.supplied payment_id a.tables) _ h in
    let same : done ≡ (u, r) = elim (Option-cases a.commit_error) [
      | inl committed ↦ ok-injective (rw committed at h1)
      | inr (e, failed) ↦ absurd (cc (rw failed at h1))
    ] in
    elim (confirm_payment_in_transaction-cases a.supplied payment_id a.tables (ran ∙ ap ok same)) [
      | found_completed payment purchase _ _ _ _ kept ↦ subst IsSound (sym kept) v
      | confirms_now payment purchase _ _ _ _ c ↦
          IsConfirmation-IsSound a.supplied payment purchase a.tables v c
    ]

module _ (payment_id : String) (attempts : ℕ → Attempt) where
  -- The attempt with so many others left behind it.
  abbrev pub attempt : ℕ → Attempt
  attempt left = attempts (suc max_transaction_attempts - suc left)

  -- The rounds of the loop.
  pub confirm_from_done :
      (left : ℕ) {done : PaymentTables × ConfirmPaymentResult}
      → run_attempt payment_id (attempt left) ≡ ok done
      → confirm_from (suc left) payment_id attempts ≡ ok done
  unfolding confirm_from
  confirm_from_done left ran = rw (ran, confirm_from) refl

  pub confirm_from_again :
      (left : ℕ) {e : Exception}
      → run_attempt payment_id (attempt left) ≡ err e
      → (left == 0 || not (is_retryable_transaction_error e)) ≡ false
      → confirm_from (suc left) payment_id attempts ≡ confirm_from left payment_id attempts
  unfolding confirm_from
  confirm_from_again left failed retried = rw (failed, confirm_from) (rw retried refl)

  -- What the loop returns is what one of its attempts returned.
  confirm_from-attempt :
      (left : ℕ) {done : PaymentTables × ConfirmPaymentResult}
      → confirm_from left payment_id attempts ≡ ok done
      → (i : ℕ) × (run_attempt payment_id (attempts i) ≡ ok done)
  unfolding confirm_from
  confirm_from-attempt zero h = absurd (cc h)
  confirm_from-attempt (suc left) h = elim (Outcome-cases (run_attempt payment_id (attempt left))) [
    | inl (other, ran) ↦
        (suc max_transaction_attempts - suc left, ran ∙ (rw (ran, confirm_from) at h))
    | inr (e, failed) ↦ elim (Bool-cases (left == 0 || not (is_retryable_transaction_error e))) [
      | inl last ↦ absurd (cc (rw last at (rw (failed, confirm_from) at h)))
      | inr retried ↦ confirm_from-attempt left (rw retried at (rw (failed, confirm_from) at h))
    ]
  ]

  -- Whatever attempt succeeds, in tables that other requests left sound, leaves them sound: each
  -- ledger transaction balanced and sealed, and in each draw disjoint ranges of all numbers.
  pub confirm_payment-IsSound :
      {u : PaymentTables} {r : ConfirmPaymentResult}
      → ((i : ℕ) → IsSound (attempts i).tables)
      → confirm_payment payment_id attempts ≡ ok (u, r)
      → IsSound u
  unfolding confirm_payment
  confirm_payment-IsSound v h =
      let (i, ran) = confirm_from-attempt max_transaction_attempts h in
      run_attempt-IsSound payment_id (attempts i) (v i) ran
