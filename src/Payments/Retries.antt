-- ===== src/Payments/Retries.antt =====
-- The loop of `confirmPayment` of payment-orchestrator.service.ts over its attempts.
use amazingchance.Base.{
  ℕ, zero, suc, ◌-◌, ◌≤◌, ◌||◌, ◌∙◌, String, ◌≡◌, refl, sym, inl, inr, ◌⊎◌, true, false, not, ◌==◌,
  Bool-cases, arith, err, Outcome-cases, Exception, err-injective, subst, ap, leb,
}
use amazingchance.Payments.Confirmation.{
  Attempt, run_attempt, max_transaction_attempts, is_retryable_transaction_error, confirm_from,
  confirm_payment,
}
use amazingchance.Payments.Soundness.{attempt, confirm_from_done, confirm_from_again}

module _ (payment_id : String) (attempts : ℕ → Attempt) where
  -- The attempt that the loop gave up at: an error that is not retried, or the last of the three. All
  -- attempts before it failed with errors that are.
  pub record GivesUp (e : Exception) : Type 0 where
    pub index : ℕ
    pub first : 1 ≤ index
    pub last : index ≤ max_transaction_attempts
    pub threw : run_attempt payment_id (attempts index) ≡ err e
    pub final : (index ≡ max_transaction_attempts) ⊎ (is_retryable_transaction_error e ≡ false)
    pub before :
        (i : ℕ)
        → 1 ≤ i
        → suc i ≤ index
        → (x : Exception) × (run_attempt payment_id (attempts i) ≡ err x)
          × (is_retryable_transaction_error x ≡ true)

  -- The attempts before the one with so many left.
  abbrev AreRetried : ℕ → Type 0
  AreRetried left =
      (i : ℕ)
      → 1 ≤ i
      → suc i ≤ suc max_transaction_attempts - left
      → (x : Exception) × (run_attempt payment_id (attempts i) ≡ err x)
        × (is_retryable_transaction_error x ≡ true)

  not_last :
      (left : ℕ) (x : Exception)
      → (left == 0 || not (is_retryable_transaction_error x)) ≡ false
      → (1 ≤ left) × (is_retryable_transaction_error x ≡ true)
  not_last left x h = (ground arith, ground arith)

  stops :
      (left : ℕ) (x : Exception)
      → (left == 0 || not (is_retryable_transaction_error x)) ≡ true
      → (left ≡ 0) ⊎ (is_retryable_transaction_error x ≡ false)
  stops left x h = ground arith

  confirm_from_stops :
      (left : ℕ) {e : Exception}
      → run_attempt payment_id (attempt payment_id attempts left) ≡ err e
      → (left == 0 || not (is_retryable_transaction_error e)) ≡ true
      → confirm_from (suc left) payment_id attempts ≡ err e
  unfolding confirm_from
  confirm_from_stops left failed stop = rw (failed, confirm_from) (rw stop refl)

  retried_before :
      (left : ℕ) (x : Exception)
      → AreRetried (suc left)
      → run_attempt payment_id (attempt payment_id attempts left) ≡ err x
      → is_retryable_transaction_error x ≡ true
      → AreRetried left
  retried_before left x before failed retried i one below =
      elim (Bool-cases (leb (suc i) (suc max_transaction_attempts - suc left))) [
        | inl earlier ↦ before i one (ground (arith, earlier))
        | inr now ↦
            let this : i ≡ suc max_transaction_attempts - suc left = ground (arith, now, below) in
            (x, ap (λ k. run_attempt payment_id (attempts k)) this ∙ failed, retried)
      ]

  confirm_from-GivesUp :
      (left : ℕ) {e : Exception}
      → 1 ≤ left
      → left ≤ max_transaction_attempts
      → AreRetried left
      → confirm_from left payment_id attempts ≡ err e
      → GivesUp e
  confirm_from-GivesUp zero some_left fits before h = absurd (omega arith)
  confirm_from-GivesUp (suc left) {e} some_left fits before h =
      elim (Outcome-cases (run_attempt payment_id (attempt payment_id attempts left))) [
        | inl (done, ran) ↦ absurd (cc (h, confirm_from_done payment_id attempts left ran))
        | inr (x, failed) ↦
            elim (Bool-cases (left == 0 || not (is_retryable_transaction_error x))) [
              | inl stop ↦
                  let same : x ≡ e =
                    err-injective (sym (confirm_from_stops left failed stop) ∙ h) in
                  subst GivesUp same (record {
                    index = suc max_transaction_attempts - suc left;
                    first = omega (arith, fits);
                    last = omega arith;
                    threw = failed;
                    final = elim (stops left x stop) [
                      | inl none_left ↦ inl (omega (arith, none_left))
                      | inr unlike ↦ inr unlike
                    ];
                    before = before;
                  })
              | inr again ↦
                  let (more, retried) = not_last left x again in
                  confirm_from-GivesUp left more (omega (arith, fits))
                    (retried_before left x before failed retried)
                    (sym (confirm_from_again payment_id attempts left failed again) ∙ h)
            ]
      ]

  -- A confirmation that throws has made at most three attempts: it throws the first error that is not
  -- retried, or the third.
  pub confirm_payment-GivesUp :
      {e : Exception} → confirm_payment payment_id attempts ≡ err e → GivesUp e
  unfolding confirm_payment
  confirm_payment-GivesUp h =
      confirm_from-GivesUp max_transaction_attempts (omega arith) (omega arith)
        (λ i one below. absurd (omega (arith, one, below))) h
