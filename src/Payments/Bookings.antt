-- ===== src/Payments/Bookings.antt =====
-- The two ledger transactions of a confirmed payment, of payment-orchestrator.service.ts.
use amazingchance.Base.{
  pos, List, pos_part, String, some, [], ◌∷◌, number_text, prefixed, codes-prefixed, codes, get_or,
  str_eq, eq_iff, Bool-cases, inl, inr, ◌≡◌, ap, false, arith,
}
use amazingchance.Finance.Allocation.{FinancialAllocation, build_ledger_postings}
use amazingchance.Ledger.Types.{
  number_value, MetadataValue, text_value, debit, credit, cash, payment_clearing, payment_confirmed,
  payment_allocation, AppendLedgerTransactionInput,
}
use amazingchance.Payments.Tables.{Payment, Purchase}

abbrev pub payment_key : String → String
payment_key payment_id = prefixed "payment-confirmed:" payment_id

abbrev pub allocation_key : String → String
allocation_key payment_id = prefixed "payment-allocated:" payment_id

unfoldable pub confirmation : Payment → Purchase → AppendLedgerTransactionInput
confirmation payment purchase = record {
  type = payment_confirmed;
  idempotency_key = payment_key payment.id;
  reference_type = "PAYMENT";
  reference_id = payment.id;
  currency = payment.currency;
  description = some "Payment confirmed for ticket purchase";
  metadata =
      some (("purchaseId", text_value purchase.id) ∷ ("drawId", text_value purchase.draw_id) ∷ []);
  postings =
      record { account_code = cash; side = debit; amount_minor = payment.amount_minor }
      ∷ record {
        account_code = payment_clearing;
        side = credit;
        amount_minor = payment.amount_minor;
      }
      ∷ [];
}

-- The shares are not negative, so that their texts are those of naturals.
abbrev pub division_members : Purchase → FinancialAllocation → List (String × MetadataValue)
division_members purchase a =
    ("purchaseId", text_value purchase.id)
    ∷ ("drawId", text_value purchase.draw_id)
    ∷ ("allocationRuleId", text_value a.rule_id)
    ∷ ("allocationRuleVersion", number_value (pos a.rule_version))
    ∷ ("weeklyJackpotBps", number_value (pos a.weekly_jackpot_bps))
    ∷ ("annualJackpotBps", number_value (pos a.annual_jackpot_bps))
    ∷ ("companyRevenueBps", number_value (pos a.company_revenue_bps))
    ∷ ("weeklyJackpotMinor", text_value (number_text (pos_part a.weekly_jackpot_minor)))
    ∷ ("annualJackpotMinor", text_value (number_text (pos_part a.annual_jackpot_minor)))
    ∷ ("companyRevenueMinor", text_value (number_text (pos_part a.company_revenue_minor)))
    ∷ []

unfoldable pub division : Payment → Purchase → FinancialAllocation → AppendLedgerTransactionInput
division payment purchase a = record {
  type = payment_allocation;
  idempotency_key = allocation_key payment.id;
  reference_type = "PAYMENT";
  reference_id = payment.id;
  currency = payment.currency;
  description = some "Payment allocated across jackpot and company accounts";
  metadata = some (division_members purchase a);
  postings = build_ledger_postings a;
}

-- The two keys of payments differ in their ninth character.
pub keys_apart : (i j : String) → str_eq (payment_key i) (allocation_key j) ≡ false
keys_apart i j = elim (Bool-cases (str_eq (payment_key i) (allocation_key j))) [
  | inr apart ↦ apart
  | inl same ↦
      let e = ap (λ s. get_or (codes s) 8 0) ((eq_iff (payment_key i) (allocation_key j)).0 same) in
      let paid : get_or (codes (payment_key i)) 8 0 ≡ b'c' =
        ap (λ cs. get_or cs 8 0) (codes-prefixed "payment-confirmed:" i) in
      let divided : get_or (codes (allocation_key j)) 8 0 ≡ b'a' =
        ap (λ cs. get_or cs 8 0) (codes-prefixed "payment-allocated:" j) in
      absurd (omega (arith, e, paid, divided))
]
