-- ===== src/Finance/Postings.antt =====
-- `buildLedgerPostings` of financial-allocation.service.ts against the validation of the ledger.
use amazingchance.Base.{
  ℕ, ◌+◌, ◌≤◌, ◌<◌, ℤ, pos, ◌+ℤ◌, ltb_ℤ, ◌≡◌, refl, Bool, true, false, Option, List, [], ◌∷◌, map,
  length, filter, All, arith, ok, is_blank, is_currency_code, pos_add, zero-+ℤ, +ℤ_zero, sym, ◌∙◌,
  ap, ap₂,
}
use amazingchance.Ledger.Types.{
  LedgerPostingInput, LedgerAccountCode, debit, credit, weekly_jackpot, annual_jackpot,
  company_revenue, AppendLedgerTransactionInput,
}
use amazingchance.Ledger.Service.{validate_input}
use amazingchance.Ledger.Validation.{
  input_entry, side_total, IsPositive, IsBalanced, validate_input_iff,
}
use amazingchance.Finance.Allocation.{
  AllocationRule, FinancialAllocation, posting, credits, build_ledger_postings,
  resolve_and_allocate,
}
use amazingchance.Finance.Shares.{IsSplit, resolve_and_allocate-IsSplit}

abbrev is_positive : LedgerPostingInput → Bool
is_positive p = ltb_ℤ (pos 0) p.amount_minor

-- A credit that the filter drops counts nothing.
kept_total :
    (account : LedgerAccountCode) (n : ℕ) (ps : List LedgerPostingInput) {rest : ℕ}
    → side_total credit (map input_entry (filter is_positive ps)) ≡ pos rest
    → side_total credit (map input_entry (filter is_positive (posting account (pos n) ∷ ps)))
      ≡ pos (n + rest)
unfolding side_total
kept_total account n ps {rest} h = ground (arith, h, pos_add n rest)

kept_debit :
    (account : LedgerAccountCode) (n : ℕ) (ps : List LedgerPostingInput)
    → side_total debit (map input_entry (filter is_positive ps)) ≡ pos 0
    → side_total debit (map input_entry (filter is_positive (posting account (pos n) ∷ ps))) ≡ pos 0
unfolding side_total
kept_debit account n ps h =
    ground (arith, h, zero-+ℤ (side_total debit (map input_entry (filter is_positive ps))))

kept-IsPositive :
    (ps : List LedgerPostingInput) → All IsPositive (map input_entry (filter is_positive ps))
kept-IsPositive [] = tt
kept-IsPositive (p ∷ ps) = ground (arith, kept-IsPositive ps)

module _ (amount : ℕ) (a : FinancialAllocation) (split : IsSplit amount a) where
  abbrev company_credit : List LedgerPostingInput
  company_credit = posting company_revenue (pos split.company) ∷ []

  abbrev annual_credits : List LedgerPostingInput
  annual_credits = posting annual_jackpot (pos split.annual) ∷ company_credit

  credits_of_split :
      credits a ≡ filter is_positive (posting weekly_jackpot (pos split.weekly) ∷ annual_credits)
  unfolding credits
  credits_of_split = rw (split.weekly_eq, split.annual_eq, split.company_eq)

  credited : side_total credit (map input_entry (credits a)) ≡ pos amount
  credited = rw credits_of_split (
      kept_total weekly_jackpot split.weekly annual_credits (
        kept_total annual_jackpot split.annual company_credit
          (kept_total company_revenue split.company [] {rest = 0} (unfold side_total in refl)))
      ∙ ap pos (omega (arith, split.sum_eq)))

  not_debited : side_total debit (map input_entry (credits a)) ≡ pos 0
  not_debited = rw credits_of_split (
      kept_debit weekly_jackpot split.weekly annual_credits (
        kept_debit annual_jackpot split.annual company_credit
          (kept_debit company_revenue split.company [] (unfold side_total in refl))))

  some_credit : 0 < amount → 1 ≤ length (credits a)
  some_credit positive = rw credits_of_split (ground (arith, split.sum_eq))

  build_ledger_postings-IsBalanced :
      0 < amount → IsBalanced (map input_entry (build_ledger_postings a))
  unfolding build_ledger_postings side_total
  build_ledger_postings-IsBalanced positive = record {
    positive = (
      rw split.source_eq (omega arith),
      rw credits_of_split
          (kept-IsPositive (posting weekly_jackpot (pos split.weekly) ∷ annual_credits)),
    );
    equal =
        ap₂ ◌+ℤ◌ split.source_eq not_debited
        ∙ +ℤ_zero (pos amount)
        ∙ sym credited
        ∙ sym (zero-+ℤ (side_total credit (map input_entry (credits a))));
  }

  length-build_ledger_postings : 0 < amount → 2 ≤ length (build_ledger_postings a)
  unfolding build_ledger_postings
  length-build_ledger_postings positive = omega (arith, some_credit positive)

-- The postings of every allocation are accepted by the ledger, in a transaction with a key, a
-- reference and a three-letter currency.
pub allocation_accepted :
    (rules : List AllocationRule) (amount_minor : ℤ) (effective_at : Option ℕ)
    {a : FinancialAllocation} (input : AppendLedgerTransactionInput)
    → resolve_and_allocate rules amount_minor effective_at ≡ ok a
    → is_blank input.idempotency_key ≡ false
    → is_blank input.reference_type ≡ false
    → is_blank input.reference_id ≡ false
    → is_currency_code input.currency ≡ true
    → validate_input (record input { postings = build_ledger_postings a }) ≡ ok tt
allocation_accepted rules amount_minor effective_at {a} input h key kind id currency =
    let (amount, _, positive, split) =
      resolve_and_allocate-IsSplit rules amount_minor effective_at h in
    (validate_input_iff _).1 (record {
      has_key = key;
      has_reference_type = kind;
      has_reference_id = id;
      has_currency = currency;
      has_postings = length-build_ledger_postings amount a split positive;
      balanced = build_ledger_postings-IsBalanced amount a split positive;
    })
