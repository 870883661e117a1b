-- ===== src/Finance/Allocation.antt =====
-- FinancialAllocationService: `resolveAndAllocateWithClient` and `buildLedgerPostings`. The basis
-- points of a rule are naturals, by a check constraint of the table; an invalid `Date` is `none`.
use amazingchance.Base.{
  ℕ, ◌+◌, ◌*◌, ◌/◌, ℤ, pos, pos_part, ◌-ℤ◌, leb_ℤ, ltb_ℤ, String, Bool, true, not, ◌&&◌, Option,
  none, some, List, [], ◌∷◌, leb, ltb, ◌==◌, take, filter, order_desc, Outcome, ok, bad_request,
  conflict, ◌>>=◌, ◌>>◌, throw_if, or_throw, only_row,
}
use amazingchance.Ledger.Types.{
  LedgerPostingInput, LedgerAccountCode, debit, credit, payment_clearing, weekly_jackpot,
  annual_jackpot, company_revenue,
}

abbrev pub basis_points_total : ℕ
basis_points_total = 10000

-- A row of `allocation_rules`.
pub record AllocationRule : Type 0 where
  pub id : String
  pub version : ℕ
  pub weekly_jackpot_bps : ℕ
  pub annual_jackpot_bps : ℕ
  pub company_revenue_bps : ℕ
  pub effective_from : ℕ
  pub effective_to : Option ℕ

pub record FinancialAllocation : Type 0 where
  pub rule_id : String
  pub rule_version : ℕ
  pub weekly_jackpot_bps : ℕ
  pub annual_jackpot_bps : ℕ
  pub company_revenue_bps : ℕ
  pub effective_at : ℕ
  pub source_amount_minor : ℤ
  pub weekly_jackpot_minor : ℤ
  pub annual_jackpot_minor : ℤ
  pub company_revenue_minor : ℤ

-- Whether a rule that ends at `to`, if it ends, covers the time.
abbrev pub ends_after : Option ℕ → ℕ → Bool
ends_after none at = true
ends_after (some to) at = ltb at to

abbrev pub is_effective : ℕ → AllocationRule → Bool
is_effective at rule = leb rule.effective_from at && ends_after rule.effective_to at

-- `findMany`: the two latest versions in effect.
unfoldable pub effective_rules : ℕ → List AllocationRule → List AllocationRule
effective_rules at rules = take 2 (order_desc (λ r. r.version) (filter (is_effective at) rules))

-- `amountMinor * bps / 10000n`, of a positive amount.
unfoldable pub share : ℕ → ℕ → ℕ
share amount bps = amount * bps / basis_points_total

unfoldable pub allocate_by : AllocationRule → ℕ → ℕ → FinancialAllocation
allocate_by rule amount at = record {
  rule_id = rule.id;
  rule_version = rule.version;
  weekly_jackpot_bps = rule.weekly_jackpot_bps;
  annual_jackpot_bps = rule.annual_jackpot_bps;
  company_revenue_bps = rule.company_revenue_bps;
  effective_at = at;
  source_amount_minor = pos amount;
  weekly_jackpot_minor = weekly;
  annual_jackpot_minor = annual;
  company_revenue_minor = pos amount -ℤ weekly -ℤ annual;
}
  where
    weekly : ℤ
    weekly = pos (share amount rule.weekly_jackpot_bps)

    annual : ℤ
    annual = pos (share amount rule.annual_jackpot_bps)

abbrev pub rule_total : AllocationRule → ℕ
rule_total rule = rule.weekly_jackpot_bps + rule.annual_jackpot_bps + rule.company_revenue_bps

-- `resolveAndAllocate` and `resolveAndAllocateInTransaction`, over the rules that they read.
unfoldable pub resolve_and_allocate :
    List AllocationRule → ℤ → Option ℕ → Outcome FinancialAllocation
resolve_and_allocate rules amount_minor effective_at = do
  throw_if (leb_ℤ amount_minor (pos 0)) (bad_request "Financial allocation amount must be positive")
  at ← or_throw effective_at (bad_request "Financial allocation effective time is invalid")
  rule ←
      only_row (conflict "No financial allocation rule is effective for the payment time")
        (conflict "Multiple financial allocation rules are effective for the payment time")
        (effective_rules at rules)
  throw_if (not (rule_total rule == basis_points_total))
      (conflict "Financial allocation rule version must total 10000 basis points")
  ok (allocate_by rule (pos_part amount_minor) at)

abbrev pub posting : LedgerAccountCode → ℤ → LedgerPostingInput
posting account amount = record { account_code = account; side = credit; amount_minor = amount }

unfoldable pub credits : FinancialAllocation → List LedgerPostingInput
credits a =
    filter (λ p. ltb_ℤ (pos 0) p.amount_minor)
      (posting weekly_jackpot a.weekly_jackpot_minor
        ∷ posting annual_jackpot a.annual_jackpot_minor
        ∷ posting company_revenue a.company_revenue_minor
        ∷ [])

unfoldable pub build_ledger_postings : FinancialAllocation → List LedgerPostingInput
unfolding credits
build_ledger_postings a =
    record { account_code = payment_clearing; side = debit; amount_minor = a.source_amount_minor }
    ∷ credits a
