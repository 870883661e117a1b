-- ===== src/Finance/Tests.antt =====
-- The allocation of payments at a rule of 60, 10 and 30 percent, and the theorems at them.
use amazingchance.Base.{
  ℕ, pos, ◌≡◌, refl, ◌<◌, none, some, List, [], ◌∷◌, ok, err, conflict, is_blank, is_currency_code,
  ◌-ℤ◌,
}
use amazingchance.Ledger.Service.{validate_input}
use amazingchance.Ledger.Tests.{payment}
use amazingchance.Finance.Allocation.{
  AllocationRule, effective_rules, share, allocate_by, resolve_and_allocate, build_ledger_postings,
}
use amazingchance.Finance.Shares.{
  MayAllocate, IsSplit, resolve_and_allocate_iff, resolve_and_allocate-IsSplit,
}
use amazingchance.Finance.Postings.{allocation_accepted}

abbrev pub rule : AllocationRule
rule = record {
  id = "r2";
  version = 2;
  weekly_jackpot_bps = 6000;
  annual_jackpot_bps = 1000;
  company_revenue_bps = 3000;
  effective_from = 100;
  effective_to = none;
}

-- The rule before it.
abbrev earlier : AllocationRule
earlier = record rule { id = "r1"; version = 1; effective_from = 0; effective_to = some 100 }

abbrev pub rules : List AllocationRule
rules = earlier ∷ rule ∷ []

-- 999 is 599.4, 99.9 and 299.7: the company gets 301.
pub allocate_999 : resolve_and_allocate rules (pos 999) (some 150) ≡ ok (allocate_by rule 999 150)
unfolding resolve_and_allocate effective_rules
allocate_999 = refl

company_301 : (allocate_by rule 999 150).company_revenue_minor ≡ pos 301
unfolding allocate_by share ◌-ℤ◌
company_301 = refl

no_rule_yet :
    resolve_and_allocate (rule ∷ []) (pos 999) (some 99)
    ≡ err (conflict "No financial allocation rule is effective for the payment time")
unfolding resolve_and_allocate effective_rules
no_rule_yet = refl

resolve_and_allocate_iff_example : MayAllocate rules (pos 999) (some 150)
resolve_and_allocate_iff_example =
    (resolve_and_allocate_iff rules (pos 999) (some 150)).0 (allocate_by rule 999 150, allocate_999)

resolve_and_allocate-IsSplit_example :
    (amount : ℕ) × (pos 999 ≡ pos amount) × (0 < amount) × IsSplit amount (allocate_by rule 999 150)
resolve_and_allocate-IsSplit_example =
    resolve_and_allocate-IsSplit rules (pos 999) (some 150) allocate_999

allocation_accepted_example :
    validate_input (record payment { postings = build_ledger_postings (allocate_by rule 999 150) })
    ≡ ok tt
unfolding is_blank is_currency_code
allocation_accepted_example =
    allocation_accepted rules (pos 999) (some 150) payment allocate_999 refl refl refl refl
