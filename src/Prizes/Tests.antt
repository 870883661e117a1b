-- ===== src/Prizes/Tests.antt =====
-- Two prizes of 70 and 30 percent, and the theorems at them.
use amazingchance.Prizes.Rounding.{IsDistribution}
use amazingchance.Base.{ℕ, pos, ◌≡◌, refl, none, some, List, [], ◌∷◌, ok, err, conflict, arith}
use amazingchance.Draws.Types.{weekly}
use amazingchance.Prizes.Distribution.{
  PrizeDistributionRule, ResolvedPrizeDistributionRule, CalculatedPrize, effective_rules,
  ranks_valid, total_bps, resolve, floor_share, sum_amounts, add_to_first, calculate,
}
use amazingchance.Prizes.Calculation.{calculate-IsDistribution, calculate_total}

-- The row that holds its entries in any order.
abbrev two_prizes : PrizeDistributionRule
two_prizes = record {
  id = "p1";
  version = 1;
  draw_type = weekly;
  effective_from = 10;
  effective_to = none;
  entries = record { rank = 2; share_bps = 3000 } ∷ record { rank = 1; share_bps = 7000 } ∷ [];
}

abbrev resolved : ResolvedPrizeDistributionRule
resolved = record {
  id = "p1";
  version = 1;
  draw_type = weekly;
  effective_at = 20;
  entries = record { rank = 1; share_bps = 7000 } ∷ record { rank = 2; share_bps = 3000 } ∷ [];
}

resolved_two : resolve (two_prizes ∷ []) weekly (some 20) 2 ≡ ok resolved
unfolding resolve effective_rules ranks_valid total_bps
resolved_two = refl

three_winners :
    resolve (two_prizes ∷ []) weekly (some 20) 3
    ≡ err (conflict "Prize distribution rule version does not match winner count")
unfolding resolve effective_rules
three_winners = refl

-- 99 is 69.3 and 29.7: the first gets the unit that is left.
abbrev prizes_99 : List CalculatedPrize
prizes_99 =
    record { rank = 1; share_bps = 7000; amount_minor = 70 }
    ∷ record { rank = 2; share_bps = 3000; amount_minor = 29 }
    ∷ []

calculated_99 : calculate (pos 99) resolved ≡ ok prizes_99
unfolding calculate floor_share sum_amounts add_to_first
calculated_99 = refl

too_small :
    calculate (pos 1) resolved
    ≡ err (conflict "Prize pool is too small for the configured distribution rule")
unfolding calculate floor_share sum_amounts add_to_first
too_small = refl

calculate-IsDistribution_example :
    (pool : ℕ) × (pos 99 ≡ pos pool) × IsDistribution pool resolved prizes_99
calculate-IsDistribution_example =
    calculate-IsDistribution (two_prizes ∷ []) weekly (some 20) 2 (pos 99) resolved_two
      calculated_99

calculate_total_example :
    (prizes : List CalculatedPrize) × (calculate (pos 20000) resolved ≡ ok prizes)
calculate_total_example =
    calculate_total (two_prizes ∷ []) weekly (some 20) 2 20000 resolved_two
      (omega arith, (omega arith, tt)) (omega arith)
