-- ===== src/Prizes/Distribution.antt =====
-- PrizeDistributionService: `resolveWithClient` and `calculate`. Shares are naturals, by a check
-- constraint of the table; an invalid `Date` is `none`.
use amazingchance.Base.{
  ℕ, ◌+◌, ◌-◌, ◌*◌, ◌/◌, ℤ, pos, pos_part, leb_ℤ, String, Bool, true, not, ◌&&◌, Option, List, [],
  ◌∷◌, map, length, take, filter, any, order_asc, order_desc, leb, ltb, ◌==◌, if◌then◌else◌,
  Outcome, ok, err, conflict, plain_error, ◌>>=◌, ◌>>◌, throw_if, or_throw, only_row,
}
use amazingchance.Draws.Types.{DrawType, same_draw_type}
use amazingchance.Finance.Allocation.{ends_after, basis_points_total}

pub record PrizeDistributionEntry : Type 0 where
  pub rank : ℕ
  pub share_bps : ℕ

-- A row of `prize_distribution_rules` with its entries.
pub record PrizeDistributionRule : Type 0 where
  pub id : String
  pub version : ℕ
  pub draw_type : DrawType
  pub effective_from : ℕ
  pub effective_to : Option ℕ
  pub entries : List PrizeDistributionEntry

pub record ResolvedPrizeDistributionRule : Type 0 where
  pub id : String
  pub version : ℕ
  pub draw_type : DrawType
  pub effective_at : ℕ
  pub entries : List PrizeDistributionEntry

pub record CalculatedPrize : Type 0 where
  pub rank : ℕ
  pub share_bps : ℕ
  pub amount_minor : ℕ

abbrev pub is_effective : DrawType → ℕ → PrizeDistributionRule → Bool
is_effective type at r =
    same_draw_type r.draw_type type && leb r.effective_from at && ends_after r.effective_to at

abbrev pub with_ordered_entries : PrizeDistributionRule → PrizeDistributionRule
with_ordered_entries r = record r { entries = order_asc (λ e. e.rank) r.entries }

-- `findMany`: the two latest versions in effect, each with its entries by rank.
unfoldable pub effective_rules :
    DrawType → ℕ → List PrizeDistributionRule → List PrizeDistributionRule
effective_rules type at rules =
    map with_ordered_entries
      (take 2 (order_desc (λ r. r.version) (filter (is_effective type at) rules)))

-- `entries.every((entry, index) => entry.rank === index + 1)`, from an index on.
unfoldable pub ranks_valid : ℕ → List PrizeDistributionEntry → Bool
ranks_valid index [] = true
ranks_valid index (e ∷ es) = e.rank == index + 1 && ranks_valid (index + 1) es

unfoldable pub total_bps : List PrizeDistributionEntry → ℕ
total_bps [] = 0
total_bps (e ∷ es) = e.share_bps + total_bps es

unfoldable pub resolve :
    List PrizeDistributionRule → DrawType → Option ℕ → ℕ → Outcome ResolvedPrizeDistributionRule
resolve rules draw_type effective_at winner_count = do
  at ← or_throw effective_at (conflict "Prize distribution effective time is invalid")
  throw_if (ltb winner_count 1) (conflict "Winner count must be a positive integer")
  rule ←
      only_row (conflict "No prize distribution rule is effective")
        (conflict "Multiple prize distribution rules are effective")
        (effective_rules draw_type at rules)
  throw_if (not (length rule.entries == winner_count))
      (conflict "Prize distribution rule version does not match winner count")
  throw_if (not (ranks_valid 0 rule.entries))
      (conflict "Prize distribution rule version must define contiguous ranks starting at 1")
  throw_if (not (total_bps rule.entries == basis_points_total))
      (conflict "Prize distribution rule version must total 10000 basis points")
  ok (record {
    id = rule.id;
    version = rule.version;
    draw_type = rule.draw_type;
    effective_at = at;
    entries = rule.entries;
  })

-- `poolAmountMinor * BigInt(entry.shareBps) / 10000n`
unfoldable pub floor_share : ℕ → ℕ → ℕ
floor_share pool bps = pool * bps / basis_points_total

abbrev pub prize_of : ℕ → PrizeDistributionEntry → CalculatedPrize
prize_of pool e = record {
  rank = e.rank;
  share_bps = e.share_bps;
  amount_minor = floor_share pool e.share_bps;
}

unfoldable pub sum_amounts : List CalculatedPrize → ℕ
sum_amounts [] = 0
sum_amounts (p ∷ ps) = p.amount_minor + sum_amounts ps

-- `calculated[0] = { ...calculated[0], amountMinor: calculated[0].amountMinor + remainder }`
unfoldable pub add_to_first : ℕ → List CalculatedPrize → Outcome (List CalculatedPrize)
add_to_first remainder [] = err (plain_error "TypeError")
add_to_first remainder (p ∷ ps) = ok (record p { amount_minor = p.amount_minor + remainder } ∷ ps)

-- The pool is positive behind the first guard. Where more than the pool is allocated, the remainder
-- of the source is negative and this one is 0: neither is given to the first prize.
unfoldable pub calculate : ℤ → ResolvedPrizeDistributionRule → Outcome (List CalculatedPrize)
unfolding sum_amounts add_to_first
calculate pool_amount_minor rule = do
  throw_if (leb_ℤ pool_amount_minor (pos 0)) (conflict "Prize pool must be positive")
  let pool = pos_part pool_amount_minor
  let calculated = map (prize_of pool) rule.entries
  let remainder = pool - sum_amounts calculated
  prizes ← if ltb 0 remainder then add_to_first remainder calculated else ok calculated
  throw_if (any (λ p. p.amount_minor == 0) prizes)
      (conflict "Prize pool is too small for the configured distribution rule")
  ok prizes
