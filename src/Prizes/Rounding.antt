-- ===== src/Prizes/Rounding.antt =====
-- The rounding of `calculate` of prize-distribution.service.ts, under a rule that `resolve` gave.
use amazingchance.Base.{
  ℕ, ◌+◌, ◌*◌, ◌≤◌, ◌<◌, ◌≡◌, refl, ap, subst, true, false, not, Option, none, some, List, [], ◌∷◌,
  map, length, any, All, ltb, ◌==◌, arith, ok, ok-injective, >>=-eq-ok, throw_if, throw_if-eq-ok,
  only_row,
}
use amazingchance.Draws.Types.{DrawType}
use amazingchance.Finance.Allocation.{basis_points_total}
use amazingchance.Prizes.Distribution.{
  PrizeDistributionEntry, PrizeDistributionRule, ResolvedPrizeDistributionRule, CalculatedPrize,
  effective_rules, ranks_valid, total_bps, resolve, floor_share, prize_of, sum_amounts,
}

-- What `resolve` has made sure of.
pub record IsResolved (winner_count : ℕ) (rule : ResolvedPrizeDistributionRule) : Type 0 where
  pub some_winner : 1 ≤ winner_count
  pub one_each : length rule.entries ≡ winner_count
  pub ranks : ranks_valid 0 rule.entries ≡ true
  pub total : total_bps rule.entries ≡ basis_points_total

pub resolve-IsResolved :
    (rules : List PrizeDistributionRule) (type : DrawType) (effective_at : Option ℕ)
    (winner_count : ℕ) {rule : ResolvedPrizeDistributionRule}
    → resolve rules type effective_at winner_count ≡ ok rule
    → IsResolved winner_count rule
unfolding resolve
resolve-IsResolved rules type none n h = ground arith
resolve-IsResolved rules type (some at) n {rule} h =
    let (_, a, h0) = >>=-eq-ok (throw_if (ltb n 1) _) _ h in
    let (row, _, h1) = >>=-eq-ok (only_row _ _ (effective_rules type at rules)) _ h0 in
    let (_, b, h2) = >>=-eq-ok (throw_if (not (length row.entries == n)) _) _ h1 in
    let (_, c, h3) = >>=-eq-ok (throw_if (not (ranks_valid 0 row.entries)) _) _ h2 in
    let (_, d, h4) =
      >>=-eq-ok (throw_if (not (total_bps row.entries == basis_points_total)) _) _ h3 in
    let some_winner = throw_if-eq-ok (ltb n 1) _ a in
    let one_each = throw_if-eq-ok (not (length row.entries == n)) _ b in
    let ranks = throw_if-eq-ok (not (ranks_valid 0 row.entries)) _ c in
    let total = throw_if-eq-ok (not (total_bps row.entries == basis_points_total)) _ d in
    subst (IsResolved n) (ok-injective h4) (record {
      some_winner = ground arith;
      one_each = ground arith;
      ranks = ground arith;
      total = ground arith;
    })

pub floor_share_bounds :
    (pool bps : ℕ)
    → (floor_share pool bps * basis_points_total ≤ pool * bps)
      × (pool * bps < floor_share pool bps * basis_points_total + basis_points_total)
unfolding floor_share
floor_share_bounds pool bps = (omega arith, omega arith)

-- The rounded shares fall short of the pool's part by less than one unit each.
pub sum_floor_bounds :
    (pool : ℕ) (es : List PrizeDistributionEntry)
    → (sum_amounts (map (prize_of pool) es) * basis_points_total ≤ pool * total_bps es)
      × (pool * total_bps es + length es
          ≤ sum_amounts (map (prize_of pool) es) * basis_points_total
            + length es * basis_points_total)
unfolding sum_amounts total_bps
sum_floor_bounds pool [] = (omega arith, omega arith)
sum_floor_bounds pool (e ∷ es) =
    let ih = sum_floor_bounds pool es in
    let b = floor_share_bounds pool e.share_bps in
    (omega (arith, ih.0, b.0), omega (arith, ih.1, b.1))

-- The remainder is less than one unit for each winner.
pub remainder_bounds :
    (pool : ℕ) (es : List PrizeDistributionEntry)
    → total_bps es ≡ basis_points_total
    → 1 ≤ length es
    → (sum_amounts (map (prize_of pool) es) ≤ pool)
      × (pool < sum_amounts (map (prize_of pool) es) + length es)
remainder_bounds pool es total some_entry =
    let b = sum_floor_bounds pool es in
    let e = ap (λ (t : ℕ). pool * t) total in (omega (arith, b.0, e), omega (arith, b.1, e))

-- The first prize with so much more.
abbrev pub give_first : ℕ → List CalculatedPrize → List CalculatedPrize
give_first extra [] = []
give_first extra (p ∷ ps) = record p { amount_minor = p.amount_minor + extra } ∷ ps

-- The pool is given out in full: by rank, each winner gets the share of the rule rounded down, and
-- the first what is left over, less than a minor unit for each winner. Nobody gets nothing.
pub record IsDistribution (pool : ℕ) (rule : ResolvedPrizeDistributionRule)
    (prizes : List CalculatedPrize) : Type 0 where
  pub extra : ℕ
  pub extra_below : extra < length rule.entries
  pub prizes_eq : prizes ≡ give_first extra (map (prize_of pool) rule.entries)
  pub sum_eq : sum_amounts prizes ≡ pool
  pub positive : All (λ p. 0 < p.amount_minor) prizes

pub give_first_zero : (ps : List CalculatedPrize) → give_first 0 ps ≡ ps
give_first_zero [] = refl
give_first_zero (p ∷ ps) = ap (λ (n : ℕ). record p { amount_minor = n } ∷ ps) (omega arith)

pub sum-give_first :
    (extra : ℕ) (ps : List CalculatedPrize)
    → 1 ≤ length ps
    → sum_amounts (give_first extra ps) ≡ sum_amounts ps + extra
unfolding sum_amounts
sum-give_first extra [] h = absurd (omega arith)
sum-give_first extra (p ∷ ps) h = omega arith

pub give_first-positive :
    (extra : ℕ) (ps : List CalculatedPrize)
    → All (λ p. 0 < p.amount_minor) ps
    → All (λ p. 0 < p.amount_minor) (give_first extra ps)
give_first-positive extra [] h = tt
give_first-positive extra (p ∷ ps) h = (omega arith, h.1)

pub not_any_zero :
    (ps : List CalculatedPrize)
    → any (λ p. p.amount_minor == 0) ps ≡ false
    → All (λ p. 0 < p.amount_minor) ps
not_any_zero [] h = tt
not_any_zero (p ∷ ps) h = ground (arith, not_any_zero ps)

pub any_zero_not :
    (ps : List CalculatedPrize)
    → All (λ p. 0 < p.amount_minor) ps
    → any (λ p. p.amount_minor == 0) ps ≡ false
any_zero_not [] h = refl
any_zero_not (p ∷ ps) h = ground (arith, any_zero_not ps h.1)
