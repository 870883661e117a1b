-- ===== src/Prizes/Calculation.antt =====
-- What `calculate` of prize-distribution.service.ts makes of a pool under a rule that `resolve` gave.
use amazingchance.Base.{
  ℕ, zero, suc, ◌-◌, ◌*◌, ◌≤◌, ◌<◌, ℤ, pos, negsuc, leb_ℤ, ◌≡◌, refl, sym, ap, subst, ◌∙◌, false,
  Option, List, [], ◌∷◌, map, length, length-map, any, All, ltb, ◌==◌, arith, if◌then◌else◌,
  Outcome, ok, ok-injective, conflict, ◌>>◌, >>=-eq-ok, throw_if, throw_if-eq-ok,
}
use amazingchance.Draws.Types.{DrawType}
use amazingchance.Finance.Allocation.{basis_points_total}
use amazingchance.Prizes.Distribution.{
  PrizeDistributionEntry, PrizeDistributionRule, ResolvedPrizeDistributionRule, CalculatedPrize,
  resolve, prize_of, sum_amounts, add_to_first, calculate,
}
use amazingchance.Prizes.Rounding.{
  IsResolved, resolve-IsResolved, floor_share_bounds, remainder_bounds, give_first, IsDistribution,
  give_first_zero, sum-give_first, give_first-positive, not_any_zero, any_zero_not,
}

-- The top-up of the first prize, whether there is a remainder or none.
abbrev topped : ℕ → List CalculatedPrize → Outcome (List CalculatedPrize)
topped remainder ps = if ltb 0 remainder then add_to_first remainder ps else ok ps

topped-give_first :
    (remainder : ℕ) (ps : List CalculatedPrize)
    → 1 ≤ length ps
    → topped remainder ps ≡ ok (give_first remainder ps)
unfolding add_to_first
topped-give_first zero ps h = ap ok (sym (give_first_zero ps))
topped-give_first (suc n) [] h = absurd (omega arith)
topped-give_first (suc n) (p ∷ ps) h = ground arith

abbrev given : ℕ → ResolvedPrizeDistributionRule → List CalculatedPrize
given pool rule =
    give_first (pool - sum_amounts (map (prize_of pool) rule.entries))
      (map (prize_of pool) rule.entries)

calculate_lem :
    (n : ℕ) (rule : ResolvedPrizeDistributionRule)
    → 1 ≤ length rule.entries
    → calculate (pos (suc n)) rule ≡ (
        throw_if
          (any (λ p. p.amount_minor == 0) (given (suc n) rule))
          (conflict "Prize pool is too small for the configured distribution rule")
        >> ok (given (suc n) rule))
unfolding calculate
calculate_lem n rule some_entry =
    let ps = map (prize_of (suc n)) rule.entries in
    let positive : leb_ℤ (pos (suc n)) (pos 0) ≡ false = ground arith in
    rw positive (
      rw
        (topped-give_first (suc n - sum_amounts ps) ps
          (rw (length-map (prize_of (suc n)) rule.entries) some_entry))
        refl)

given-IsDistribution :
    (pool winner_count : ℕ) (rule : ResolvedPrizeDistributionRule)
    → IsResolved winner_count rule
    → All (λ p. 0 < p.amount_minor) (given pool rule)
    → IsDistribution pool rule (given pool rule)
given-IsDistribution pool winner_count rule v positive =
    let ps = map (prize_of pool) rule.entries in
    let some_entry : 1 ≤ length rule.entries = omega (arith, v.one_each, v.some_winner) in
    let b = remainder_bounds pool rule.entries v.total some_entry in
    record {
      extra = pool - sum_amounts ps;
      extra_below = omega (arith, b.1);
      prizes_eq = refl;
      sum_eq = omega (
        arith,
        b.0,
        sum-give_first (pool - sum_amounts ps) ps
            (rw (length-map (prize_of pool) rule.entries) some_entry),
      );
      positive = positive;
    }

calculate-given :
    (pool_amount_minor : ℤ) (rule : ResolvedPrizeDistributionRule) {prizes : List CalculatedPrize}
    → 1 ≤ length rule.entries
    → calculate pool_amount_minor rule ≡ ok prizes
    → (pool : ℕ) × (pool_amount_minor ≡ pos pool)
      × (prizes ≡ given pool rule)
      × All (λ p. 0 < p.amount_minor) (given pool rule)
calculate-given (negsuc n) rule some_entry h = unfold calculate in ground arith
calculate-given (pos zero) rule some_entry h = unfold calculate in ground arith
calculate-given (pos (suc n)) rule some_entry h =
    let (_, kept, e) =
      >>=-eq-ok (throw_if (any _ (given (suc n) rule)) _) _
        (sym (calculate_lem n rule some_entry) ∙ h) in
    (
      suc n,
      refl,
      sym (ok-injective e),
      not_any_zero (given (suc n) rule) (throw_if-eq-ok (any _ (given (suc n) rule)) _ kept),
    )

-- Under a resolved rule, whatever `calculate` returns is a distribution of a positive pool.
pub calculate-IsDistribution :
    (rules : List PrizeDistributionRule) (type : DrawType) (effective_at : Option ℕ)
    (winner_count : ℕ) (pool_amount_minor : ℤ) {rule : ResolvedPrizeDistributionRule}
    {prizes : List CalculatedPrize}
    → resolve rules type effective_at winner_count ≡ ok rule
    → calculate pool_amount_minor rule ≡ ok prizes
    → (pool : ℕ) × (pool_amount_minor ≡ pos pool) × IsDistribution pool rule prizes
calculate-IsDistribution rules type effective_at n pool_amount_minor {rule} r h =
    let v = resolve-IsResolved rules type effective_at n r in
    let (pool, e, same, positive) =
      calculate-given pool_amount_minor rule (omega (arith, v.one_each, v.some_winner)) h in
    (
      pool,
      e,
      subst (IsDistribution pool rule) (sym same) (given-IsDistribution pool n rule v positive),
    )

le-mul_positive : (m n : ℕ) → 1 ≤ n → m ≤ m * n
le-mul_positive m zero h = absurd (omega arith)
le-mul_positive m (suc n) h = omega arith

positive_shares :
    (pool : ℕ) (es : List PrizeDistributionEntry)
    → basis_points_total ≤ pool
    → All (λ e. 1 ≤ e.share_bps) es
    → All (λ p. 0 < p.amount_minor) (map (prize_of pool) es)
positive_shares pool [] h k = tt
positive_shares pool (e ∷ es) h k =
    let more : pool ≤ pool * e.share_bps = le-mul_positive pool e.share_bps k.0 in
    (omega (arith, more, floor_share_bounds pool e.share_bps), positive_shares pool es h k.1)

-- A pool of 10000 minor units or more can be distributed under any resolved rule of positive shares.
pub calculate_total :
    (rules : List PrizeDistributionRule) (type : DrawType) (effective_at : Option ℕ)
    (winner_count pool : ℕ) {rule : ResolvedPrizeDistributionRule}
    → resolve rules type effective_at winner_count ≡ ok rule
    → All (λ e. 1 ≤ e.share_bps) rule.entries
    → basis_points_total ≤ pool
    → (prizes : List CalculatedPrize) × (calculate (pos pool) rule ≡ ok prizes)
calculate_total rules type effective_at n zero r shares large = absurd (omega arith)
calculate_total rules type effective_at n (suc k) {rule} r shares large =
    let v = resolve-IsResolved rules type effective_at n r in
    (
      given (suc k) rule,
      calculate_lem k rule (omega (arith, v.one_each, v.some_winner))
          ∙ rw
              (any_zero_not (given (suc k) rule)
                (give_first-positive _ _ (positive_shares (suc k) rule.entries large shares)))
              refl,
    )
