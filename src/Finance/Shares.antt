-- ===== src/Finance/Shares.antt =====
-- The shares that `resolveAndAllocateWithClient` of financial-allocation.service.ts computes.
use amazingchance.Base.{
  ℕ, ◌+◌, ◌*◌, ◌-◌, ◌≤◌, ◌<◌, ℤ, pos, int_laws, leb_ℤ, ◌≡◌, refl, sym, ap, subst, ◌∙◌, ◌↔◌, not,
  Option, none, some, List, [], ◌∷◌, arith, ◌==◌, ok, only_row, only_row_lem, filter, order_desc,
  take, length, length-order_by, negsuc, >>=-eq-ok, throw_if-eq-ok, ok-injective, throw_if,
}
use amazingchance.Finance.Allocation.{
  AllocationRule, FinancialAllocation, basis_points_total, is_effective, effective_rules, share,
  allocate_by, rule_total, resolve_and_allocate,
}

-- `m` is the share of `bps` in `amount`, rounded down.
abbrev pub IsFloorShare : ℕ → ℕ → ℕ → Type 0
IsFloorShare amount bps m =
    (m * basis_points_total ≤ amount * bps) × (amount * bps < (m + 1) * basis_points_total)

share-IsFloorShare : (amount bps : ℕ) → IsFloorShare amount bps (share amount bps)
unfolding share
share-IsFloorShare amount bps = (omega arith, omega arith)

-- How an amount is divided by a rule's basis points.
pub record IsSplit (amount : ℕ) (a : FinancialAllocation) : Type 0 where
  pub weekly : ℕ
  pub annual : ℕ
  pub company : ℕ
  pub source_eq : a.source_amount_minor ≡ pos amount
  pub weekly_eq : a.weekly_jackpot_minor ≡ pos weekly
  pub annual_eq : a.annual_jackpot_minor ≡ pos annual
  pub company_eq : a.company_revenue_minor ≡ pos company
  pub sum_eq : weekly + annual + company ≡ amount
  pub weekly_share : IsFloorShare amount a.weekly_jackpot_bps weekly
  pub annual_share : IsFloorShare amount a.annual_jackpot_bps annual
  pub company_at_least : amount * a.company_revenue_bps ≤ company * basis_points_total
  pub company_below :
      company * basis_points_total < amount * a.company_revenue_bps + 2 * basis_points_total

module _ (rule : AllocationRule) (amount at : ℕ)
    (total : rule_total rule ≡ basis_points_total) where
  shares_sum :
      amount * rule.weekly_jackpot_bps
        + amount * rule.annual_jackpot_bps
        + amount * rule.company_revenue_bps
      ≡ amount * basis_points_total
  shares_sum = omega (arith, ap (λ (t : ℕ). amount * t) total)

  allocate_by-IsSplit : IsSplit amount (allocate_by rule amount at)
  unfolding allocate_by
  allocate_by-IsSplit =
      let w = share amount rule.weekly_jackpot_bps in
      let a = share amount rule.annual_jackpot_bps in
      let hw = share-IsFloorShare amount rule.weekly_jackpot_bps in
      let ha = share-IsFloorShare amount rule.annual_jackpot_bps in
      let fits : w + a ≤ amount = omega (arith, shares_sum, hw.0, ha.0) in
      record {
        weekly = w;
        annual = a;
        company = amount - w - a;
        source_eq = refl;
        weekly_eq = refl;
        annual_eq = refl;
        company_eq = omega int_laws;
        sum_eq = omega arith;
        weekly_share = hw;
        annual_share = ha;
        company_at_least = omega (arith, shares_sum, hw.0, ha.0);
        company_below = omega (arith, shares_sum, hw.1, ha.1);
      }

-- When the service may divide a payment: a positive amount, a valid time, and a rule that alone is
-- in effect then and whose basis points total 10000.
pub record MayAllocate (rules : List AllocationRule) (amount_minor : ℤ) (effective_at : Option ℕ)
    : Type 0 where
  pub amount : ℕ
  pub amount_eq : amount_minor ≡ pos amount
  pub positive : 0 < amount
  pub at : ℕ
  pub at_eq : effective_at ≡ some at
  pub rule : AllocationRule
  pub alone : filter (is_effective at) rules ≡ rule ∷ []
  pub total : rule_total rule ≡ basis_points_total

length_one :
    (n : ℕ) (rules : List AllocationRule)
    → length rules ≡ 1
    → (r : AllocationRule) × (rules ≡ r ∷ [])
length_one n [] h = absurd (omega arith)
length_one n (r ∷ []) h = (r, refl)
length_one n (r ∷ s ∷ rest) h = absurd (omega arith)

take_two_one :
    (rows : List AllocationRule) {r : AllocationRule} → take 2 rows ≡ r ∷ [] → rows ≡ r ∷ []
take_two_one [] h = cc
take_two_one (x ∷ []) h = h
take_two_one (x ∷ y ∷ rest) h = cc

effective_rules_alone :
    (at : ℕ) (rules : List AllocationRule) {rule : AllocationRule}
    → effective_rules at rules ≡ rule ∷ []
    → filter (is_effective at) rules ≡ rule ∷ []
unfolding effective_rules
effective_rules_alone at rules {rule} h =
    let found = filter (is_effective at) rules in
    let ordered = take_two_one (order_desc (λ r. r.version) found) h in
    let (r, e) = length_one 0 found (sym (length-order_by _ found) ∙ ap length ordered) in
    e ∙ sym (ap (order_desc (λ r. r.version)) e) ∙ ordered

effective_rules_of_alone :
    (at : ℕ) (rules : List AllocationRule) {rule : AllocationRule}
    → filter (is_effective at) rules ≡ rule ∷ []
    → effective_rules at rules ≡ rule ∷ []
unfolding effective_rules
effective_rules_of_alone at rules h = rw h

resolve_and_allocate-inverse :
    (rules : List AllocationRule) (amount_minor : ℤ) (effective_at : Option ℕ)
    {a : FinancialAllocation}
    → resolve_and_allocate rules amount_minor effective_at ≡ ok a
    → (m : MayAllocate rules amount_minor effective_at) × (a ≡ allocate_by m.rule m.amount m.at)
unfolding resolve_and_allocate
resolve_and_allocate-inverse rules (negsuc n) effective_at h = ground arith
resolve_and_allocate-inverse rules (pos n) none h = ground arith
resolve_and_allocate-inverse rules (pos n) (some at) {a} h =
    let (t0, positive, h0) = >>=-eq-ok (throw_if (leb_ℤ (pos n) (pos 0)) _) _ h in
    let (rule, only, h1) = >>=-eq-ok (only_row _ _ (effective_rules at rules)) _ h0 in
    let (t1, total, h2) =
      >>=-eq-ok (throw_if (not (rule_total rule == basis_points_total)) _) _ h1 in
    let not_zero = throw_if-eq-ok (leb_ℤ (pos n) (pos 0)) _ positive in
    let adds_up = throw_if-eq-ok (not (rule_total rule == basis_points_total)) _ total in
    (
      record {
        amount = n;
        amount_eq = refl;
        positive = ground arith;
        at = at;
        at_eq = refl;
        rule = rule;
        alone = effective_rules_alone at rules (only_row_lem _ _ (effective_rules at rules) only);
        total = ground arith;
      },
      sym (ok-injective h2),
    )

resolve_and_allocate_complete :
    (rules : List AllocationRule) (amount_minor : ℤ) (effective_at : Option ℕ)
    (m : MayAllocate rules amount_minor effective_at)
    → resolve_and_allocate rules amount_minor effective_at ≡ ok (allocate_by m.rule m.amount m.at)
unfolding resolve_and_allocate
resolve_and_allocate_complete rules amount_minor effective_at m =
    rw (m.amount_eq, m.at_eq)
      (ground (arith, effective_rules_of_alone m.at rules m.alone, m.positive, m.total))

-- A payment is divided exactly when its amount is positive, its time is valid, and just one rule is
-- in effect then, which totals 10000 basis points.
pub resolve_and_allocate_iff :
    (rules : List AllocationRule) (amount_minor : ℤ) (effective_at : Option ℕ)
    → ((a : FinancialAllocation) × (resolve_and_allocate rules amount_minor effective_at ≡ ok a))
      ↔ MayAllocate rules amount_minor effective_at
resolve_and_allocate_iff rules amount_minor effective_at = (
  λ (a, h). (resolve_and_allocate-inverse rules amount_minor effective_at h).0,
  λ m. (_, resolve_and_allocate_complete rules amount_minor effective_at m),
)

-- What is divided is the whole amount: the two jackpots get their shares rounded down, and the
-- company the rest, which is its share or up to two minor units more.
pub resolve_and_allocate-IsSplit :
    (rules : List AllocationRule) (amount_minor : ℤ) (effective_at : Option ℕ)
    {a : FinancialAllocation}
    → resolve_and_allocate rules amount_minor effective_at ≡ ok a
    → (amount : ℕ) × (amount_minor ≡ pos amount) × (0 < amount) × IsSplit amount a
resolve_and_allocate-IsSplit rules amount_minor effective_at h =
    let (m, e) = resolve_and_allocate-inverse rules amount_minor effective_at h in
    (
      m.amount,
      m.amount_eq,
      m.positive,
      subst (IsSplit m.amount) (sym e) (allocate_by-IsSplit m.rule m.amount m.at m.total),
    )
