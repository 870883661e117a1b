-- ===== src/Winners/Claimed.antt =====
-- The pool and the ranks of the prizes once a draw is claimed, of winner-selection.service.ts.
use mathlib.Core.Path.{fun_ext}
use amazingchance.Base.{
  ℕ, ◌+◌, ℤ, pos, ◌==ℤ◌, ==ℤ_iff, String, ◌≡◌, refl, ap, inl, inr, Bool, true, not, ◌&&◌, some,
  List, [], ◌∷◌, map, any, suc, length, length-map, update_where, ◌==◌, Bool-cases, arith, ok,
  Option-cases, >>=-eq-ok, throw_if, throw_if-eq-ok,
}
use amazingchance.Draws.Types.{
  DrawType, weekly, annual, LotteryDraw, winner_selection_pending, same_draw_type,
}
use amazingchance.Draws.Service.{utc_full_year}
use amazingchance.Draws.Transitions.{at_status, with_status}
use amazingchance.Ledger.Types.{LedgerTransaction, LedgerTables}
use amazingchance.Prizes.Distribution.{PrizeDistributionEntry, ranks_valid, prize_of}
use amazingchance.Prizes.Rounding.{give_first}
use amazingchance.Prizes.Pool.{
  has_draw_id, PrizePoolInput, is_annual_source, annual_pool, resolve_typed, resolve_pool, pool_of,
  is_annual_jackpot,
}
use amazingchance.Winners.Tables.{Prize}
use amazingchance.Winners.Recognition.{valid_ranks, total_minor, assert_prize_evidence}
use amazingchance.Winners.Finalizer.{selecting}
use amazingchance.Winners.Results.{AreRanked}

-- An update of a draw's status does not change which draws are of a year.
pub any-update_where {ℓ} :
    {A : Type ℓ} (q p : A → Bool) (f : A → A) (xs : List A)
    → ((x : A) → q (f x) ≡ q x)
    → any q (update_where p f xs) ≡ any q xs
any-update_where q p f [] keeps = refl
any-update_where q p f (x ∷ xs) keeps = elim (Bool-cases (p x)) [
  | inl hit ↦ rw (hit, keeps x, any-update_where q p f xs keeps) refl
  | inr miss ↦ rw (miss, any-update_where q p f xs keeps) refl
]

module _ (now : ℕ) (id : String) (draws : List LotteryDraw) where
  abbrev pub claimed_draws : List LotteryDraw
  claimed_draws =
      update_where (at_status id selecting) (with_status now winner_selection_pending) draws

  abbrev pub is_of_year : ℕ → LedgerTransaction → LotteryDraw → Bool
  is_of_year year t d =
      has_draw_id d.id t.metadata
      && same_draw_type d.type weekly
      && utc_full_year d.scheduled_draw_at == year

  pub source_claimed :
      (currency : String) (year : ℕ) (t : LedgerTransaction)
      → is_annual_source currency year claimed_draws t ≡ is_annual_source currency year draws t
  source_claimed currency year t =
      rw
        (any-update_where (is_of_year year t) (at_status id selecting)
          (with_status now winner_selection_pending) draws λ d. refl)
        refl

  pub annual_pool_claimed :
      (currency : String) (year : ℕ) (db : LedgerTables)
      → annual_pool currency year claimed_draws db ≡ annual_pool currency year draws db
  unfolding annual_pool
  annual_pool_claimed currency year db =
      ap (λ s. pool_of is_annual_jackpot s db) (fun_ext λ t. source_claimed currency year t)

  pub resolve_typed_claimed :
      (type : DrawType) (db : LedgerTables) (input : PrizePoolInput)
      → resolve_typed type claimed_draws db input ≡ resolve_typed type draws db input
  unfolding resolve_typed
  resolve_typed_claimed weekly db input = refl
  resolve_typed_claimed annual db input = elim (Option-cases input.participation_year) [
    | inl missing ↦ rw missing refl
    | inr (year, e) ↦ rw (e, annual_pool_claimed input.currency year db) refl
  ]

  pub resolve_pool_claimed :
      (db : LedgerTables) (input : PrizePoolInput)
      → resolve_pool claimed_draws db input ≡ resolve_pool draws db input
  unfolding resolve_pool
  resolve_pool_claimed db input = rw (resolve_typed_claimed input.draw_type db input) refl

pub give_first_ranks :
    (extra pool : ℕ) (es : List PrizeDistributionEntry)
    → map (λ p. p.rank) (give_first extra (map (prize_of pool) es)) ≡ map (λ e. e.rank) es
give_first_ranks extra pool [] = refl
give_first_ranks extra pool (e ∷ es) = ap (◌∷◌ e.rank) (ranks es)
  where
    ranks :
        (es : List PrizeDistributionEntry)
        → map (λ p. p.rank) (map (prize_of pool) es) ≡ map (λ e. e.rank) es
    ranks [] = refl
    ranks (e ∷ es) = ap (◌∷◌ e.rank) (ranks es)

pub length-give_first :
    (extra pool : ℕ) (es : List PrizeDistributionEntry)
    → length (give_first extra (map (prize_of pool) es)) ≡ length es
length-give_first extra pool [] = refl
length-give_first extra pool (e ∷ es) = ap suc (length-map (prize_of pool) es)

pub ranks_valid-AreRanked :
    (index : ℕ) (es : List PrizeDistributionEntry)
    → ranks_valid index es ≡ true
    → AreRanked index (map (λ e. e.rank) es)
unfolding ranks_valid
ranks_valid-AreRanked index [] h = tt
ranks_valid-AreRanked index (e ∷ es) h =
    (ground arith, ranks_valid-AreRanked (index + 1) es (ground arith))

-- The recognized prizes of a draw, by rank: one for each winner, which share out the pool.
pub record HasPrizes (winner_count : ℕ) (pool : ℤ) (prizes : List Prize) : Type 0 where
  pub length_eq : length prizes ≡ winner_count
  pub valid : valid_ranks 0 prizes ≡ true
  pub total : total_minor (pos 0) prizes ≡ pool

pub assert_prize_evidence-HasPrizes :
    (prizes : List Prize) (n : ℕ) (pool : ℤ)
    → assert_prize_evidence prizes n (some pool) ≡ ok tt
    → HasPrizes n pool prizes
unfolding assert_prize_evidence
assert_prize_evidence-HasPrizes prizes n pool h =
    let (_, a, h1) = >>=-eq-ok (throw_if (not (length prizes == n)) _) _ h in
    let (_, b, h2) = >>=-eq-ok (throw_if (not (valid_ranks 0 prizes)) _) _ h1 in
    let counted = throw_if-eq-ok (not (length prizes == n)) _ a in
    let valid = throw_if-eq-ok (not (valid_ranks 0 prizes)) _ b in
    let total = throw_if-eq-ok (not (total_minor (pos 0) prizes ==ℤ pool)) _ h2 in
    record {
      length_eq = ground arith;
      valid = ground arith;
      total = (==ℤ_iff (total_minor (pos 0) prizes) pool).0 (ground arith);
    }
