-- ===== src/Prizes/Pool.antt =====
-- PrizePoolService of prize-pool.service.ts. A join on the id of a transaction, which is unique, is a
-- test that there is one.
use amazingchance.Base.{
  ℕ, ℤ, pos, ◌+ℤ◌, leb_ℤ, String, Bool, true, false, not, ◌&&◌, Option, none, some, List, [], ◌∷◌,
  filter, any, str_eq, ◌==◌, is_currency_code, if◌then◌else◌, Outcome, ok, conflict, ◌>>=◌, ◌>>◌,
  throw_if, or_throw,
}
use amazingchance.Ledger.Types.{
  LedgerAccountCode, weekly_jackpot, annual_jackpot, LedgerSide, debit, credit, LedgerTransaction,
  LedgerPosting, LedgerTables, Metadata, MetadataValue, text_value, number_value, other_value,
  same_type, payment_allocation,
}
use amazingchance.Ledger.Service.{has_id}
use amazingchance.Draws.Types.{DrawType, weekly, annual, LotteryDraw, same_draw_type}
use amazingchance.Draws.Service.{utc_full_year}

pub record PrizePoolInput : Type 0 where
  pub draw_id : String
  pub draw_type : DrawType
  pub participation_year : Option ℕ
  pub currency : String

pub record ResolvedPrizePool : Type 0 where
  pub amount_minor : ℤ
  pub source_account_code : LedgerAccountCode

abbrev pub is_weekly_jackpot : LedgerAccountCode → Bool
is_weekly_jackpot weekly_jackpot = true
is_weekly_jackpot _ = false

abbrev pub is_annual_jackpot : LedgerAccountCode → Bool
is_annual_jackpot annual_jackpot = true
is_annual_jackpot _ = false

abbrev pub is_credit : LedgerSide → Bool
is_credit credit = true
is_credit debit = false

abbrev pub is_text : String → MetadataValue → Bool
is_text s (text_value t) = str_eq t s
is_text s (number_value z) = false
is_text s other_value = false

abbrev pub has_member : String → List (String × MetadataValue) → Bool
has_member value [] = false
has_member value (p ∷ ps) = if str_eq p.0 "drawId" then is_text value p.1 else has_member value ps

-- `metadata->>'drawId' = value`. An id is a UUID, so that it is the text of no other value.
abbrev pub has_draw_id : String → Metadata → Bool
has_draw_id value none = false
has_draw_id value (some members) = has_member value members

-- The rows of a join: credits to an account, of a transaction that passes a test.
abbrev pub counts :
    (LedgerAccountCode → Bool)
    → (LedgerTransaction → Bool)
    → List LedgerTransaction
    → LedgerPosting
    → Bool
counts of_account passes ts p =
    of_account p.account_code
    && is_credit p.side
    && any (λ t. has_id p.transaction_id t && passes t) ts

-- `COALESCE(SUM("amountMinor"), 0)`
abbrev pub sum_amount : List LedgerPosting → ℤ
sum_amount [] = pos 0
sum_amount (p ∷ ps) = p.amount_minor +ℤ sum_amount ps

abbrev pub pool_of : (LedgerAccountCode → Bool) → (LedgerTransaction → Bool) → LedgerTables → ℤ
pool_of of_account passes db =
    sum_amount (filter (counts of_account passes db.transactions) db.postings)

abbrev pub is_weekly_source : String → String → LedgerTransaction → Bool
is_weekly_source currency draw_id t =
    same_type t.type payment_allocation
    && str_eq t.currency currency
    && has_draw_id draw_id t.metadata

abbrev pub is_annual_source : String → ℕ → List LotteryDraw → LedgerTransaction → Bool
is_annual_source currency year draws t =
    same_type t.type payment_allocation
    && str_eq t.currency currency
    && any
        (λ d.
          has_draw_id d.id t.metadata
          && same_draw_type d.type weekly
          && utc_full_year d.scheduled_draw_at == year)
        draws

unfoldable pub weekly_pool : String → String → LedgerTables → ℤ
weekly_pool currency draw_id = pool_of is_weekly_jackpot (is_weekly_source currency draw_id)

unfoldable pub annual_pool : String → ℕ → List LotteryDraw → LedgerTables → ℤ
unfolding utc_full_year
annual_pool currency year draws = pool_of is_annual_jackpot (is_annual_source currency year draws)

unfoldable pub assert_positive_pool : ℤ → LedgerAccountCode → Outcome ResolvedPrizePool
assert_positive_pool amount_minor source_account_code = do
  throw_if (leb_ℤ amount_minor (pos 0))
      (conflict "No positive ledger-backed prize pool is available for the draw")
  ok (record { amount_minor = amount_minor; source_account_code = source_account_code })

-- By the type of the draw.
unfoldable pub resolve_typed :
    DrawType → List LotteryDraw → LedgerTables → PrizePoolInput → Outcome ResolvedPrizePool
unfolding assert_positive_pool weekly_pool annual_pool
resolve_typed weekly draws db input =
    assert_positive_pool (weekly_pool input.currency input.draw_id db) weekly_jackpot
resolve_typed annual draws db input =
    or_throw input.participation_year
      (conflict "Annual draw requires a participation year for prize-pool attribution")
    >>= λ year. assert_positive_pool (annual_pool input.currency year draws db) annual_jackpot

unfoldable pub resolve_pool :
    List LotteryDraw → LedgerTables → PrizePoolInput → Outcome ResolvedPrizePool
unfolding resolve_typed
resolve_pool draws db input =
    throw_if (not (is_currency_code input.currency)) (conflict "Prize pool currency is invalid")
    >> resolve_typed input.draw_type draws db input
