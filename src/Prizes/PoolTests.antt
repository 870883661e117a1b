-- ===== src/Prizes/PoolTests.antt =====
-- A payment of 999 for a draw, and the pools that it adds to.
use amazingchance.Prizes.Pool.{is_weekly_source}
use amazingchance.Prizes.Sources.{IsWeeklySource, IsAnnualSource}
use amazingchance.Base.{
  ◌⊎◌, false, ◌∷◌, pos, ◌+ℤ◌, ◌-ℤ◌, ◌≡◌, true, refl, none, some, [], ok, err, conflict, is_blank,
  is_currency_code,
}
use amazingchance.Ledger.Types.{LedgerTables, AppendLedgerTransactionInput}
use amazingchance.Ledger.Service.{
  append_in_transaction, validate_input, sum_sides, replay_or, insert_transaction,
}
use amazingchance.Ledger.Store.{stored_row, with_stored}
use amazingchance.Ledger.Append.{stored_result}
use amazingchance.Ledger.Tests.{payment, no_rows, no_rows-IsValid}
use amazingchance.Finance.Allocation.{allocate_by, build_ledger_postings, credits, share}
use amazingchance.Finance.Tests.{rule, rules, allocate_999}
use amazingchance.Draws.Types.{weekly}
use amazingchance.Draws.Service.{utc_full_year}
use amazingchance.Draws.Tests.{draw}
use amazingchance.Prizes.Pool.{
  is_annual_source, PrizePoolInput, weekly_pool, annual_pool, resolve_pool, resolve_typed,
  assert_positive_pool,
}
use amazingchance.Prizes.Growth.{weekly_pool-append, annual_pool-append}

abbrev divided : AppendLedgerTransactionInput
divided = record payment { postings = build_ledger_postings (allocate_by rule 999 150) }

abbrev paid : LedgerTables
paid = with_stored "t1" 7 divided no_rows

paid_now : append_in_transaction "t1" 7 divided no_rows ≡ ok (paid, stored_result "t1" 7 divided)
unfolding append_in_transaction validate_input is_blank is_currency_code sum_sides ◌+ℤ◌ ◌-ℤ◌
    replay_or insert_transaction build_ledger_postings credits allocate_by share
paid_now = refl

abbrev first_draw : PrizePoolInput
first_draw = record {
  draw_id = "d1";
  draw_type = weekly;
  participation_year = none;
  currency = "USD";
}

nothing_yet :
    resolve_pool [] no_rows first_draw
    ≡ err (conflict "No positive ledger-backed prize pool is available for the draw")
unfolding resolve_pool resolve_typed assert_positive_pool weekly_pool is_currency_code
nothing_yet = refl

weekly_pool-append_example :
    (IsWeeklySource "USD" "d1" divided
      × (weekly_pool "USD" "d1" paid
          ≡ (allocate_by rule 999 150).weekly_jackpot_minor +ℤ weekly_pool "USD" "d1" no_rows))
    ⊎ ((¬ IsWeeklySource "USD" "d1" divided)
        × (weekly_pool "USD" "d1" paid ≡ weekly_pool "USD" "d1" no_rows))
weekly_pool-append_example =
    weekly_pool-append rules (pos 999) (some 150) "t1" 7 divided no_rows "USD" "d1" allocate_999
      refl no_rows-IsValid refl paid_now

for_first_draw : is_weekly_source "USD" "d1" (stored_row "t1" 7 divided) ≡ true
for_first_draw = refl

for_no_other : is_weekly_source "USD" "d2" (stored_row "t1" 7 divided) ≡ false
for_no_other = refl

-- The draw with that id is held in 1970.
annual_pool-append_example :
    (IsAnnualSource "USD" 1970 (draw ∷ []) divided
      × (annual_pool "USD" 1970 (draw ∷ []) paid
          ≡ (allocate_by rule 999 150).annual_jackpot_minor
            +ℤ annual_pool "USD" 1970 (draw ∷ []) no_rows))
    ⊎ ((¬ IsAnnualSource "USD" 1970 (draw ∷ []) divided)
        × (annual_pool "USD" 1970 (draw ∷ []) paid ≡ annual_pool "USD" 1970 (draw ∷ []) no_rows))
annual_pool-append_example =
    annual_pool-append rules (pos 999) (some 150) "t1" 7 divided no_rows "USD" 1970 (draw ∷ [])
      allocate_999 refl no_rows-IsValid refl paid_now

in_1970 : is_annual_source "USD" 1970 (draw ∷ []) (stored_row "t1" 7 divided) ≡ true
unfolding utc_full_year
in_1970 = refl
