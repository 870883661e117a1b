-- ===== src/Prizes/Growth.antt =====
-- How the pools of prize-pool.service.ts grow with the payments that
-- financial-allocation.service.ts divides and ledger.service.ts stores.
use amazingchance.Base.{
  ◌↔◌, ◌⊎◌, ℕ, ℤ, pos, ◌+ℤ◌, zero-+ℤ, ◌≡◌, refl, ◌∙◌, inl, inr, String, Bool, true, false, Option,
  none, List, find, if◌then◌else◌, ok,
}
use amazingchance.Ledger.Types.{
  LedgerTables, AppendLedgerTransactionInput, AppendLedgerTransactionResult,
}
use amazingchance.Ledger.Service.{has_key, append_in_transaction}
use amazingchance.Ledger.Store.{IsValid, stored_row}
use amazingchance.Finance.Allocation.{
  AllocationRule, FinancialAllocation, resolve_and_allocate, build_ledger_postings,
}
use amazingchance.Draws.Types.{LotteryDraw}
use amazingchance.Prizes.Pool.{is_weekly_source, is_annual_source, weekly_pool, annual_pool}
use amazingchance.Prizes.Sources.{
  IsWeeklySource, IsAnnualSource, is_weekly_source_iff, is_annual_source_iff,
}
use amazingchance.Prizes.Payments.{weekly_pool_stored, annual_pool_stored}

-- What a Boolean adds where it tells whether something holds.
added_if :
    (b : Bool) (P : Type 0) (share before after : ℤ)
    → (b ≡ true) ↔ P
    → after ≡ (if b then share else pos 0) +ℤ before
    → (P × (after ≡ share +ℤ before)) ⊎ ((¬ P) × (after ≡ before))
added_if true P share before after tells e = inl (tells.0 refl, e)
added_if false P share before after tells e = inr (λ p. absurd (cc (tells.1 p)), e ∙ zero-+ℤ before)

-- A payment that is divided and stored under an unused key adds its weekly jackpot to the weekly
-- pool of the draw and the currency of its transaction, if that is a payment's allocation, and changes
-- no other weekly pool.
pub weekly_pool-append :
    (rules : List AllocationRule) (amount_minor : ℤ) (effective_at : Option ℕ)
    {a : FinancialAllocation} (id : String) (now : ℕ) (input : AppendLedgerTransactionInput)
    (db : LedgerTables) (currency draw_id : String) {u : LedgerTables}
    {r : AppendLedgerTransactionResult}
    → resolve_and_allocate rules amount_minor effective_at ≡ ok a
    → input.postings ≡ build_ledger_postings a
    → IsValid db
    → find (has_key input.idempotency_key) db.transactions ≡ none
    → append_in_transaction id now input db ≡ ok (u, r)
    → (IsWeeklySource currency draw_id input
        × (weekly_pool currency draw_id u
            ≡ a.weekly_jackpot_minor +ℤ weekly_pool currency draw_id db))
      ⊎ ((¬ IsWeeklySource currency draw_id input)
          × (weekly_pool currency draw_id u ≡ weekly_pool currency draw_id db))
weekly_pool-append rules amount_minor effective_at {a} id now input db currency draw_id {u} split
      same v free h =
    added_if (is_weekly_source currency draw_id (stored_row id now input))
      (IsWeeklySource currency draw_id input) a.weekly_jackpot_minor
      (weekly_pool currency draw_id db) (weekly_pool currency draw_id u)
      (is_weekly_source_iff id now input currency draw_id)
      (weekly_pool_stored rules amount_minor effective_at id now input db currency draw_id split
        same v free h)

-- A payment that is divided and stored under an unused key adds its annual jackpot to the annual
-- pool of its currency and of the year in which a weekly draw of its transaction is held, if that is a
-- payment's allocation, and changes no other annual pool.
pub annual_pool-append :
    (rules : List AllocationRule) (amount_minor : ℤ) (effective_at : Option ℕ)
    {a : FinancialAllocation} (id : String) (now : ℕ) (input : AppendLedgerTransactionInput)
    (db : LedgerTables) (currency : String) (year : ℕ) (draws : List LotteryDraw) {u : LedgerTables}
    {r : AppendLedgerTransactionResult}
    → resolve_and_allocate rules amount_minor effective_at ≡ ok a
    → input.postings ≡ build_ledger_postings a
    → IsValid db
    → find (has_key input.idempotency_key) db.transactions ≡ none
    → append_in_transaction id now input db ≡ ok (u, r)
    → (IsAnnualSource currency year draws input
        × (annual_pool currency year draws u
            ≡ a.annual_jackpot_minor +ℤ annual_pool currency year draws db))
      ⊎ ((¬ IsAnnualSource currency year draws input)
          × (annual_pool currency year draws u ≡ annual_pool currency year draws db))
annual_pool-append rules amount_minor effective_at {a} id now input db currency year draws {u} split
      same v free h =
    added_if (is_annual_source currency year draws (stored_row id now input))
      (IsAnnualSource currency year draws input) a.annual_jackpot_minor
      (annual_pool currency year draws db) (annual_pool currency year draws u)
      (is_annual_source_iff id now input currency year draws)
      (annual_pool_stored rules amount_minor effective_at id now input db currency year draws split
        same v free h)
