-- ===== src/Prizes/Payments.antt =====
-- The sums of prize-pool.service.ts with a payment that financial-allocation.service.ts divides and
-- ledger.service.ts stores.
use amazingchance.Base.{
  ℕ, zero, suc, ℤ, pos, ◌+ℤ◌, ltb_ℤ, int_laws, zero-+ℤ, ◌≡◌, refl, sym, ap, ◌∙◌, inl, inr, String,
  Bool, true, false, ◌&&◌, Option, none, List, [], ◌∷◌, map, filter, find, Bool-cases,
  if◌then◌else◌, arith, ok, ok_pair,
}
use amazingchance.Ledger.Types.{
  LedgerAccountCode, weekly_jackpot, annual_jackpot, company_revenue, LedgerPosting,
  LedgerPostingInput, LedgerTables, AppendLedgerTransactionInput, AppendLedgerTransactionResult,
}
use amazingchance.Ledger.Service.{has_id, has_key, append_in_transaction, posting_row}
use amazingchance.Ledger.Validation.{validate_input_iff}
use amazingchance.Ledger.Store.{IsValid, with_stored, stored_row}
use amazingchance.Ledger.Append.{validated, replay_or_free, insert_transaction_cases}
use amazingchance.Finance.Allocation.{
  AllocationRule, FinancialAllocation, resolve_and_allocate, posting, credits,
  build_ledger_postings,
}
use amazingchance.Finance.Shares.{resolve_and_allocate-IsSplit}
use amazingchance.Draws.Types.{LotteryDraw}
use amazingchance.Prizes.Pool.{
  is_weekly_jackpot, is_annual_jackpot, is_credit, sum_amount, pool_of, is_weekly_source,
  is_annual_source, weekly_pool, annual_pool,
}
use amazingchance.Prizes.Sums.{counts_new, pool_of-with_stored}

-- A call with an unused key that returns has stored its input.
stored :
    (id : String) (now : ℕ) (input : AppendLedgerTransactionInput) (db u : LedgerTables)
    {r : AppendLedgerTransactionResult}
    → IsValid db
    → find (has_key input.idempotency_key) db.transactions ≡ none
    → append_in_transaction id now input db ≡ ok (u, r)
    → (u ≡ with_stored id now input db) × (find (has_id id) db.transactions ≡ none)
stored id now input db u v free h =
    let (good, run) = validated id now input db h in
    let made = sym (replay_or_free db db input _ free) ∙ run in
    elim (insert_transaction_cases id now input db v free ((validate_input_iff input).0 good)) [
      | inl refused ↦ absurd (cc (refused, made))
      | inr s ↦ (sym (ok_pair (sym s.returns ∙ made)).0, s.id_free)
    ]

abbrev is_positive : LedgerPostingInput → Bool
is_positive p = ltb_ℤ (pos 0) p.amount_minor

module _ (id : String) (k : LedgerPosting → Bool) where
  abbrev counted : List LedgerPostingInput → ℤ
  counted ps = sum_amount (filter k (map (posting_row id) ps))

  abbrev amount_if : LedgerAccountCode → ℕ → ℤ
  amount_if account n = if k (posting_row id (posting account (pos n))) then pos n else pos 0

  -- A credit of nothing, which is left out, would add nothing.
  counted-credit :
      (account : LedgerAccountCode) (n : ℕ) (ps : List LedgerPostingInput)
      → counted (filter is_positive (posting account (pos n) ∷ ps))
        ≡ amount_if account n +ℤ counted (filter is_positive ps)
  counted-credit account zero ps =
      elim (Bool-cases (k (posting_row id (posting account (pos zero))))) [
        | inl kept ↦ rw kept (sym (zero-+ℤ (counted (filter is_positive ps))))
        | inr left_out ↦ rw left_out (sym (zero-+ℤ (counted (filter is_positive ps))))
      ]
  counted-credit account (suc n) ps =
      let positive : ltb_ℤ (pos 0) (pos (suc n)) ≡ true = ground arith in
      elim (Bool-cases (k (posting_row id (posting account (pos (suc n)))))) [
        | inl kept ↦ rw (positive, kept) refl
        | inr left_out ↦ rw (positive, left_out) (sym (zero-+ℤ (counted (filter is_positive ps))))
      ]

  counted-credits :
      (a : FinancialAllocation) (w n c : ℕ)
      → a.weekly_jackpot_minor ≡ pos w
      → a.annual_jackpot_minor ≡ pos n
      → a.company_revenue_minor ≡ pos c
      → counted (credits a)
        ≡ amount_if weekly_jackpot w
          +ℤ (amount_if annual_jackpot n +ℤ (amount_if company_revenue c +ℤ pos 0))
  unfolding credits
  counted-credits a w n c ew en ec =
      let one = posting company_revenue (pos c) ∷ [] in
      let two = posting annual_jackpot (pos n) ∷ one in
      rw (ew, en, ec)
        (counted-credit weekly_jackpot w two
          ∙ ap (λ z. amount_if weekly_jackpot w +ℤ z)
              (counted-credit annual_jackpot n one
                ∙ ap (λ z. amount_if annual_jackpot n +ℤ z) (counted-credit company_revenue c [])))

weekly_part :
    (id : String) (a : FinancialAllocation) (w n c : ℕ) (b : Bool)
    → a.weekly_jackpot_minor ≡ pos w
    → a.annual_jackpot_minor ≡ pos n
    → a.company_revenue_minor ≡ pos c
    → counted id
        (λ p. is_weekly_jackpot p.account_code && is_credit p.side && b)
        (build_ledger_postings a)
      ≡ (if b then a.weekly_jackpot_minor else pos 0)
unfolding build_ledger_postings
weekly_part id a w n c true ew en ec =
    counted-credits id (λ p. is_weekly_jackpot p.account_code && is_credit p.side && true) a w n c
      ew en ec
    ∙ omega int_laws
    ∙ sym ew
weekly_part id a w n c false ew en ec =
    counted-credits id (λ p. is_weekly_jackpot p.account_code && is_credit p.side && false) a w n c
      ew en ec
    ∙ omega int_laws

annual_part :
    (id : String) (a : FinancialAllocation) (w n c : ℕ) (b : Bool)
    → a.weekly_jackpot_minor ≡ pos w
    → a.annual_jackpot_minor ≡ pos n
    → a.company_revenue_minor ≡ pos c
    → counted id
        (λ p. is_annual_jackpot p.account_code && is_credit p.side && b)
        (build_ledger_postings a)
      ≡ (if b then a.annual_jackpot_minor else pos 0)
unfolding build_ledger_postings
annual_part id a w n c true ew en ec =
    counted-credits id (λ p. is_annual_jackpot p.account_code && is_credit p.side && true) a w n c
      ew en ec
    ∙ zero-+ℤ (pos n +ℤ (pos 0 +ℤ pos 0))
    ∙ omega int_laws
    ∙ sym en
annual_part id a w n c false ew en ec =
    counted-credits id (λ p. is_annual_jackpot p.account_code && is_credit p.side && false) a w n c
      ew en ec
    ∙ omega int_laws

pub weekly_pool_stored :
    (rules : List AllocationRule) (amount_minor : ℤ) (effective_at : Option ℕ)
    {a : FinancialAllocation} (id : String) (now : ℕ) (input : AppendLedgerTransactionInput)
    (db : LedgerTables) (currency draw_id : String) {u : LedgerTables}
    {r : AppendLedgerTransactionResult}
    → resolve_and_allocate rules amount_minor effective_at ≡ ok a
    → input.postings ≡ build_ledger_postings a
    → IsValid db
    → find (has_key input.idempotency_key) db.transactions ≡ none
    → append_in_transaction id now input db ≡ ok (u, r)
    → weekly_pool currency draw_id u
      ≡ (if is_weekly_source currency draw_id (stored_row id now input)
          then a.weekly_jackpot_minor
          else pos 0)
        +ℤ weekly_pool currency draw_id db
unfolding weekly_pool
weekly_pool_stored rules amount_minor effective_at {a} id now input db currency draw_id {u} split
      same v free h =
    let (amount, _, _, s) = resolve_and_allocate-IsSplit rules amount_minor effective_at split in
    let (tables, no_id) = stored id now input db u v free h in
    let passes = is_weekly_source currency draw_id in
    ap (pool_of is_weekly_jackpot passes) tables
    ∙ pool_of-with_stored is_weekly_jackpot passes id now input db v no_id
    ∙ ap (λ z. z +ℤ pool_of is_weekly_jackpot passes db)
        (ap (counted id (counts_new is_weekly_jackpot passes (stored_row id now input))) same
          ∙ weekly_part id a s.weekly s.annual s.company (passes (stored_row id now input))
              s.weekly_eq s.annual_eq s.company_eq)

pub annual_pool_stored :
    (rules : List AllocationRule) (amount_minor : ℤ) (effective_at : Option ℕ)
    {a : FinancialAllocation} (id : String) (now : ℕ) (input : AppendLedgerTransactionInput)
    (db : LedgerTables) (currency : String) (year : ℕ) (draws : List LotteryDraw) {u : LedgerTables}
    {r : AppendLedgerTransactionResult}
    → resolve_and_allocate rules amount_minor effective_at ≡ ok a
    → input.postings ≡ build_ledger_postings a
    → IsValid db
    → find (has_key input.idempotency_key) db.transactions ≡ none
    → append_in_transaction id now input db ≡ ok (u, r)
    → annual_pool currency year draws u
      ≡ (if is_annual_source currency year draws (stored_row id now input)
          then a.annual_jackpot_minor
          else pos 0)
        +ℤ annual_pool currency year draws db
unfolding annual_pool
annual_pool_stored rules amount_minor effective_at {a} id now input db currency year draws {u} split
      same v free h =
    let (amount, _, _, s) = resolve_and_allocate-IsSplit rules amount_minor effective_at split in
    let (tables, no_id) = stored id now input db u v free h in
    let passes = is_annual_source currency year draws in
    ap (pool_of is_annual_jackpot passes) tables
    ∙ pool_of-with_stored is_annual_jackpot passes id now input db v no_id
    ∙ ap (λ z. z +ℤ pool_of is_annual_jackpot passes db)
        (ap (counted id (counts_new is_annual_jackpot passes (stored_row id now input))) same
          ∙ annual_part id a s.weekly s.annual s.company (passes (stored_row id now input))
              s.weekly_eq s.annual_eq s.company_eq)
