-- ===== src/Prizes/Sums.antt =====
-- The sums of prize-pool.service.ts over the tables of the ledger.
use amazingchance.Base.{
  ℕ, ◌+ℤ◌, +ℤ_assoc, zero-+ℤ, ◌≡◌, refl, sym, ap, ap₂, ◌∙◌, inl, inr, String, Bool, false, ◌&&◌,
  none, List, [], ◌∷◌, ◌++◌, map, filter, find, any, str_eq_refl, All, Misses, find-none-Misses,
  filter-append, Bool-cases,
}
use amazingchance.Ledger.Types.{
  LedgerAccountCode, LedgerTransaction, LedgerPosting, LedgerPostingInput, LedgerTables,
  AppendLedgerTransactionInput, of_transaction,
}
use amazingchance.Ledger.Service.{has_id, posting_row}
use amazingchance.Ledger.Store.{IsValid, with_stored, stored_row, rows, no_postings, str_eq_comm}
use amazingchance.Prizes.Pool.{is_credit, counts, sum_amount, pool_of}

pub sum_amount-append :
    (ps qs : List LedgerPosting) → sum_amount (ps ++ qs) ≡ sum_amount ps +ℤ sum_amount qs
sum_amount-append [] qs = sym (zero-+ℤ (sum_amount qs))
sum_amount-append (p ∷ ps) qs =
    ap (λ z. p.amount_minor +ℤ z) (sum_amount-append ps qs)
    ∙ sym (+ℤ_assoc p.amount_minor (sum_amount ps) (sum_amount qs))

-- No transaction of an unused id passes a test with it.
pub unused :
    (id : String) (passes : LedgerTransaction → Bool) (ts : List LedgerTransaction)
    → Misses (has_id id) ts
    → any (λ t. has_id id t && passes t) ts ≡ false
unused id passes [] h = refl
unused id passes (t ∷ ts) h = rw h.0 (unused id passes ts h.1)

pub filter-congr {ℓ} :
    {A : Type ℓ} (p q : A → Bool) (xs : List A)
    → All (λ x. p x ≡ q x) xs
    → filter p xs ≡ filter q xs
filter-congr p q [] h = refl
filter-congr p q (x ∷ xs) h = rw (h.0, filter-congr p q xs h.1) refl

module _ (of_account : LedgerAccountCode → Bool) (passes : LedgerTransaction → Bool) where
  -- The postings of other transactions count as before.
  pub counts-old :
      (t : LedgerTransaction) (ts : List LedgerTransaction) (ps : List LedgerPosting)
      → Misses (of_transaction t.id) ps
      → All (λ p. counts of_account passes (t ∷ ts) p ≡ counts of_account passes ts p) ps
  counts-old t ts [] h = tt
  counts-old t ts (p ∷ ps) h =
      (rw (str_eq_comm p.transaction_id t.id h.0) refl, counts-old t ts ps h.1)

  -- A posting of the new one counts if that passes.
  abbrev pub counts_new : LedgerTransaction → LedgerPosting → Bool
  counts_new t p = of_account p.account_code && is_credit p.side && passes t

  pub counts-new :
      (t : LedgerTransaction) (ts : List LedgerTransaction) (ps : List LedgerPostingInput)
      → Misses (has_id t.id) ts
      → All (λ p. counts of_account passes (t ∷ ts) p ≡ counts_new t p) (map (posting_row t.id) ps)
  counts-new t ts [] h = tt
  counts-new t ts (p ∷ ps) h = (
    elim (Bool-cases (passes t)) [
      | inl passed ↦ rw (str_eq_refl t.id, passed) refl
      | inr failed ↦ rw (str_eq_refl t.id, failed, unused t.id passes ts h) refl
    ],
    counts-new t ts ps h,
  )

  pub pool_of-with_stored :
      (id : String) (now : ℕ) (input : AppendLedgerTransactionInput) (db : LedgerTables)
      → IsValid db
      → find (has_id id) db.transactions ≡ none
      → pool_of of_account passes (with_stored id now input db)
        ≡ sum_amount (filter (counts_new (stored_row id now input)) (rows id input))
          +ℤ pool_of of_account passes db
  pool_of-with_stored id now input db v free =
      let t = stored_row id now input in
      let old = no_postings id db.transactions db.postings free v.foreign_key in
      let count = counts of_account passes (t ∷ db.transactions) in
      ap sum_amount (filter-append count (rows id input) db.postings)
      ∙ sum_amount-append (filter count (rows id input)) (filter count db.postings)
      ∙ ap₂ (λ xs ys. sum_amount xs +ℤ sum_amount ys)
          (filter-congr count (counts_new t) (rows id input) (
            counts-new t db.transactions input.postings
              (find-none-Misses (has_id id) db.transactions free)))
          (filter-congr count (counts of_account passes db.transactions) db.postings
            (counts-old t db.transactions db.postings old))
