-- ===== src/Ledger/Audit.antt =====
-- What a report of ledger-integrity.service.ts says of the tables.
use amazingchance.Base.{
  ℕ, zero, suc, ◌<◌, ==ℤ_iff, ◌≡◌, refl, sym, ap, ◌∙◌, ◌↔◌, true, String, List, [], ◌∷◌, map,
  length, take, drop, All, arith, take-append-drop, length-drop-le, state_after,
}
use amazingchance.Ledger.Types.{
  LedgerPosting, LedgerTransaction, LedgerTables, postings_of, debit, credit,
  AppendLedgerTransactionInput,
}
use amazingchance.Ledger.Service.{append}
use amazingchance.Ledger.Store.{IsSound, IsValid}
use amazingchance.Ledger.Append.{append-IsValid}
use amazingchance.Ledger.Validation.{row_entry, side_total, IsPositive}
use amazingchance.Ledger.Integrity.{
  LedgerIntegrityReport, check_page, check_pages, empty_report, verify, page_size, conclude,
}
use amazingchance.Ledger.Defects.{
  IsClean, defects, non_positives, own_defects, all_defects, defects-check_page, check_page-append,
}

-- Paging sees every row once, in order, if the fuel is more than the rows.
pub check_pages-eq-check_page :
    (fuel size : ℕ) (all : List LedgerPosting) (ts : List LedgerTransaction)
    (r : LedgerIntegrityReport)
    → length ts < fuel
    → check_pages fuel (suc size) all ts r ≡ check_page all ts r
unfolding check_pages
check_pages-eq-check_page zero size all ts r h = absurd (omega arith)
check_pages-eq-check_page (suc fuel) size all [] r h = unfold check_page in refl
check_pages-eq-check_page (suc fuel) size all (t ∷ ts) r h =
    check_pages-eq-check_page fuel size all (drop size ts) (check_page all (t ∷ take size ts) r)
      (omega (arith, length-drop-le size ts))
    ∙ check_page-append all (t ∷ take size ts) (drop size ts) r
    ∙ ap (λ xs. check_page all (t ∷ xs) r) (take-append-drop size ts)

non_positives_none :
    (ps : List LedgerPosting) → (non_positives ps ≡ 0) ↔ All IsPositive (map row_entry ps)
unfolding non_positives
non_positives_none [] = (λ _. tt, λ _. refl)
non_positives_none (p ∷ ps) = ground (arith, non_positives_none ps)

own_defects_none :
    (all : List LedgerPosting) (t : LedgerTransaction)
    → (own_defects (postings_of t.id all) t ≡ 0) ↔ IsClean all t
own_defects_none all t =
    let ps = postings_of t.id all in
    let totals =
      ==ℤ_iff (side_total debit (map row_entry ps)) (side_total credit (map row_entry ps)) in
    (
      λ h. record {
        is_sealed = ground arith;
        has_postings = ground arith;
        balanced = record {
          positive = (non_positives_none ps).0 (ground arith);
          equal = ground (arith, totals);
        };
      },
      λ c. ground (arith, totals, (non_positives_none ps).1 c.balanced.positive),
    )

all_defects_none :
    (all : List LedgerPosting) (ts : List LedgerTransaction)
    → (all_defects all ts ≡ 0) ↔ All (IsClean all) ts
unfolding all_defects
all_defects_none all [] = (λ _. tt, λ _. refl)
all_defects_none all (t ∷ ts) = (
  λ h. ((own_defects_none all t).0 (omega arith), (all_defects_none all ts).0 (omega arith)),
  λ c. omega (arith, (own_defects_none all t).1 c.0, (all_defects_none all ts).1 c.1),
)

healthy-defects : (r : LedgerIntegrityReport) → ((conclude r).healthy ≡ true) ↔ (defects r ≡ 0)
unfolding conclude
healthy-defects r = ground arith

defects-verify :
    (now : ℕ) (db : LedgerTables)
    → defects (
        check_pages
          (suc (length db.transactions))
          page_size
          db.postings
          db.transactions
          (empty_report now))
      ≡ all_defects db.postings db.transactions
defects-verify now db =
    ap defects (
      check_pages-eq-check_page (suc (length db.transactions)) 499 db.postings db.transactions
        (empty_report now) (omega arith))
    ∙ defects-check_page db.postings db.transactions (empty_report now)
    ∙ omega arith

-- The report is healthy exactly when every transaction is sealed, has a posting, has positive
-- amounts only, and debits what it credits.
pub verify-healthy_iff :
    (now : ℕ) (db : LedgerTables)
    → ((verify now db).healthy ≡ true) ↔ All (IsClean db.postings) db.transactions
unfolding verify
verify-healthy_iff now db =
    let scanned =
      check_pages (suc (length db.transactions)) page_size db.postings db.transactions
        (empty_report now) in
    (
      λ h.
          (all_defects_none db.postings db.transactions).0
            (sym (defects-verify now db) ∙ (healthy-defects scanned).0 h),
      λ c.
          (healthy-defects scanned).1
            (defects-verify now db ∙ (all_defects_none db.postings db.transactions).1 c),
    )

IsSound-IsClean :
    (all : List LedgerPosting) (ts : List LedgerTransaction)
    → All (IsSound all) ts
    → All (IsClean all) ts
IsSound-IsClean all [] h = tt
IsSound-IsClean all (t ∷ ts) h = (
  record {
    is_sealed = h.0.is_sealed;
    has_postings = omega (arith, h.0.has_postings);
    balanced = h.0.balanced;
  },
  IsSound-IsClean all ts h.1,
)

-- On valid tables the scan reports a healthy ledger after any call of `append`, whether that
-- stores, replays or throws.
pub append-healthy :
    (id : String) (now : ℕ) (input : AppendLedgerTransactionInput)
    (at_lookup in_transaction at_commit : LedgerTables) (later : ℕ)
    → IsValid at_commit
    → (verify later
        (state_after at_commit (append id now input at_lookup in_transaction at_commit))).healthy
      ≡ true
append-healthy id now input s0 s1 s2 later v =
    (verify-healthy_iff later _).1
      (IsSound-IsClean _ _ (append-IsValid id now input s0 s1 s2 v).sound)
