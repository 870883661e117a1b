-- ===== src/Ledger/Integrity.antt =====
-- ledger-integrity.service.ts: the scan of every transaction, a page at a time. The order of the
-- table stands for the order by id that the pages follow.
use amazingchance.Base.{
  ℕ, zero, suc, ◌+◌, ℤ, pos, leb_ℤ, ◌==ℤ◌, Bool, true, ◌&&◌, String, List, [], ◌∷◌, ◌++◌, ltb, ◌==◌,
  length, take, drop, is_some, if◌then◌else◌,
}
use amazingchance.Ledger.Types.{LedgerPosting, LedgerTransaction, LedgerTables, postings_of}
use amazingchance.Ledger.Service.{add_side}

pub data LedgerIntegrityIssueCode : Type 0 where
  transaction_unsealed transaction_without_postings : LedgerIntegrityIssueCode
  non_positive_posting unbalanced_transaction : LedgerIntegrityIssueCode

pub record LedgerIntegrityIssue : Type 0 where
  pub code : LedgerIntegrityIssueCode
  pub transaction_id : String

pub record LedgerIntegrityReport : Type 0 where
  pub healthy : Bool
  pub checked_at : ℕ
  pub checked_transactions : ℕ
  pub checked_postings : ℕ
  pub sealed_transactions : ℕ
  pub unsealed_transactions : ℕ
  pub balanced_transactions : ℕ
  pub unbalanced_transactions : ℕ
  pub transactions_without_postings : ℕ
  pub non_positive_postings : ℕ
  pub issues : List LedgerIntegrityIssue

abbrev pub page_size : ℕ
page_size = 500

abbrev pub max_reported_issues : ℕ
max_reported_issues = 100

unfoldable pub add_issue :
    LedgerIntegrityIssueCode → String → LedgerIntegrityReport → LedgerIntegrityReport
add_issue code id r =
    if ltb (length r.issues) max_reported_issues
    then record r { issues = r.issues ++ record { code = code; transaction_id = id } ∷ [] }
    else r

-- Counts the transaction and its postings, and whether it is sealed.
unfoldable pub check_seal :
    LedgerTransaction → List LedgerPosting → LedgerIntegrityReport → LedgerIntegrityReport
check_seal t ps r =
    let counted = record r {
      checked_transactions = r.checked_transactions + 1;
      checked_postings = r.checked_postings + length ps;
    } in
    if is_some t.sealed_at
    then record counted { sealed_transactions = r.sealed_transactions + 1 }
    else add_issue transaction_unsealed t.id
        (record counted { unsealed_transactions = r.unsealed_transactions + 1 })

unfoldable pub check_presence :
    LedgerTransaction → List LedgerPosting → LedgerIntegrityReport → LedgerIntegrityReport
check_presence t ps r =
    if length ps == 0
    then add_issue transaction_without_postings t.id
        (record r { transactions_without_postings = r.transactions_without_postings + 1 })
    else r

unfoldable pub check_posting :
    LedgerTransaction → LedgerPosting → LedgerIntegrityReport → LedgerIntegrityReport
check_posting t p r =
    if leb_ℤ p.amount_minor (pos 0)
    then add_issue non_positive_posting t.id
        (record r { non_positive_postings = r.non_positive_postings + 1 })
    else r

-- The loop over the postings, with the two running totals.
unfoldable pub check_postings :
    LedgerTransaction
    → List LedgerPosting
    → LedgerIntegrityReport
    → ℤ × ℤ
    → LedgerIntegrityReport × ℤ × ℤ
check_postings t [] r (d, c) = (r, d, c)
check_postings t (p ∷ ps) r acc =
    check_postings t ps (check_posting t p r) (add_side p.side p.amount_minor acc)

unfoldable pub check_balance :
    LedgerTransaction → List LedgerPosting → LedgerIntegrityReport × ℤ × ℤ → LedgerIntegrityReport
check_balance t ps (r, d, c) =
    if ltb 0 (length ps) && d ==ℤ c
    then record r { balanced_transactions = r.balanced_transactions + 1 }
    else add_issue unbalanced_transaction t.id
        (record r { unbalanced_transactions = r.unbalanced_transactions + 1 })

-- The body of the loop over a page.
unfoldable pub check_transaction :
    List LedgerPosting → LedgerTransaction → LedgerIntegrityReport → LedgerIntegrityReport
check_transaction all t r =
    let ps = postings_of t.id all in
    check_balance t ps
      (check_postings t ps (check_presence t ps (check_seal t ps r)) (pos 0, pos 0))

unfoldable pub check_page :
    List LedgerPosting → List LedgerTransaction → LedgerIntegrityReport → LedgerIntegrityReport
check_page all [] r = r
check_page all (t ∷ ts) r = check_page all ts (check_transaction all t r)

-- `while (true)`: the next page behind the cursor, until one is empty. The fuel is a page for each
-- row and one more.
unfoldable pub check_pages :
    ℕ
    → ℕ
    → List LedgerPosting
    → List LedgerTransaction
    → LedgerIntegrityReport
    → LedgerIntegrityReport
check_pages zero size all rest r = r
check_pages (suc fuel) size all rest r = elim (take size rest) [
  | [] ↦ r
  | t ∷ ts ↦ check_pages fuel size all (drop size rest) (check_page all (t ∷ ts) r)
]

abbrev pub empty_report : ℕ → LedgerIntegrityReport
empty_report now = record {
  healthy = true;
  checked_at = now;
  checked_transactions = 0;
  checked_postings = 0;
  sealed_transactions = 0;
  unsealed_transactions = 0;
  balanced_transactions = 0;
  unbalanced_transactions = 0;
  transactions_without_postings = 0;
  non_positive_postings = 0;
  issues = [];
}

unfoldable pub conclude : LedgerIntegrityReport → LedgerIntegrityReport
conclude r = record r {
  healthy =
      r.unsealed_transactions == 0
      && r.unbalanced_transactions == 0
      && r.transactions_without_postings == 0
      && r.non_positive_postings == 0;
}

unfoldable pub verify : ℕ → LedgerTables → LedgerIntegrityReport
unfolding check_pages conclude
verify now db = conclude (
    check_pages (suc (length db.transactions)) page_size db.postings db.transactions
      (empty_report now))
