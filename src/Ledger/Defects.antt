-- ===== src/Ledger/Defects.antt =====
-- The defects that a report of ledger-integrity.service.ts counts.
use amazingchance.Base.{
  ℕ, ◌+◌, ◌≤◌, ℤ, pos, leb_ℤ, ◌==ℤ◌, zero-+ℤ, +ℤ_zero, ◌≡◌, refl, sym, ap, ap₂, ◌∙◌, Bool, true,
  false, ◌&&◌, String, List, [], ◌∷◌, ◌++◌, map, ltb, ◌==◌, length, is_some, arith,
}
use amazingchance.Ledger.Types.{LedgerPosting, LedgerTransaction, postings_of, debit, credit}
use amazingchance.Ledger.Service.{add_side}
use amazingchance.Ledger.Validation.{
  row_entry, side_total, IsBalanced, totals_from, totals_from-add_side,
}
use amazingchance.Ledger.Integrity.{
  LedgerIntegrityReport, LedgerIntegrityIssueCode, add_issue, check_seal, check_presence,
  check_posting, check_postings, check_balance, check_transaction, check_page,
}

-- A transaction that the scan has nothing to say of.
pub record IsClean (all : List LedgerPosting) (t : LedgerTransaction) : Type 0 where
  pub is_sealed : is_some t.sealed_at ≡ true
  pub has_postings : 1 ≤ length (postings_of t.id all)
  pub balanced : IsBalanced (map row_entry (postings_of t.id all))

-- The counters that `healthy` reads, added up.
abbrev pub defects : LedgerIntegrityReport → ℕ
defects r =
    r.unsealed_transactions + r.unbalanced_transactions + r.transactions_without_postings
    + r.non_positive_postings

abbrev pub one_if_not : Bool → ℕ
one_if_not true = 0
one_if_not false = 1

abbrev pub one_if : Bool → ℕ
one_if true = 1
one_if false = 0

unfoldable pub non_positives : List LedgerPosting → ℕ
non_positives [] = 0
non_positives (p ∷ ps) = one_if (leb_ℤ p.amount_minor (pos 0)) + non_positives ps

abbrev pub totals_equal : List LedgerPosting → Bool
totals_equal ps = side_total debit (map row_entry ps) ==ℤ side_total credit (map row_entry ps)

pub defects-add_issue :
    (c : LedgerIntegrityIssueCode) (id : String) (r : LedgerIntegrityReport)
    → defects (add_issue c id r) ≡ defects r
unfolding add_issue
defects-add_issue c id r = ground arith

pub defects-check_seal :
    (t : LedgerTransaction) (ps : List LedgerPosting) (r : LedgerIntegrityReport)
    → defects (check_seal t ps r) ≡ defects r + one_if_not (is_some t.sealed_at)
unfolding check_seal add_issue
defects-check_seal t ps r = ground arith

pub defects-check_presence :
    (t : LedgerTransaction) (ps : List LedgerPosting) (r : LedgerIntegrityReport)
    → defects (check_presence t ps r) ≡ defects r + one_if (length ps == 0)
unfolding check_presence add_issue
defects-check_presence t ps r = ground arith

pub defects-check_posting :
    (t : LedgerTransaction) (p : LedgerPosting) (r : LedgerIntegrityReport)
    → defects (check_posting t p r) ≡ defects r + one_if (leb_ℤ p.amount_minor (pos 0))
unfolding check_posting add_issue
defects-check_posting t p r = ground arith

pub defects-check_postings :
    (t : LedgerTransaction) (ps : List LedgerPosting) (r : LedgerIntegrityReport) (acc : ℤ × ℤ)
    → defects (check_postings t ps r acc).0 ≡ defects r + non_positives ps
unfolding check_postings non_positives
defects-check_postings t [] r (d, c) = omega arith
defects-check_postings t (p ∷ ps) r acc = omega (
  arith,
  defects-check_postings t ps (check_posting t p r) (add_side p.side p.amount_minor acc),
  defects-check_posting t p r,
)

pub check_postings_totals :
    (t : LedgerTransaction) (ps : List LedgerPosting) (r : LedgerIntegrityReport) (acc : ℤ × ℤ)
    → ((check_postings t ps r acc).1 ≡ (totals_from acc (map row_entry ps)).0)
      × ((check_postings t ps r acc).2 ≡ (totals_from acc (map row_entry ps)).1)
unfolding check_postings side_total
check_postings_totals t [] r (d, c) = (sym (+ℤ_zero d), sym (+ℤ_zero c))
check_postings_totals t (p ∷ ps) r acc =
    let next = add_side p.side p.amount_minor acc in
    let h = check_postings_totals t ps (check_posting t p r) next in
    let e = totals_from-add_side p.side p.amount_minor acc (map row_entry ps) in
    (h.0 ∙ ap (λ q. q.0) e, h.1 ∙ ap (λ q. q.1) e)

pub defects-check_balance :
    (t : LedgerTransaction) (ps : List LedgerPosting) (r : LedgerIntegrityReport) (d c : ℤ)
    → defects (check_balance t ps (r, d, c)) ≡ defects r + one_if_not (ltb 0 (length ps) && d ==ℤ c)
unfolding check_balance add_issue
defects-check_balance t ps r d c = ground arith

-- The defects of one transaction.
abbrev pub own_defects : List LedgerPosting → LedgerTransaction → ℕ
own_defects ps t =
    one_if_not (is_some t.sealed_at)
    + one_if (length ps == 0)
    + non_positives ps
    + one_if_not (ltb 0 (length ps) && totals_equal ps)

pub check_postings_totals_start :
    (t : LedgerTransaction) (ps : List LedgerPosting) (r : LedgerIntegrityReport)
    → ((check_postings t ps r (pos 0, pos 0)).1 ≡ side_total debit (map row_entry ps))
      × ((check_postings t ps r (pos 0, pos 0)).2 ≡ side_total credit (map row_entry ps))
check_postings_totals_start t ps r =
    let h = check_postings_totals t ps r (pos 0, pos 0) in
    (
      h.0 ∙ zero-+ℤ (side_total debit (map row_entry ps)),
      h.1 ∙ zero-+ℤ (side_total credit (map row_entry ps)),
    )

pub defects-check_transaction :
    (all : List LedgerPosting) (t : LedgerTransaction) (r : LedgerIntegrityReport)
    → defects (check_transaction all t r) ≡ defects r + own_defects (postings_of t.id all) t
unfolding check_transaction
defects-check_transaction all t r =
    let ps = postings_of t.id all in
    let r1 = check_seal t ps r in
    let r2 = check_presence t ps r1 in
    let r3 = check_postings t ps r2 (pos 0, pos 0) in
    let totals = check_postings_totals_start t ps r2 in
    let same_flag =
      ap₂ (λ (d c : ℤ). one_if_not (ltb 0 (length ps) && d ==ℤ c)) totals.0 totals.1 in
    omega (
      arith,
      defects-check_seal t ps r,
      defects-check_presence t ps r1,
      defects-check_postings t ps r2 (pos 0, pos 0),
      defects-check_balance t ps r3.0 r3.1 r3.2,
      same_flag,
    )

unfoldable pub all_defects : List LedgerPosting → List LedgerTransaction → ℕ
all_defects all [] = 0
all_defects all (t ∷ ts) = own_defects (postings_of t.id all) t + all_defects all ts

pub defects-check_page :
    (all : List LedgerPosting) (ts : List LedgerTransaction) (r : LedgerIntegrityReport)
    → defects (check_page all ts r) ≡ defects r + all_defects all ts
unfolding check_page all_defects
defects-check_page all [] r = omega arith
defects-check_page all (t ∷ ts) r = omega (
  arith,
  defects-check_page all ts (check_transaction all t r),
  defects-check_transaction all t r,
)

pub check_page-append :
    (all : List LedgerPosting) (xs ys : List LedgerTransaction) (r : LedgerIntegrityReport)
    → check_page all ys (check_page all xs r) ≡ check_page all (xs ++ ys) r
unfolding check_page
check_page-append all [] ys r = refl
check_page-append all (x ∷ xs) ys r = check_page-append all xs ys (check_transaction all x r)
