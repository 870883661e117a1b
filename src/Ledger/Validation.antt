-- ===== src/Ledger/Validation.antt =====
-- What `validateInput` of ledger.service.ts accepts, against an independent description.
use amazingchance.Base.{
  ℤ, pos, ◌+ℤ◌, ◌<ℤ◌, ◌==ℤ◌, ◌≡◌, ◌↔◌, inl, inr, Bool, true, false, List, [], ◌∷◌, map, ◌≤◌, arith,
  length, All, ==ℤ_iff, Outcome-cases, ok, is_blank, is_currency_code, sym, ap, ap₂, +ℤ_assoc,
  zero-+ℤ, +ℤ_zero,
}
use amazingchance.Ledger.Types.{
  LedgerSide, debit, credit, LedgerPostingInput, LedgerPosting, AppendLedgerTransactionInput,
}
use amazingchance.Ledger.Service.{add_side, sum_sides, validate_input}

-- A posting as a side and an amount.
abbrev pub Entry : Type 0
Entry = LedgerSide × ℤ

abbrev pub input_entry : LedgerPostingInput → Entry
input_entry p = (p.side, p.amount_minor)

abbrev pub row_entry : LedgerPosting → Entry
row_entry p = (p.side, p.amount_minor)

abbrev pub amount_on : LedgerSide → LedgerSide → ℤ → ℤ
amount_on debit debit a = a
amount_on credit credit a = a
amount_on debit credit a = pos 0
amount_on credit debit a = pos 0

-- The sum of the amounts on one side.
unfoldable pub side_total : LedgerSide → List Entry → ℤ
side_total s [] = pos 0
side_total s (e ∷ es) = amount_on s e.0 e.1 +ℤ side_total s es

abbrev pub IsPositive : Entry → Type 0
IsPositive e = pos 0 <ℤ e.1

-- Positive amounts, and as much debited as credited.
pub record IsBalanced (es : List Entry) : Type 0 where
  pub positive : All IsPositive es
  pub equal : side_total debit es ≡ side_total credit es

-- What a transaction must be.
pub record IsWellFormed (input : AppendLedgerTransactionInput) : Type 0 where
  pub has_key : is_blank input.idempotency_key ≡ false
  pub has_reference_type : is_blank input.reference_type ≡ false
  pub has_reference_id : is_blank input.reference_id ≡ false
  pub has_currency : is_currency_code input.currency ≡ true
  pub has_postings : 2 ≤ length input.postings
  pub balanced : IsBalanced (map input_entry input.postings)

abbrev pair : ℤ → ℤ → ℤ × ℤ
pair d c = (d, c)

-- The running totals behind the entries.
abbrev pub totals_from : ℤ × ℤ → List Entry → ℤ × ℤ
totals_from acc es = (acc.0 +ℤ side_total debit es, acc.1 +ℤ side_total credit es)

pub totals_from-add_side :
    (s : LedgerSide) (a : ℤ) (acc : ℤ × ℤ) (es : List Entry)
    → totals_from (add_side s a acc) es ≡ totals_from acc ((s, a) ∷ es)
unfolding side_total
totals_from-add_side debit a (d, c) es =
    ap₂ pair (+ℤ_assoc d a (side_total debit es))
      (ap (◌+ℤ◌ c) (sym (zero-+ℤ (side_total credit es))))
totals_from-add_side credit a (d, c) es =
    ap₂ pair (ap (◌+ℤ◌ d) (sym (zero-+ℤ (side_total debit es))))
      (+ℤ_assoc c a (side_total credit es))

sum_sides-positive :
    (ps : List LedgerPostingInput) (acc : ℤ × ℤ)
    → All IsPositive (map input_entry ps)
    → sum_sides ps acc ≡ ok (totals_from acc (map input_entry ps))
unfolding sum_sides side_total
sum_sides-positive [] (d, c) h = ap ok (ap₂ pair (sym (+ℤ_zero d)) (sym (+ℤ_zero c)))
sum_sides-positive (p ∷ ps) acc h = ground (
  arith,
  sum_sides-positive ps (add_side p.side p.amount_minor acc) h.1,
  totals_from-add_side p.side p.amount_minor acc (map input_entry ps),
)

sum_sides-ok :
    (ps : List LedgerPostingInput) (acc r : ℤ × ℤ)
    → sum_sides ps acc ≡ ok r
    → All IsPositive (map input_entry ps)
unfolding sum_sides
sum_sides-ok [] acc r h = tt
sum_sides-ok (p ∷ ps) acc r h =
    ground (arith, sum_sides-ok ps (add_side p.side p.amount_minor acc) r)

-- The two sums that the code compares are the two totals.
abbrev sums_agree : AppendLedgerTransactionInput → Bool
sums_agree input =
    pos 0 +ℤ side_total debit (map input_entry input.postings)
    ==ℤ pos 0 +ℤ side_total credit (map input_entry input.postings)

sums_agree_iff :
    (input : AppendLedgerTransactionInput)
    → (sums_agree input ≡ true) ↔ (
        side_total debit (map input_entry input.postings)
        ≡ side_total credit (map input_entry input.postings))
sums_agree_iff input =
    rw (zero-+ℤ (side_total debit (map input_entry input.postings)))
      (rw (zero-+ℤ (side_total credit (map input_entry input.postings))) (==ℤ_iff _ _))

validate_input_complete :
    (input : AppendLedgerTransactionInput) → IsWellFormed input → validate_input input ≡ ok tt
unfolding validate_input
validate_input_complete input w = ground (
  arith,
  sum_sides-positive input.postings (pos 0, pos 0) w.balanced.positive,
  sums_agree_iff input,
)

validate_input_sound :
    (input : AppendLedgerTransactionInput) → validate_input input ≡ ok tt → IsWellFormed input
unfolding validate_input
validate_input_sound input h = elim (Outcome-cases (sum_sides input.postings (pos 0, pos 0))) [
  | inr (e, bad) ↦ absurd (ground arith)
  | inl (r, good) ↦
      let positive = sum_sides-ok input.postings (pos 0, pos 0) r good in
      record {
        has_key = ground arith;
        has_reference_type = ground arith;
        has_reference_id = ground arith;
        has_currency = ground arith;
        has_postings = ground arith;
        balanced = record {
          positive = positive;
          equal = ground (
            arith,
            sum_sides-positive input.postings (pos 0, pos 0) positive,
            sums_agree_iff input,
          );
        };
      }
]

-- The validation passes exactly the well-formed inputs: a key, a reference and a three-letter
-- currency, two postings or more, all positive, and equal totals on the two sides.
pub validate_input_iff :
    (input : AppendLedgerTransactionInput) → (validate_input input ≡ ok tt) ↔ IsWellFormed input
validate_input_iff input = (validate_input_sound input, validate_input_complete input)
