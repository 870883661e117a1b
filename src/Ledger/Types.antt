-- ===== src/Ledger/Types.antt =====
-- The rows of `ledger_transactions` and `ledger_postings`, and the types of ledger.service.ts.
-- Amounts are `bigint`s; identifiers and keys are texts; a time is a number of milliseconds.
use amazingchance.Base.{
  ℕ, String, ℤ, ◌≡◌, ◌↔◌, Bool, true, Option, List, arith, ◌==◌, filter, str_eq,
}

pub data LedgerAccountCode : Type 0 where
  payment_clearing cash weekly_jackpot annual_jackpot : LedgerAccountCode
  company_revenue prize_payable payout_clearing refund_payable : LedgerAccountCode

pub data LedgerSide : Type 0 where
  debit credit : LedgerSide

pub data LedgerTransactionType : Type 0 where
  payment_confirmed payment_allocation prize_recognized : LedgerTransactionType
  payout_completed refund_completed adjustment : LedgerTransactionType

abbrev type_code : LedgerTransactionType → ℕ
type_code payment_confirmed = 0
type_code payment_allocation = 1
type_code prize_recognized = 2
type_code payout_completed = 3
type_code refund_completed = 4
type_code adjustment = 5

-- `===` on transaction types.
abbrev pub same_type : LedgerTransactionType → LedgerTransactionType → Bool
same_type a b = type_code a == type_code b

pub same_type_iff : (a b : LedgerTransactionType) → (same_type a b ≡ true) ↔ (a ≡ b)
same_type_iff a b = ground arith

pub record LedgerPostingInput : Type 0 where
  pub account_code : LedgerAccountCode
  pub side : LedgerSide
  pub amount_minor : ℤ

-- A value in metadata: a text, a whole number or anything else.
pub data MetadataValue : Type 0 where
  text_value : String → MetadataValue
  number_value : ℤ → MetadataValue
  other_value : MetadataValue

-- The members of the object that the metadata are, or `none` if they are no object.
abbrev pub Metadata : Type 0
Metadata = Option (List (String × MetadataValue))

pub record AppendLedgerTransactionInput : Type 0 where
  pub type : LedgerTransactionType
  pub idempotency_key : String
  pub reference_type : String
  pub reference_id : String
  pub currency : String
  pub description : Option String
  pub metadata : Metadata
  pub postings : List LedgerPostingInput

pub record LedgerTransaction : Type 0 where
  pub id : String
  pub type : LedgerTransactionType
  pub idempotency_key : String
  pub reference_type : String
  pub reference_id : String
  pub currency : String
  pub description : Option String
  pub metadata : Metadata
  pub sealed_at : Option ℕ

pub record LedgerPosting : Type 0 where
  pub transaction_id : String
  pub account_code : LedgerAccountCode
  pub side : LedgerSide
  pub amount_minor : ℤ

-- The two tables.
pub record LedgerTables : Type 0 where
  pub transactions : List LedgerTransaction
  pub postings : List LedgerPosting

-- `include: { postings: true }`
abbrev pub of_transaction : String → LedgerPosting → Bool
of_transaction id p = str_eq p.transaction_id id

abbrev pub postings_of : String → List LedgerPosting → List LedgerPosting
postings_of id = filter (of_transaction id)

pub record AppendLedgerTransactionResult : Type 0 where
  pub transaction : LedgerTransaction
  pub postings : List LedgerPosting
  pub already_appended : Bool
