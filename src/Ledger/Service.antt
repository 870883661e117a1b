-- ===== src/Ledger/Service.antt =====
-- ledger.service.ts: `validateInput`, `assertIdempotentMatch`, `appendInTransaction` and `append`.
-- The database's generated id and its clock are arguments. An insertion that breaks a unique index
-- is Prisma's error P2002.
use amazingchance.Base.{
  ℕ, String, ℤ, pos, ◌+ℤ◌, leb_ℤ, ◌==ℤ◌, Bool, true, false, not, ◌||◌, Option, none, some, List, [],
  ◌∷◌, ◌++◌, map, ltb, length, find, is_some, update_where, str_eq, if◌then◌else◌, is_blank,
  is_currency_code, Outcome, ok, err, bad_request, conflict, plain_error, ◌>>=◌, ◌>>◌, throw_if,
  or_throw, if_found,
}
use amazingchance.Ledger.Types.{
  LedgerSide, debit, credit, same_type, LedgerPostingInput, AppendLedgerTransactionInput,
  LedgerTransaction, LedgerPosting, LedgerTables, postings_of, AppendLedgerTransactionResult,
}

abbrev pub add_side : LedgerSide → ℤ → ℤ × ℤ → ℤ × ℤ
add_side debit a (d, c) = (d +ℤ a, c)
add_side credit a (d, c) = (d, c +ℤ a)

-- The loop of `validateInput`: the debit and the credit total, unless an amount is not positive.
unfoldable pub sum_sides : List LedgerPostingInput → ℤ × ℤ → Outcome (ℤ × ℤ)
sum_sides [] acc = ok acc
sum_sides (p ∷ ps) acc =
    let rest = sum_sides ps (add_side p.side p.amount_minor acc) in
    if leb_ℤ p.amount_minor (pos 0)
    then err (bad_request "Ledger posting amounts must be positive")
    else rest

unfoldable pub validate_input : AppendLedgerTransactionInput → Outcome (Unit {0})
validate_input input = do
  throw_if (is_blank input.idempotency_key) (bad_request "Ledger idempotency key is required")
  throw_if (is_blank input.reference_type || is_blank input.reference_id)
      (bad_request "Ledger reference type and ID are required")
  throw_if (not (is_currency_code input.currency))
      (bad_request "Ledger currency must be a three-letter uppercase code")
  throw_if (ltb (length input.postings) 2)
      (bad_request "A ledger transaction requires at least two postings")
  totals ← sum_sides input.postings (pos 0, pos 0)
  throw_if (not (totals.0 ==ℤ totals.1)) (bad_request "Ledger transaction postings must balance")

unfoldable pub assert_idempotent_match :
    LedgerTransaction → AppendLedgerTransactionInput → Outcome (Unit {0})
assert_idempotent_match existing input =
    throw_if
      (not (same_type existing.type input.type)
        || not (str_eq existing.reference_type input.reference_type)
        || not (str_eq existing.reference_id input.reference_id)
        || not (str_eq existing.currency input.currency))
      (conflict "Ledger idempotency key was reused for another business event")

abbrev pub has_key : String → LedgerTransaction → Bool
has_key key t = str_eq t.idempotency_key key

abbrev pub has_id : String → LedgerTransaction → Bool
has_id id t = str_eq t.id id

unfoldable pub find_by_idempotency_key : LedgerTables → String → Option LedgerTransaction
find_by_idempotency_key db key = find (has_key key) db.transactions

-- `ledgerTransaction.create`, not yet sealed, under the primary key and the unique index.
unfoldable pub create_transaction :
    String → AppendLedgerTransactionInput → LedgerTables → Outcome LedgerTables
create_transaction id input db = do
  throw_if (is_some (find (has_id id) db.transactions)) (plain_error "P2002")
  throw_if (is_some (find (has_key input.idempotency_key) db.transactions)) (plain_error "P2002")
  ok (record db { transactions = row ∷ db.transactions })
  where
    row : LedgerTransaction
    row = record {
      id = id;
      type = input.type;
      idempotency_key = input.idempotency_key;
      reference_type = input.reference_type;
      reference_id = input.reference_id;
      currency = input.currency;
      description = input.description;
      metadata = input.metadata;
      sealed_at = none;
    }

abbrev pub posting_row : String → LedgerPostingInput → LedgerPosting
posting_row id p = record {
  transaction_id = id;
  account_code = p.account_code;
  side = p.side;
  amount_minor = p.amount_minor;
}

-- `ledgerPosting.createMany`
abbrev pub create_postings : String → List LedgerPostingInput → LedgerTables → LedgerTables
create_postings id ps db = record db { postings = map (posting_row id) ps ++ db.postings }

abbrev pub seal_row : ℕ → LedgerTransaction → LedgerTransaction
seal_row now t = record t { sealed_at = some now }

-- `ledgerTransaction.update`
abbrev pub seal : String → ℕ → LedgerTables → LedgerTables
seal id now db = record db {
  transactions = update_where (has_id id) (seal_row now) db.transactions;
}

unfoldable pub load : LedgerTables → Bool → LedgerTransaction → AppendLedgerTransactionResult
load db already t = record {
  transaction = t;
  postings = postings_of t.id db.postings;
  already_appended = already;
}

-- The part of `appendInTransaction` behind the look-up of the key.
unfoldable pub insert_transaction :
    String
    → ℕ
    → AppendLedgerTransactionInput
    → LedgerTables
    → Outcome (LedgerTables × AppendLedgerTransactionResult)
unfolding create_transaction load
insert_transaction id now input db = do
  created ← create_transaction id input db
  let final = seal id now (create_postings id input.postings created)
  t ← or_throw (find (has_id id) final.transactions) (plain_error "P2025")
  ok (final, load final false t)

-- What a repeated key leads to: the stored transaction as `seen` holds it, or a conflict.
unfoldable pub replay :
    LedgerTables
    → LedgerTransaction
    → AppendLedgerTransactionInput
    → Outcome AppendLedgerTransactionResult
unfolding load assert_idempotent_match
replay seen existing input = assert_idempotent_match existing input >> ok (load seen true existing)

abbrev pub unchanged {ℓ} : {A : Type ℓ} → LedgerTables → Outcome A → Outcome (LedgerTables × A)
unchanged db m = m >>= λ a. ok (db, a)

-- The stored transaction if the key is taken, as `seen` holds it, or else what `miss` does.
unfoldable pub replay_or :
    LedgerTables
    → LedgerTables
    → AppendLedgerTransactionInput
    → Outcome (LedgerTables × AppendLedgerTransactionResult)
    → Outcome (LedgerTables × AppendLedgerTransactionResult)
unfolding find_by_idempotency_key
replay_or seen db input miss =
    if_found (find_by_idempotency_key seen input.idempotency_key)
      (λ existing. unchanged db (replay seen existing input)) miss

unfoldable pub append_in_transaction :
    String
    → ℕ
    → AppendLedgerTransactionInput
    → LedgerTables
    → Outcome (LedgerTables × AppendLedgerTransactionResult)
append_in_transaction id now input db =
    validate_input input >> replay_or db db input (insert_transaction id now input db)

-- `append`. Other requests commit between its steps, so it meets the tables three times: at its
-- first look-up, in its transaction, and when that commits. A unique index that is broken at the
-- commit leads to the second look-up. A serialization failure is not in the model.
unfoldable pub append :
    String
    → ℕ
    → AppendLedgerTransactionInput
    → LedgerTables
    → LedgerTables
    → LedgerTables
    → Outcome (LedgerTables × AppendLedgerTransactionResult)
append id now input at_lookup in_transaction at_commit = do
  validate_input input
  replay_or at_lookup at_commit input (
      replay_or in_transaction at_commit input
        (replay_or at_commit at_commit input (insert_transaction id now input at_commit)))
