-- ===== src/Ledger/Append.antt =====
-- What a call of `append` or `appendInTransaction` of ledger.service.ts does to the tables.
use amazingchance.Base.{
  ℕ, String, ◌≡◌, refl, sym, ◌∙◌, inl, inr, ◌⊎◌, true, false, none, some, arith, find, str_eq_refl,
  Option-cases, Outcome-cases, Outcome, ok, err, plain_error, state_after, ok_pair,
}
use amazingchance.Ledger.Types.{
  LedgerTransaction, AppendLedgerTransactionInput, LedgerTables, AppendLedgerTransactionResult,
  same_type_iff,
}
use amazingchance.Ledger.Service.{
  validate_input, has_id, has_key, insert_transaction, append_in_transaction, append, replay,
  unchanged, replay_or,
}
use amazingchance.Ledger.Validation.{IsWellFormed, validate_input_iff}
use amazingchance.Ledger.Store.{
  IsValid, rows, stored_row, with_stored, with_stored-IsValid, insert_transaction_lem,
  postings_of-own, no_postings,
}

abbrev pub stored_result : String → ℕ → AppendLedgerTransactionInput → AppendLedgerTransactionResult
stored_result id now input = record {
  transaction = stored_row id now input;
  postings = rows id input;
  already_appended = false;
}

-- A call that adds the input to `db`.
pub record Stores (id : String) (now : ℕ) (input : AppendLedgerTransactionInput) (db : LedgerTables)
    (m : Outcome (LedgerTables × AppendLedgerTransactionResult)) : Type 0 where
  pub well_formed : IsWellFormed input
  pub id_free : find (has_id id) db.transactions ≡ none
  pub key_free : find (has_key input.idempotency_key) db.transactions ≡ none
  pub returns : m ≡ ok (with_stored id now input db, stored_result id now input)

module _ (id : String) (now : ℕ) (input : AppendLedgerTransactionInput) (db : LedgerTables) where
  pub insert_transaction_cases :
      IsValid db
      → find (has_key input.idempotency_key) db.transactions ≡ none
      → IsWellFormed input
      → (insert_transaction id now input db ≡ err (plain_error "P2002"))
        ⊎ Stores id now input db (insert_transaction id now input db)
  unfolding insert_transaction
  insert_transaction_cases v key w = elim (Option-cases (find (has_id id) db.transactions)) [
    | inr (t, used) ↦ inl (rw used)
    | inl free ↦ inr (record {
      well_formed = w;
      id_free = free;
      key_free = key;
      returns = insert_transaction_lem id now input db free key v.foreign_key;
    })
  ]

  Stores-IsValid :
      (m : Outcome (LedgerTables × AppendLedgerTransactionResult))
      → IsValid db
      → Stores id now input db m
      → IsValid (state_after db m)
  Stores-IsValid m v s =
      rw s.returns (with_stored-IsValid id now input db s.id_free s.key_free s.well_formed v)

  insert_transaction-IsValid :
      IsValid db
      → find (has_key input.idempotency_key) db.transactions ≡ none
      → IsWellFormed input
      → IsValid (state_after db (insert_transaction id now input db))
  insert_transaction-IsValid v key w = elim (insert_transaction_cases v key w) [
    | inl refused ↦ rw refused v
    | inr stored ↦ Stores-IsValid (insert_transaction id now input db) v stored
  ]

state_after-unchanged {ℓ} :
    {A : Type ℓ} (db : LedgerTables) (m : Outcome A) → state_after db (unchanged db m) ≡ db
state_after-unchanged db (ok a) = refl
state_after-unchanged db (err e) = refl

-- A replay changes nothing, so only the other way has to keep the tables valid.
replay_or-IsValid :
    (seen db : LedgerTables) (input : AppendLedgerTransactionInput)
    (miss : Outcome (LedgerTables × AppendLedgerTransactionResult))
    → IsValid db
    → (find (has_key input.idempotency_key) seen.transactions ≡ none
        → IsValid (state_after db miss))
    → IsValid (state_after db (replay_or seen db input miss))
unfolding replay_or
replay_or-IsValid seen db input miss v next =
    elim (Option-cases (find (has_key input.idempotency_key) seen.transactions)) [
      | inl free ↦ rw free (next free)
      | inr (t, taken) ↦ rw taken (rw (state_after-unchanged db (replay seen t input)) v)
    ]

-- Whatever other requests have committed between its steps, `append` keeps the tables valid: every
-- transaction sealed and balanced, keys and ids unique, no posting without its transaction.
pub append-IsValid :
    (id : String) (now : ℕ) (input : AppendLedgerTransactionInput)
    (at_lookup in_transaction at_commit : LedgerTables)
    → IsValid at_commit
    → IsValid (state_after at_commit (append id now input at_lookup in_transaction at_commit))
unfolding append
append-IsValid id now input s0 s1 s2 v = elim (Outcome-cases (validate_input input)) [
  | inr (e, bad) ↦ rw bad v
  | inl (u, good) ↦ rw good (
      replay_or-IsValid s0 s2 input _ v λ _. replay_or-IsValid s1 s2 input _ v λ _.
        replay_or-IsValid s2 s2 input _ v λ free.
          insert_transaction-IsValid id now input s2 v free ((validate_input_iff input).0 good))
]

-- A stored input matches itself.
stored_replays :
    (id : String) (now : ℕ) (input : AppendLedgerTransactionInput) (db : LedgerTables)
    → find (has_id id) db.transactions ≡ none
    → IsValid db
    → replay (with_stored id now input db) (stored_row id now input) input
      ≡ ok (record (stored_result id now input) { already_appended = true })
unfolding replay
stored_replays id now input db free v = simp (
  (same_type_iff input.type input.type).1 refl,
  str_eq_refl input.reference_type,
  str_eq_refl input.reference_id,
  str_eq_refl input.currency,
  postings_of-own id now input db (no_postings id db.transactions db.postings free v.foreign_key),
)

pub replay_or_free :
    (seen db : LedgerTables) (input : AppendLedgerTransactionInput)
    (miss : Outcome (LedgerTables × AppendLedgerTransactionResult))
    → find (has_key input.idempotency_key) seen.transactions ≡ none
    → replay_or seen db input miss ≡ miss
unfolding replay_or
replay_or_free seen db input miss free = rw free

pub replay_or_taken :
    (seen db : LedgerTables) (input : AppendLedgerTransactionInput)
    (miss : Outcome (LedgerTables × AppendLedgerTransactionResult)) {t : LedgerTransaction}
    → find (has_key input.idempotency_key) seen.transactions ≡ some t
    → replay_or seen db input miss ≡ unchanged db (replay seen t input)
unfolding replay_or
replay_or_taken seen db input miss taken = rw taken

replayed_again :
    (seen db : LedgerTables) (t : LedgerTransaction) (input : AppendLedgerTransactionInput)
    {db' : LedgerTables} {r : AppendLedgerTransactionResult}
    → unchanged db (replay seen t input) ≡ ok (db', r)
    → (db' ≡ db) × (replay seen t input ≡ ok (record r { already_appended = true }))
unfolding replay
replayed_again seen db t input e = ground arith

pub validated :
    (id : String) (now : ℕ) (input : AppendLedgerTransactionInput) (db : LedgerTables)
    {db' : LedgerTables} {r : AppendLedgerTransactionResult}
    → append_in_transaction id now input db ≡ ok (db', r)
    → (validate_input input ≡ ok tt)
      × (replay_or db db input (insert_transaction id now input db) ≡ ok (db', r))
unfolding append_in_transaction
validated id now input db e = ground arith

module _ (id : String) (now : ℕ) (input : AppendLedgerTransactionInput) (db : LedgerTables) where
  -- The row that a call has found or stored, and that its own tables replay.
  pub record Replays (u : LedgerTables) (r : AppendLedgerTransactionResult) : Type 0 where
    pub row : LedgerTransaction
    pub found : find (has_key input.idempotency_key) u.transactions ≡ some row
    pub again : replay u row input ≡ ok (record r { already_appended = true })

  stored-Replays :
      {u : LedgerTables} {r : AppendLedgerTransactionResult}
      → IsValid db
      → validate_input input ≡ ok tt
      → insert_transaction id now input db ≡ ok (u, r)
      → find (has_key input.idempotency_key) db.transactions ≡ none
      → Replays u r
  stored-Replays {u} {r} v good e free =
      elim (insert_transaction_cases id now input db v free ((validate_input_iff input).0 good)) [
        | inl refused ↦ absurd (cc (refused, e))
        | inr stored ↦
            let (same_tables, same_result) = ok_pair (sym e ∙ stored.returns) in
            record {
              row = stored_row id now input;
              found = rw (same_tables, str_eq_refl input.idempotency_key) refl;
              again =
                  rw (same_tables, same_result) (stored_replays id now input db stored.id_free v);
            }
      ]

  pub append_in_transaction-Replays :
      {u : LedgerTables} {r : AppendLedgerTransactionResult}
      → IsValid db
      → append_in_transaction id now input db ≡ ok (u, r)
      → Replays u r
  append_in_transaction-Replays {u} {r} v e =
      let (good, run) = validated id now input db e in
      elim (Option-cases (find (has_key input.idempotency_key) db.transactions)) [
        | inl free ↦ stored-Replays v good (sym (replay_or_free db db input _ free) ∙ run) free
        | inr (t, taken) ↦
            let (same, again) =
              replayed_again db db t input (sym (replay_or_taken db db input _ taken) ∙ run) in
            record { row = t; found = rw same taken; again = rw same again }
      ]
