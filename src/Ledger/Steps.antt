-- ===== src/Ledger/Steps.antt =====
-- A call of `appendInTransaction` of ledger.service.ts that returns, inside of a larger transaction.
use amazingchance.Base.{
  ℕ, String, ◌≡◌, refl, sym, subst, ◌∙◌, inl, inr, none, some, find, Option-cases, Outcome, ok, err,
  ap, ok_pair, ok-injective, >>=-eq-ok, false, str_eq, str_eq_refl, eq_iff, Bool-cases,
}
use amazingchance.Ledger.Types.{
  LedgerTransaction, AppendLedgerTransactionInput, LedgerTables, AppendLedgerTransactionResult,
}
use amazingchance.Ledger.Service.{
  assert_idempotent_match, has_id, has_key, append_in_transaction, replay, unchanged,
}
use amazingchance.Ledger.Validation.{IsWellFormed, validate_input_iff}
use amazingchance.Ledger.Store.{IsValid, stored_row, with_stored, with_stored-IsValid}
use amazingchance.Ledger.Append.{
  validated, replay_or_free, replay_or_taken, insert_transaction_cases,
}

-- The tables behind a call: the same where the key was taken, or with the transaction stored.
pub data Appends (id : String) (now : ℕ) (input : AppendLedgerTransactionInput)
    (db u : LedgerTables) : Type 0 where
  replayed :
      (t : LedgerTransaction)
      → find (has_key input.idempotency_key) db.transactions ≡ some t
      → u ≡ db
      → Appends id now input db u
  stored :
      find (has_key input.idempotency_key) db.transactions ≡ none
      → find (has_id id) db.transactions ≡ none
      → IsWellFormed input
      → u ≡ with_stored id now input db
      → Appends id now input db u

unchanged-tables {ℓ} :
    {A : Type ℓ} (db : LedgerTables) (m : Outcome A) {u : LedgerTables} {a : A}
    → unchanged db m ≡ ok (u, a)
    → u ≡ db
unchanged-tables db (ok b) h = sym (ok_pair h).0
unchanged-tables db (err e) h = cc

replayed-row :
    (db : LedgerTables) (t : LedgerTransaction) (input : AppendLedgerTransactionInput)
    {u : LedgerTables} {r : AppendLedgerTransactionResult}
    → unchanged db (replay db t input) ≡ ok (u, r)
    → (u ≡ db) × (r.transaction ≡ t)
unfolding replay
replayed-row db t input {u} {r} h =
    let (r', a, h1) = >>=-eq-ok (replay db t input) _ h in
    let (_, _, loaded) = >>=-eq-ok (assert_idempotent_match t input) _ a in
    let (same, result) = ok_pair h1 in
    (sym same, ap (λ x. x.transaction) (sym result ∙ sym (ok-injective loaded)))

module _ (id : String) (now : ℕ) (input : AppendLedgerTransactionInput) (db : LedgerTables) where
  pub append_in_transaction-Appends :
      {u : LedgerTables} {r : AppendLedgerTransactionResult}
      → IsValid db
      → append_in_transaction id now input db ≡ ok (u, r)
      → Appends id now input db u
  append_in_transaction-Appends {u} {r} v h =
      let (good, run) = validated id now input db h in
      let w = (validate_input_iff input).0 good in
      elim (Option-cases (find (has_key input.idempotency_key) db.transactions)) [
        | inr (t, taken) ↦ replayed t taken (
            unchanged-tables db (replay db t input)
              (sym (replay_or_taken db db input _ taken) ∙ run))
        | inl free ↦
            let inserted = sym (replay_or_free db db input _ free) ∙ run in
            elim (insert_transaction_cases id now input db v free w) [
              | inl refused ↦ absurd (cc (refused, inserted))
              | inr s ↦ stored free s.id_free w (ok_pair (sym inserted ∙ s.returns)).0
            ]
      ]

  pub Appends-IsValid : {u : LedgerTables} → IsValid db → Appends id now input db u → IsValid u
  Appends-IsValid v (replayed t taken same) = subst IsValid (sym same) v
  Appends-IsValid v (stored free no_id w made) =
      subst IsValid (sym made) (with_stored-IsValid id now input db no_id free w v)

  -- A transaction that a call returned is found by its key, and is the new row if the key was free.
  pub append_in_transaction-found :
      {u : LedgerTables} {r : AppendLedgerTransactionResult}
      → IsValid db
      → append_in_transaction id now input db ≡ ok (u, r)
      → (find (has_key input.idempotency_key) u.transactions ≡ some r.transaction)
        × (find (has_key input.idempotency_key) db.transactions ≡ none
            → r.transaction ≡ stored_row id now input)
  append_in_transaction-found {u} {r} v h =
      let (good, run) = validated id now input db h in
      let w = (validate_input_iff input).0 good in
      elim (Option-cases (find (has_key input.idempotency_key) db.transactions)) [
        | inr (t, taken) ↦
            let (same, row) =
              replayed-row db t input (sym (replay_or_taken db db input _ taken) ∙ run) in
            (
              ap (λ (x : LedgerTables). find (has_key input.idempotency_key) x.transactions) same
                  ∙ taken
                  ∙ ap some (sym row),
              λ free. absurd (cc (free, taken)),
            )
        | inl free ↦
            let inserted = sym (replay_or_free db db input _ free) ∙ run in
            elim (insert_transaction_cases id now input db v free w) [
              | inl refused ↦ absurd (cc (refused, inserted))
              | inr s ↦
                  let (tables, result) = ok_pair (sym inserted ∙ s.returns) in
                  let row = ap (λ (x : AppendLedgerTransactionResult). x.transaction) result in
                  (
                    ap (λ (x : LedgerTables). find (has_key input.idempotency_key) x.transactions)
                          tables
                        ∙ rw (str_eq_refl input.idempotency_key) refl
                        ∙ ap some (sym row),
                    λ _. row,
                  )
            ]
      ]

  -- A transaction that was there is found as before.
  pub Appends-keeps :
      {u : LedgerTables} (key : String) {t : LedgerTransaction}
      → find (has_key key) db.transactions ≡ some t
      → Appends id now input db u
      → find (has_key key) u.transactions ≡ some t
  Appends-keeps key {t} there (replayed _ taken same) =
      ap (λ (x : LedgerTables). find (has_key key) x.transactions) same ∙ there
  Appends-keeps key {t} there (stored free no_id w made) =
      ap (λ (x : LedgerTables). find (has_key key) x.transactions) made
      ∙ elim (Bool-cases (str_eq input.idempotency_key key)) [
        | inl same ↦
            let e = (eq_iff input.idempotency_key key).0 same in
            absurd (cc (there, sym free ∙ ap (λ k. find (has_key k) db.transactions) e))
        | inr other ↦ rw other there
      ]

  -- A key that is free and not the call's is free afterwards.
  pub Appends-free :
      {u : LedgerTables} (key : String)
      → str_eq input.idempotency_key key ≡ false
      → find (has_key key) db.transactions ≡ none
      → Appends id now input db u
      → find (has_key key) u.transactions ≡ none
  Appends-free key other none_yet (replayed _ taken same) =
      ap (λ (x : LedgerTables). find (has_key key) x.transactions) same ∙ none_yet
  Appends-free key other none_yet (stored free no_id w made) =
      ap (λ (x : LedgerTables). find (has_key key) x.transactions) made ∙ rw other none_yet
