-- ===== src/Ledger/Store.antt =====
-- The invariant of the ledger tables under `append` and `appendInTransaction`.
use mathlib.Core.List.{append-nil}
use amazingchance.Base.{
  ℕ, String, ◌≡◌, refl, ap, ap₂, ◌∙◌, inl, inr, true, false, none, some, List, [], ◌∷◌, ◌++◌, map,
  ◌≤◌, arith, length, All, Misses, find, is_some, str_eq, str_eq_refl, eq_iff, Bool-cases, ok,
  find-none-Misses, filter-Misses, update_where-Misses, filter-All, filter-append, length-map,
  All-append,
}
use amazingchance.Ledger.Types.{
  LedgerPostingInput, LedgerPosting, LedgerTransaction, AppendLedgerTransactionInput, LedgerTables,
  of_transaction, postings_of,
}
use amazingchance.Ledger.Service.{posting_row, has_id, has_key, insert_transaction, seal_row}
use amazingchance.Ledger.Validation.{row_entry, input_entry, IsBalanced, IsWellFormed}

-- A stored transaction is sealed, has two postings or more, and balances.
pub record IsSound (ps : List LedgerPosting) (t : LedgerTransaction) : Type 0 where
  pub is_sealed : is_some t.sealed_at ≡ true
  pub has_postings : 2 ≤ length (postings_of t.id ps)
  pub balanced : IsBalanced (map row_entry (postings_of t.id ps))

-- No two transactions share an id or an idempotency key.
abbrev pub AreDistinct : List LedgerTransaction → Type 0
AreDistinct [] = Unit {0}
AreDistinct (t ∷ ts) =
    Misses (has_id t.id) ts × Misses (has_key t.idempotency_key) ts × AreDistinct ts

-- The foreign key of a posting.
abbrev pub HasTransaction : List LedgerTransaction → LedgerPosting → Type 0
HasTransaction ts p = is_some (find (has_id p.transaction_id) ts) ≡ true

pub record IsValid (db : LedgerTables) : Type 0 where
  pub sound : All (IsSound db.postings) db.transactions
  pub distinct : AreDistinct db.transactions
  pub foreign_key : All (HasTransaction db.transactions) db.postings

-- The row that `append` leaves, and the tables with it.
abbrev pub stored_row : String → ℕ → AppendLedgerTransactionInput → LedgerTransaction
stored_row id now input = record {
  id = id;
  type = input.type;
  idempotency_key = input.idempotency_key;
  reference_type = input.reference_type;
  reference_id = input.reference_id;
  currency = input.currency;
  description = input.description;
  metadata = input.metadata;
  sealed_at = some now;
}

abbrev pub rows : String → AppendLedgerTransactionInput → List LedgerPosting
rows id input = map (posting_row id) input.postings

abbrev pub with_stored : String → ℕ → AppendLedgerTransactionInput → LedgerTables → LedgerTables
with_stored id now input db = record {
  transactions = stored_row id now input ∷ db.transactions;
  postings = rows id input ++ db.postings;
}

rows_of_own :
    (id : String) (ps : List LedgerPostingInput)
    → All (λ p. of_transaction id p ≡ true) (map (posting_row id) ps)
rows_of_own id [] = tt
rows_of_own id (p ∷ ps) = (str_eq_refl id, rows_of_own id ps)

rows_of_other :
    (id other : String) (ps : List LedgerPostingInput)
    → str_eq id other ≡ false
    → Misses (of_transaction other) (map (posting_row id) ps)
rows_of_other id other [] h = tt
rows_of_other id other (p ∷ ps) h = (h, rows_of_other id other ps h)

pub str_eq_comm : (s t : String) → str_eq s t ≡ false → str_eq t s ≡ false
str_eq_comm s t h = ground (arith, eq_iff s t, eq_iff t s)

-- An id that no transaction has is on no posting.
pub no_postings :
    (id : String) (ts : List LedgerTransaction) (ps : List LedgerPosting)
    → find (has_id id) ts ≡ none
    → All (HasTransaction ts) ps
    → Misses (of_transaction id) ps
no_postings id ts [] fresh h = tt
no_postings id ts (p ∷ ps) fresh h = elim (Bool-cases (str_eq p.transaction_id id)) [
  | inl same ↦
      let e : p.transaction_id ≡ id = (eq_iff p.transaction_id id).0 same in
      absurd (cc (h.0, fresh, ap (λ k. is_some (find (has_id k) ts)) e))
  | inr other ↦ (other, no_postings id ts ps fresh h.1)
]

module _ (id : String) (now : ℕ) (input : AppendLedgerTransactionInput) (db : LedgerTables) where
  pub postings_of-own :
      Misses (of_transaction id) db.postings
      → postings_of id (rows id input ++ db.postings) ≡ rows id input
  postings_of-own h =
      filter-append (of_transaction id) (rows id input) db.postings
      ∙ ap₂ ◌++◌ (filter-All (of_transaction id) (rows id input) (rows_of_own id input.postings))
          (filter-Misses (of_transaction id) db.postings h)
      ∙ append-nil (rows id input)

  pub postings_of-other :
      (other : String)
      → str_eq id other ≡ false
      → postings_of other (rows id input ++ db.postings) ≡ postings_of other db.postings
  postings_of-other other h =
      filter-append (of_transaction other) (rows id input) db.postings
      ∙ ap (λ ps. ps ++ postings_of other db.postings)
          (filter-Misses (of_transaction other) (rows id input)
            (rows_of_other id other input.postings h))

  -- With an unused id and key, the insertion stores the input, sealed, and returns it.
  pub insert_transaction_lem :
      find (has_id id) db.transactions ≡ none
      → find (has_key input.idempotency_key) db.transactions ≡ none
      → All (HasTransaction db.transactions) db.postings
      → insert_transaction id now input db
        ≡ ok (
          with_stored id now input db,
          record {
            transaction = stored_row id now input;
            postings = rows id input;
            already_appended = false;
          },
        )
  unfolding insert_transaction
  insert_transaction_lem no_id no_key fk = simp (
    no_id,
    no_key,
    str_eq_refl id,
    update_where-Misses (has_id id) (seal_row now) db.transactions
        (find-none-Misses (has_id id) db.transactions no_id),
    postings_of-own (no_postings id db.transactions db.postings no_id fk),
  )

entries_of_rows :
    (id : String) (ps : List LedgerPostingInput)
    → map row_entry (map (posting_row id) ps) ≡ map input_entry ps
entries_of_rows id [] = refl
entries_of_rows id (p ∷ ps) = ap (◌∷◌ (input_entry p)) (entries_of_rows id ps)

-- A new row keeps what the other rows refer to.
HasTransaction-cons :
    (t : LedgerTransaction) (ts : List LedgerTransaction) (ps : List LedgerPosting)
    → All (HasTransaction ts) ps
    → All (HasTransaction (t ∷ ts)) ps
HasTransaction-cons t ts [] h = tt
HasTransaction-cons t ts (p ∷ ps) h = (ground (arith, h.0), HasTransaction-cons t ts ps h.1)

rows-HasTransaction :
    (t : LedgerTransaction) (ts : List LedgerTransaction) (ps : List LedgerPostingInput)
    → All (HasTransaction (t ∷ ts)) (map (posting_row t.id) ps)
rows-HasTransaction t ts [] = tt
rows-HasTransaction t ts (p ∷ ps) = (rw (str_eq_refl t.id), rows-HasTransaction t ts ps)

module _ (id : String) (now : ℕ) (input : AppendLedgerTransactionInput) (db : LedgerTables) where
  IsSound-kept :
      (ts : List LedgerTransaction)
      → Misses (has_id id) ts
      → All (IsSound db.postings) ts
      → All (IsSound (rows id input ++ db.postings)) ts
  IsSound-kept [] m h = tt
  IsSound-kept (t ∷ ts) m h =
      let same : postings_of t.id (rows id input ++ db.postings) ≡ postings_of t.id db.postings =
        postings_of-other id now input db t.id (str_eq_comm t.id id m.0) in
      (
        record {
          is_sealed = h.0.is_sealed;
          has_postings = rw same h.0.has_postings;
          balanced = rw same h.0.balanced;
        },
        IsSound-kept ts m.1 h.1,
      )

  pub with_stored-IsValid :
      find (has_id id) db.transactions ≡ none
      → find (has_key input.idempotency_key) db.transactions ≡ none
      → IsWellFormed input
      → IsValid db
      → IsValid (with_stored id now input db)
  with_stored-IsValid no_id no_key w v =
      let no_row = find-none-Misses (has_id id) db.transactions no_id in
      let own : postings_of id (rows id input ++ db.postings) ≡ rows id input =
        postings_of-own id now input db
          (no_postings id db.transactions db.postings no_id v.foreign_key) in
      record {
        sound = (
          record {
            is_sealed = refl;
            has_postings = rw own (rw (length-map (posting_row id) input.postings) w.has_postings);
            balanced = rw own (rw (entries_of_rows id input.postings) w.balanced);
          },
          IsSound-kept db.transactions no_row v.sound,
        );
        distinct = (
          no_row,
          find-none-Misses (has_key input.idempotency_key) db.transactions no_key,
          v.distinct,
        );
        foreign_key =
            All-append (HasTransaction (stored_row id now input ∷ db.transactions)) (rows id input)
              db.postings
              (rows-HasTransaction (stored_row id now input) db.transactions input.postings)
              (HasTransaction-cons (stored_row id now input) db.transactions db.postings
                v.foreign_key);
      }
