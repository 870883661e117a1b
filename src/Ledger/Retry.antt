-- ===== src/Ledger/Retry.antt =====
-- A request to ledger.service.ts that is repeated behind other requests.
use amazingchance.Base.{
  ℕ, String, ◌≡◌, refl, ap, ◌∙◌, some, false, true, find, All-find, find-none-Misses, ok,
}
use amazingchance.Ledger.Types.{
  LedgerTransaction, AppendLedgerTransactionInput, LedgerTables, AppendLedgerTransactionResult,
  postings_of,
}
use amazingchance.Ledger.Service.{has_id, has_key, append_in_transaction, append, replay, load}
use amazingchance.Ledger.Store.{IsValid, postings_of-other, str_eq_comm}
use amazingchance.Ledger.Append.{Replays, append_in_transaction-Replays, replay_or_taken, validated}
use amazingchance.Ledger.Steps.{Appends, replayed, stored, Appends-keeps}

-- The tables behind any number of further calls that returned.
pub data Grows (db : LedgerTables) : LedgerTables → Type 0 where
  same : Grows db db
  grown :
      {u w : LedgerTables} (id : String) (now : ℕ) (input : AppendLedgerTransactionInput)
      → Grows db u
      → Appends id now input u w
      → Grows db w

-- A transaction that was there has its postings as before.
Appends-postings_of :
    (id : String) (now : ℕ) (input : AppendLedgerTransactionInput) (db : LedgerTables)
    {u : LedgerTables} (key : String) {t : LedgerTransaction}
    → find (has_key key) db.transactions ≡ some t
    → Appends id now input db u
    → postings_of t.id u.postings ≡ postings_of t.id db.postings
Appends-postings_of id now input db key {t} there (replayed _ taken same_tables) =
    ap (λ (x : LedgerTables). postings_of t.id x.postings) same_tables
Appends-postings_of id now input db key {t} there (stored free no_id w made) =
    let other =
      (All-find (λ x. has_id id x ≡ false) (has_key key) db.transactions
        (find-none-Misses (has_id id) db.transactions no_id) there).0 in
    ap (λ (x : LedgerTables). postings_of t.id x.postings) made
    ∙ postings_of-other id now input db t.id (str_eq_comm t.id id other)

replay-postings :
    (db u : LedgerTables) (t : LedgerTransaction) (input : AppendLedgerTransactionInput)
    → postings_of t.id u.postings ≡ postings_of t.id db.postings
    → replay u t input ≡ replay db t input
unfolding replay load
replay-postings db u t input e = rw e refl

Grows-Replays :
    (id : String) (now : ℕ) (input : AppendLedgerTransactionInput) (db : LedgerTables)
    {u w : LedgerTables} {r : AppendLedgerTransactionResult}
    → Replays id now input db u r
    → Grows u w
    → Replays id now input db w r
Grows-Replays id now input db p same = p
Grows-Replays id now input db p (grown {u} {w} id' now' input' before step) =
    let q = Grows-Replays id now input db p before in
    record {
      row = q.row;
      found = Appends-keeps id' now' input' u input.idempotency_key q.found step;
      again =
          replay-postings u w q.row input
            (Appends-postings_of id' now' input' u input.idempotency_key q.found step)
          ∙ q.again;
    }

-- A request that is repeated after it succeeded, behind any number of other requests that returned,
-- gets the same transaction and postings again, marked as appended before, and changes nothing,
-- whatever is committed between its own look-up and commit.
pub append_in_transaction-retry :
    (id id' : String) (now now' : ℕ) (input : AppendLedgerTransactionInput)
    (db at_lookup in_transaction at_commit : LedgerTables) {u : LedgerTables}
    {r : AppendLedgerTransactionResult}
    → IsValid db
    → append_in_transaction id now input db ≡ ok (u, r)
    → Grows u at_lookup
    → append id' now' input at_lookup in_transaction at_commit
      ≡ ok (at_commit, record r { already_appended = true })
unfolding append
append_in_transaction-retry id id' now now' input db at_lookup in_transaction at_commit v e later =
    let q =
      Grows-Replays id now input db (append_in_transaction-Replays id now input db v e) later in
    rw (validated id now input db e).0
      (replay_or_taken at_lookup at_commit input _ q.found ∙ rw q.again refl)
