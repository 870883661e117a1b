-- ===== src/Snapshots/Finalizer.antt =====
-- SnapshotFinalizerService of snapshot-finalizer.service.ts. The id of a draw, of ASCII characters,
-- is hashed as its code points. The index that no two snapshots share a hash is left out. Entries
-- at one position, which are refused, stand in any order.
use amazingchance.Base.{
  ℕ, ◌+◌, String, Bool, true, false, not, ◌&&◌, Option, none, some, List, [], ◌∷◌, map, length,
  filter, find, is_some, update_where, count_where, order_asc, str_eq, ◌==◌, codes, if◌then◌else◌,
  Outcome, ok, conflict, not_found, ◌>>=◌, ◌>>◌, throw_if, or_throw,
}
use amazingchance.Draws.Types.{
  LotteryDraw, snapshot_building, snapshot_finalized, same_status, has_id,
}
use amazingchance.Draws.Transitions.{at_status, with_status}
use amazingchance.Snapshots.Cryptography.{
  Bytes, bytes_eq, CanonicalSnapshotEntry, SnapshotCommitment, create_commitment,
}

pub data SnapshotStatus : Type 0 where
  building finalized : SnapshotStatus

abbrev pub is_finalized : SnapshotStatus → Bool
is_finalized finalized = true
is_finalized building = false

abbrev pub is_building : SnapshotStatus → Bool
is_building building = true
is_building finalized = false

-- A row of `ticket_snapshots`.
pub record LockedSnapshotRow : Type 0 where
  pub id : String
  pub draw_id : String
  pub status : SnapshotStatus
  pub ticket_count : ℕ
  pub canonical_format : Bytes
  pub hash_algorithm : String
  pub snapshot_hash : Option Bytes
  pub merkle_root : Option Bytes
  pub finalized_at : Option ℕ

-- A row of `ticket_snapshot_entries`.
pub record SnapshotEntryRow : Type 0 where
  pub snapshot_id : String
  pub entry : CanonicalSnapshotEntry

pub record SnapshotTables : Type 0 where
  pub snapshots : List LockedSnapshotRow
  pub entries : List SnapshotEntryRow
  pub draws : List LotteryDraw

pub record FinalizeSnapshotResult : Type 0 where
  pub snapshot_id : String
  pub draw_id : String
  pub ticket_count : ℕ
  pub hash_algorithm : String
  pub snapshot_hash : Bytes
  pub merkle_root : Bytes
  pub finalized_at : ℕ
  pub already_finalized : Bool

abbrev pub of_draw : String → LockedSnapshotRow → Bool
of_draw draw_id s = str_eq s.draw_id draw_id

-- The entries of a snapshot by their positions.
unfoldable pub entries_of : SnapshotTables → String → List CanonicalSnapshotEntry
entries_of db snapshot_id =
    order_asc (λ e. e.position)
      (map (λ r. r.entry) (filter (λ r. str_eq r.snapshot_id snapshot_id) db.entries))

-- Whether the positions count up from an index.
unfoldable pub are_continuous : ℕ → List CanonicalSnapshotEntry → Bool
are_continuous index [] = true
are_continuous index (e ∷ es) = e.position == index + 1 && are_continuous (index + 1) es

unfoldable pub assert_continuous_positions : List CanonicalSnapshotEntry → Outcome (Unit {0})
unfolding are_continuous
assert_continuous_positions entries =
    throw_if (not (are_continuous 0 entries)) (conflict "Snapshot position sequence is invalid")

-- A text that is neither missing nor empty.
abbrev pub present : Option Bytes → Option Bytes
present none = none
present (some []) = none
present (some (b ∷ bs)) = some (b ∷ bs)

unfoldable pub verify_finalized_snapshot :
    LockedSnapshotRow → Bytes → Bytes → Outcome FinalizeSnapshotResult
unfolding bytes_eq
verify_finalized_snapshot snapshot calculated_snapshot_hash calculated_merkle_root = do
  snapshot_hash ←
      or_throw (present snapshot.snapshot_hash)
        (conflict "Finalized snapshot is missing commitment data")
  merkle_root ←
      or_throw (present snapshot.merkle_root)
        (conflict "Finalized snapshot is missing commitment data")
  finalized_at ←
      or_throw snapshot.finalized_at (conflict "Finalized snapshot is missing commitment data")
  throw_if (not (bytes_eq snapshot_hash calculated_snapshot_hash))
      (conflict "Finalized snapshot hash does not match its entries")
  throw_if (not (bytes_eq merkle_root calculated_merkle_root))
      (conflict "Finalized snapshot Merkle root does not match its entries")
  ok (record {
    snapshot_id = snapshot.id;
    draw_id = snapshot.draw_id;
    ticket_count = snapshot.ticket_count;
    hash_algorithm = snapshot.hash_algorithm;
    snapshot_hash = snapshot_hash;
    merkle_root = merkle_root;
    finalized_at = finalized_at;
    already_finalized = true;
  })

-- `where: { id, status: BUILDING, snapshotHash: null, merkleRoot: null, finalizedAt: null }`
abbrev pub is_unfinished : String → LockedSnapshotRow → Bool
is_unfinished id s =
    str_eq s.id id
    && is_building s.status
    && not (is_some s.snapshot_hash)
    && not (is_some s.merkle_root)
    && not (is_some s.finalized_at)

abbrev pub finalized_row : ℕ → SnapshotCommitment → LockedSnapshotRow → LockedSnapshotRow
finalized_row now commitment s = record s {
  status = finalized;
  snapshot_hash = some commitment.snapshot_hash;
  merkle_root = some commitment.merkle_root;
  finalized_at = some now;
}

unfoldable pub finalize_building :
    ℕ
    → SnapshotTables
    → String
    → LockedSnapshotRow
    → LotteryDraw
    → SnapshotCommitment
    → Outcome (SnapshotTables × FinalizeSnapshotResult)
finalize_building now db draw_id snapshot draw commitment = do
  throw_if (not (is_building snapshot.status)) (conflict "Snapshot cannot be finalized")
  throw_if (not (same_status draw.status snapshot_building))
      (conflict "Snapshot cannot be finalized for a draw")
  throw_if (not (str_eq snapshot.hash_algorithm "SHA-256"))
      (conflict "Unsupported snapshot hash algorithm")
  throw_if (not (count_where (is_unfinished snapshot.id) db.snapshots == 1))
      (conflict "Snapshot state changed while it was being finalized")
  throw_if (not (count_where (at_status draw_id (snapshot_building ∷ [])) db.draws == 1))
      (conflict "Draw state changed while snapshot was being finalized")
  ok (
    record db {
      snapshots =
          update_where (is_unfinished snapshot.id) (finalized_row now commitment) db.snapshots;
      draws =
          update_where (at_status draw_id (snapshot_building ∷ []))
            (with_status now snapshot_finalized) db.draws;
    },
    record {
      snapshot_id = snapshot.id;
      draw_id = draw_id;
      ticket_count = snapshot.ticket_count;
      hash_algorithm = snapshot.hash_algorithm;
      snapshot_hash = commitment.snapshot_hash;
      merkle_root = commitment.merkle_root;
      finalized_at = now;
      already_finalized = false;
    },
  )

unfoldable pub finalize :
    (Bytes → Bytes)
    → ℕ
    → SnapshotTables
    → String
    → Outcome (SnapshotTables × FinalizeSnapshotResult)
unfolding entries_of assert_continuous_positions verify_finalized_snapshot finalize_building
finalize sha256 now db draw_id = do
  snapshot ← or_throw (find (of_draw draw_id) db.snapshots) (not_found "Ticket snapshot not found")
  draw ← or_throw (find (has_id draw_id) db.draws) (not_found "Lottery draw not found")
  let entries = entries_of db snapshot.id
  throw_if (not (length entries == snapshot.ticket_count))
      (conflict "Snapshot entry count does not match ticket count")
  assert_continuous_positions entries
  let commitment = create_commitment sha256 snapshot.canonical_format (codes draw_id) entries
  let verified =
      verify_finalized_snapshot snapshot commitment.snapshot_hash commitment.merkle_root >>= λ r.
      ok (db, r)
  let written = finalize_building now db draw_id snapshot draw commitment
  if is_finalized snapshot.status then verified else written
