-- ===== src/Winners/Evidence.antt =====
-- `finalizeInTransaction` of winner-selection.service.ts up to the entries that win: the guards on the
-- snapshot and the randomness, and the entries at the selected positions, which a snapshot has once.
use amazingchance.Base.{
  ℤ, pos, ◌==ℤ◌, String, Bool, false, not, ◌&&◌, ◌||◌, Option, none, some, List, [], ◌∷◌, length,
  filter, find, any, ltb, str_eq, ◌==◌, Outcome, ok, conflict, Exception, ◌>>=◌, ◌>>◌, throw_if,
  or_throw,
}
use amazingchance.Draws.Types.{LotteryDraw}
use amazingchance.Snapshots.Cryptography.{Bytes}
use amazingchance.Snapshots.Finalizer.{LockedSnapshotRow, is_finalized, present}
use amazingchance.Winners.Selection.{Value, select_winner_positions}
use amazingchance.Winners.Tables.{
  verified, same_randomness_status, RandomnessEvidence, SnapshotEntry, WinnerTables,
}
use amazingchance.Winners.Existing.{snapshot_of, randomness_of}

pub record Evidence : Type 0 where
  pub snapshot : LockedSnapshotRow
  pub snapshot_hash : Bytes
  pub merkle_root : Bytes
  pub randomness : RandomnessEvidence
  pub values : Option (List Value)

-- The randomness record of a draw, if it is fully verified.
unfoldable pub verified_positions : RandomnessEvidence → Outcome (Option (List Value))
verified_positions r = do
  throw_if (not (same_randomness_status r.status verified)) refused
  throw_if (not (is_true r.signature_verified)) refused
  _ ← or_throw (present r.response_hash) refused
  _ ← or_throw (present r.provider_signature) refused
  _ ← or_throw r.verified_at refused
  or_throw r.random_positions refused
  where
    refused : Exception
    refused = conflict "Randomness evidence is not fully verified"

    is_true : Option Bool → Bool
    is_true none = false
    is_true (some b) = b

-- The guards on the snapshot and the randomness of a draw.
unfoldable pub check_evidence : WinnerTables → LotteryDraw → Outcome Evidence
unfolding randomness_of verified_positions
check_evidence db draw = do
  snapshot ← or_throw (snapshot_of db draw.id) no_commitment
  throw_if (not (is_finalized snapshot.status)) no_commitment
  snapshot_hash ← or_throw (present snapshot.snapshot_hash) no_commitment
  merkle_root ← or_throw (present snapshot.merkle_root) no_commitment
  _ ← or_throw snapshot.finalized_at no_commitment
  throw_if (ltb snapshot.ticket_count 1)
      (conflict "Finalized snapshot contains no eligible tickets")
  randomness ←
      or_throw (randomness_of db draw.id) (conflict "Verified randomness evidence was not found")
  values ← verified_positions randomness
  throw_if
      (not (randomness.requested_min ==ℤ pos 1)
        || not (randomness.requested_max ==ℤ pos snapshot.ticket_count))
      (conflict "Randomness request range does not match the finalized snapshot")
  throw_if (ltb randomness.requested_count draw.winner_count)
      (conflict "Randomness evidence does not contain enough requested positions")
  ok (record {
    snapshot = snapshot;
    snapshot_hash = snapshot_hash;
    merkle_root = merkle_root;
    randomness = randomness;
    values = values;
  })
  where
    no_commitment : Exception
    no_commitment = conflict "A finalized ticket snapshot with cryptographic commitment is required"

-- `where: { snapshotId, position: { in: positions } }`
abbrev pub entries_at : String → List ℤ → List SnapshotEntry → List SnapshotEntry
entries_at snapshot_id positions =
    filter (λ e. str_eq e.snapshot_id snapshot_id && any (λ p. p ==ℤ e.position) positions)

-- `positions.map(...)`: the entry at each position.
unfoldable pub ordered_entries : List SnapshotEntry → List ℤ → Outcome (List SnapshotEntry)
ordered_entries entries [] = ok []
ordered_entries entries (p ∷ ps) = do
  e ←
      or_throw (find (λ e. e.position ==ℤ p) entries)
        (conflict "Snapshot entry for position was not found")
  es ← ordered_entries entries ps
  ok (e ∷ es)

unfoldable pub select_entries : WinnerTables → LotteryDraw → Evidence → Outcome (List SnapshotEntry)
unfolding ordered_entries
select_entries db draw evidence = do
  selection ← select_winner_positions (record {
    random_positions = evidence.values;
    winner_count = draw.winner_count;
    snapshot_entry_count = evidence.snapshot.ticket_count;
  })
  let entries = entries_at evidence.snapshot.id selection.positions db.entries
  throw_if (not (length entries == length selection.positions))
      (conflict "One or more selected positions are missing from the finalized snapshot")
  ordered_entries entries selection.positions
