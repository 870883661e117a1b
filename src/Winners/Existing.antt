-- ===== src/Winners/Existing.antt =====
-- What winner-selection.service.ts returns: `resolveExistingResult`, `serializeWinners` and
-- `findCompletedResult`. The joins of a row go by unique ids.
use amazingchance.Base.{
  ℕ, ℤ, String, Bool, true, not, ◌&&◌, ◌||◌, Option, none, some, List, [], ◌∷◌, length, filter,
  find, head?, order_asc, order_desc, str_eq, ◌==◌, if◌then◌else◌, Outcome, ok, conflict,
  plain_error, Exception, ◌>>=◌, ◌>>◌, throw_if, or_throw, if_found,
}
use amazingchance.Draws.Types.{LotteryDraw, DrawStatus, completed, published, same_status, has_id}
use amazingchance.Snapshots.Cryptography.{Bytes}
use amazingchance.Snapshots.Finalizer.{LockedSnapshotRow, present, of_draw}
use amazingchance.Winners.Tables.{
  verified, same_randomness_status, RandomnessEvidence, SnapshotEntry, DrawWinner, WinnerTables,
  winner_of_draw,
}
use amazingchance.Winners.Recognition.{prizes_of, assert_prize_evidence}

pub record SelectedWinner : Type 0 where
  pub id : String
  pub rank : ℕ
  pub ticket_id : String
  pub ticket_public_id : String
  pub owner_public_ref : String
  pub snapshot_entry_id : String
  pub random_position : ℤ

pub record FinalizeWinnerSelectionResult : Type 0 where
  pub draw_id : String
  pub draw_public_id : List ℕ
  pub status : DrawStatus
  pub randomness_evidence_id : String
  pub snapshot_id : String
  pub snapshot_hash : Bytes
  pub merkle_root : Bytes
  pub completed_at : ℕ
  pub already_completed : Bool
  pub winners : List SelectedWinner

-- `snapshot: true`
abbrev pub snapshot_of : WinnerTables → String → Option LockedSnapshotRow
snapshot_of db draw_id = find (of_draw draw_id) db.snapshots

-- `randomnessRecords[0]`: the last verified attempt.
unfoldable pub randomness_of : WinnerTables → String → Option RandomnessEvidence
randomness_of db draw_id = head? (
    order_desc (λ r. r.attempt_number)
      (filter (λ r. str_eq r.draw_id draw_id && same_randomness_status r.status verified)
        db.randomness))

-- `winners: { orderBy: { rank: 'asc' } }`
abbrev pub winners_of : String → List DrawWinner → List DrawWinner
winners_of draw_id winners = order_asc (λ w. w.rank) (filter (winner_of_draw draw_id) winners)

-- A winner with its snapshot entry, which is there by a foreign key.
unfoldable pub serialize_winner : List SnapshotEntry → DrawWinner → Outcome SelectedWinner
serialize_winner entries w =
    or_throw (find (λ e. str_eq e.id w.snapshot_entry_id) entries) (plain_error "TypeError")
    >>= λ e. ok (record {
      id = w.id;
      rank = w.rank;
      ticket_id = w.ticket_id;
      ticket_public_id = e.ticket_public_id;
      owner_public_ref = e.owner_public_ref;
      snapshot_entry_id = w.snapshot_entry_id;
      random_position = w.random_position;
    })

unfoldable pub serialize_winners :
    List SnapshotEntry → List DrawWinner → Outcome (List SelectedWinner)
serialize_winners entries [] = ok []
serialize_winners entries (w ∷ ws) = do
  s ← serialize_winner entries w
  rest ← serialize_winners entries ws
  ok (s ∷ rest)

abbrev missing : Exception
missing = conflict "Completed draw is missing winner-selection or prize-recognition evidence"

unfoldable pub resolve_existing_result :
    WinnerTables → LotteryDraw → Outcome FinalizeWinnerSelectionResult
unfolding randomness_of serialize_winners
resolve_existing_result db draw = do
  completed_at ← or_throw draw.completed_at missing
  snapshot ← or_throw (snapshot_of db draw.id) missing
  snapshot_hash ← or_throw (present snapshot.snapshot_hash) missing
  merkle_root ← or_throw (present snapshot.merkle_root) missing
  randomness ← or_throw (randomness_of db draw.id) missing
  let winners = winners_of draw.id db.winners
  let prizes = prizes_of draw.id db.prizes
  throw_if (not (length winners == draw.winner_count)) missing
  throw_if (not (length prizes == draw.winner_count)) missing
  assert_prize_evidence prizes draw.winner_count none
  shown ← serialize_winners db.entries winners
  ok (record {
    draw_id = draw.id;
    draw_public_id = draw.public_id;
    status = if same_status draw.status published then published else completed;
    randomness_evidence_id = randomness.id;
    snapshot_id = snapshot.id;
    snapshot_hash = snapshot_hash;
    merkle_root = merkle_root;
    completed_at = completed_at;
    already_completed = true;
    winners = shown;
  })

abbrev pub is_complete : LotteryDraw → Bool
is_complete d = same_status d.status completed || same_status d.status published

unfoldable pub find_completed_result :
    WinnerTables → String → Outcome (Option FinalizeWinnerSelectionResult)
find_completed_result db draw_id =
    if_found (find (has_id draw_id) db.draws)
      (λ draw.
        if is_complete draw
        then resolve_existing_result db draw >>= (λ r. ok (some r))
        else ok none)
      (ok none)
