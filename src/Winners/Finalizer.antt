-- ===== src/Winners/Finalizer.antt =====
-- WinnerSelectionService of winner-selection.service.ts: `finalizeInTransaction` from the claim of the
-- draw's state on, and `finalize`.
use amazingchance.Base.{
  ℕ, ◌+◌, ◌==ℤ◌, String, Bool, false, not, ◌&&◌, ◌||◌, Option, some, List, [], ◌∷◌, length, find,
  any, update_where, count_where, ltb, str_eq, ◌==◌, if◌then◌else◌, Outcome, ok, err, conflict,
  not_found, plain_error, Exception, ◌>>=◌, ◌>>◌, throw_if, or_throw, if_found,
}
use amazingchance.Draws.Types.{
  LotteryDraw, DrawStatus, randomness_verified, winner_selection_pending, completed, has_id,
}
use amazingchance.Draws.Transitions.{at_status, with_status, has_status}
use amazingchance.Prizes.Distribution.{resolve, calculate}
use amazingchance.Prizes.Pool.{resolve_pool}
use amazingchance.Winners.Tables.{SnapshotEntry, DrawWinner, WinnerTables}
use amazingchance.Winners.Recognition.{
  Generated, recognize_prizes, prizes_of, assert_prize_evidence,
}
use amazingchance.Winners.Existing.{
  FinalizeWinnerSelectionResult, winners_of, serialize_winners, is_complete,
  resolve_existing_result, find_completed_result,
}
use amazingchance.Winners.Evidence.{check_evidence, select_entries}

-- The keys of `draw_winners`: the id, the entry, and the rank, ticket or position in a draw.
abbrev pub winner_clashes : DrawWinner → DrawWinner → Bool
winner_clashes w x =
    str_eq w.id x.id
    || str_eq w.snapshot_entry_id x.snapshot_entry_id
    || (str_eq w.draw_id x.draw_id
        && (w.rank == x.rank
            || str_eq w.ticket_id x.ticket_id
            || w.random_position ==ℤ x.random_position))

abbrev pub winner_row : Generated → String → ℕ → SnapshotEntry → DrawWinner
winner_row g draw_id rank e = record {
  id = g.winner_id rank;
  draw_id = draw_id;
  ticket_id = e.ticket_id;
  snapshot_entry_id = e.id;
  rank = rank;
  random_position = e.position;
}

-- `drawWinner.createMany`, of entries from an index on.
unfoldable pub create_winners :
    Generated → String → ℕ → List SnapshotEntry → List DrawWinner → Outcome (List DrawWinner)
create_winners g draw_id index [] winners = ok winners
create_winners g draw_id index (e ∷ es) winners = do
  throw_if (any (winner_clashes (winner_row g draw_id (index + 1) e)) winners) (plain_error "P2002")
  create_winners g draw_id (index + 1) es (winner_row g draw_id (index + 1) e ∷ winners)

abbrev pub selecting : List DrawStatus
selecting = randomness_verified ∷ winner_selection_pending ∷ []

-- `lotteryDraw.updateMany`, which must update one row.
unfoldable pub claim_state : ℕ → LotteryDraw → List LotteryDraw → Outcome (List LotteryDraw)
claim_state now draw draws = do
  throw_if (not (count_where (at_status draw.id selecting) draws == 1))
      (conflict "Draw state changed while winner selection was starting")
  ok (update_where (at_status draw.id selecting) (with_status now winner_selection_pending) draws)

abbrev pub complete_row : ℕ → LotteryDraw → LotteryDraw
complete_row now d = record d { status = completed; completed_at = some now; updated_at = now }

unfoldable pub complete_draw : ℕ → LotteryDraw → List LotteryDraw → Outcome (List LotteryDraw)
complete_draw now draw draws = do
  throw_if (not (count_where (at_status draw.id (winner_selection_pending ∷ [])) draws == 1))
      (conflict "Draw state changed while winner selection was completing")
  ok (update_where (at_status draw.id (winner_selection_pending ∷ [])) (complete_row now) draws)

-- The pool, the rule and the prizes of the draw, in the ledger and in `prizes`.
unfoldable pub award : Generated → LotteryDraw → WinnerTables → Outcome WinnerTables
award g draw db = do
  let winners = winners_of draw.id db.winners
  throw_if (not (length winners == draw.winner_count))
      (conflict "Winner creation did not produce the configured winner count")
  pool ← resolve_pool db.draws db.ledger (record {
    draw_id = draw.id;
    draw_type = draw.type;
    participation_year = draw.participation_year;
    currency = draw.currency;
  })
  rule ← resolve db.rules draw.type (some draw.scheduled_draw_at) draw.winner_count
  calculated ← calculate pool.amount_minor rule
  books ← recognize_prizes g draw pool rule db.tickets winners calculated (db.prizes, db.ledger)
  assert_prize_evidence (prizes_of draw.id books.0) draw.winner_count (some pool.amount_minor)
  ok (record db { prizes = books.0; ledger = books.1 })

-- From the checked evidence to the completed draw.
unfoldable pub select_and_award :
    Generated → LotteryDraw → WinnerTables → Outcome (WinnerTables × FinalizeWinnerSelectionResult)
unfolding check_evidence select_entries claim_state create_winners award complete_draw
    serialize_winners
select_and_award g draw db = do
  evidence ← check_evidence db draw
  entries ← select_entries db draw evidence
  claimed ← claim_state g.now draw db.draws
  winners ← create_winners g draw.id 0 entries db.winners
  awarded ← award g draw (record db { draws = claimed; winners = winners })
  draws ← complete_draw g.now draw awarded.draws
  shown ← serialize_winners db.entries (winners_of draw.id winners)
  ok (
    record awarded { draws = draws },
    record {
      draw_id = draw.id;
      draw_public_id = draw.public_id;
      status = completed;
      randomness_evidence_id = evidence.randomness.id;
      snapshot_id = evidence.snapshot.id;
      snapshot_hash = evidence.snapshot_hash;
      merkle_root = evidence.merkle_root;
      completed_at = g.now;
      already_completed = false;
      winners = shown;
    },
  )

-- The guards of a draw that is not complete.
unfoldable pub start_selection :
    Generated → LotteryDraw → WinnerTables → Outcome (WinnerTables × FinalizeWinnerSelectionResult)
unfolding select_and_award
start_selection g draw db = do
  throw_if (ltb 0 (length (prizes_of draw.id db.prizes)))
      (conflict "Incomplete draw already contains recognized prizes")
  throw_if (not (has_status selecting draw))
      (conflict "Winner selection cannot run for a draw in its status")
  select_and_award g draw db

unfoldable pub finalize_in_transaction :
    Generated → String → WinnerTables → Outcome (WinnerTables × FinalizeWinnerSelectionResult)
unfolding start_selection resolve_existing_result
finalize_in_transaction g draw_id db = do
  draw ← or_throw (find (has_id draw_id) db.draws) (not_found "Lottery draw not found")
  let existing = resolve_existing_result db draw >>= λ r. ok (db, r)
  let fresh = start_selection g draw db
  if is_complete draw then existing else fresh

-- `isConcurrentSelectionError`
unfoldable pub is_concurrent_selection_error : Exception → Bool
is_concurrent_selection_error (plain_error code) = str_eq code "P2002" || str_eq code "P2034"
is_concurrent_selection_error _ = false

-- The rethrown error, unless another call has completed the draw.
unfoldable pub after_conflict :
    String → WinnerTables → Exception → Outcome (WinnerTables × FinalizeWinnerSelectionResult)
unfolding find_completed_result
after_conflict draw_id db e =
    find_completed_result db draw_id >>= λ found. if_found found (λ r. ok (db, r)) (err e)

-- `finalize`. `commit` is the error of a commit that fails to serialize, if it does, and `later` the
-- tables that are met behind it.
unfoldable pub finalize :
    Generated
    → String
    → Option Exception
    → WinnerTables
    → WinnerTables
    → Outcome (WinnerTables × FinalizeWinnerSelectionResult)
unfolding finalize_in_transaction after_conflict is_concurrent_selection_error
finalize g draw_id commit db later =
    elim (if_found commit (λ e. err e) (finalize_in_transaction g draw_id db)) [
      | ok done ↦ ok done
      | err e ↦ if is_concurrent_selection_error e then after_conflict draw_id later e else err e
    ]
