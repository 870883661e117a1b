-- ===== src/Winners/Completion.antt =====
-- A call of `finalize` of winner-selection.service.ts that completes a draw, taken apart.
use amazingchance.Base.{
  ltb, String, ◌≡◌, sym, ap, ◌∙◌, inl, inr, true, false, not, some, List, length, find, ◌==◌,
  Bool-cases, arith, ok, ok-injective, ok_pair, >>=-eq-ok, throw_if, throw_if-eq-ok, or_throw,
  or_throw-eq-ok,
}
use amazingchance.Draws.Types.{LotteryDraw, completed, has_id}
use amazingchance.Draws.Transitions.{has_status}
use amazingchance.Prizes.Distribution.{
  CalculatedPrize, ResolvedPrizeDistributionRule, resolve, calculate,
}
use amazingchance.Prizes.Pool.{PrizePoolInput, ResolvedPrizePool, resolve_pool}
use amazingchance.Winners.Tables.{SnapshotEntry, DrawWinner, WinnerTables}
use amazingchance.Winners.Recognition.{
  Generated, Books, recognize_prizes, prizes_of, assert_prize_evidence,
}
use amazingchance.Winners.Existing.{
  SelectedWinner, FinalizeWinnerSelectionResult, winners_of, serialize_winners, is_complete,
  resolve_existing_result,
}
use amazingchance.Winners.Evidence.{Evidence, check_evidence, select_entries}
use amazingchance.Winners.Finalizer.{
  selecting, create_winners, claim_state, complete_draw, award, select_and_award, start_selection,
  finalize_in_transaction,
}

abbrev pub pool_input : LotteryDraw → PrizePoolInput
pool_input draw = record {
  draw_id = draw.id;
  draw_type = draw.type;
  participation_year = draw.participation_year;
  currency = draw.currency;
}

-- The parts of `award`.
pub record IsAward (g : Generated) (draw : LotteryDraw) (db u : WinnerTables) : Type 0 where
  pub pool : ResolvedPrizePool
  pub rule : ResolvedPrizeDistributionRule
  pub calculated : List CalculatedPrize
  pub books : Books
  pub all_there : length (winners_of draw.id db.winners) ≡ draw.winner_count
  pub pooled : resolve_pool db.draws db.ledger (pool_input draw) ≡ ok pool
  pub ruled : resolve db.rules draw.type (some draw.scheduled_draw_at) draw.winner_count ≡ ok rule
  pub divided : calculate pool.amount_minor rule ≡ ok calculated
  pub booked :
      recognize_prizes g draw pool rule db.tickets
        (winners_of draw.id db.winners)
        calculated
        (db.prizes, db.ledger)
      ≡ ok books
  pub evident :
      assert_prize_evidence (prizes_of draw.id books.0) draw.winner_count (some pool.amount_minor)
      ≡ ok tt
  pub made : u ≡ record db { prizes = books.0; ledger = books.1 }

pub award-parts :
    (g : Generated) (draw : LotteryDraw) (db : WinnerTables) {u : WinnerTables}
    → award g draw db ≡ ok u
    → IsAward g draw db u
unfolding award
award-parts g draw db h =
    let winners = winners_of draw.id db.winners in
    let (_, a, h0) = >>=-eq-ok (throw_if (not (length winners == draw.winner_count)) _) _ h in
    let (pool, b, h1) = >>=-eq-ok (resolve_pool db.draws db.ledger (pool_input draw)) _ h0 in
    let (rule, c, h2) =
      >>=-eq-ok (resolve db.rules draw.type (some draw.scheduled_draw_at) draw.winner_count) _ h1 in
    let (calculated, d, h3) = >>=-eq-ok (calculate pool.amount_minor rule) _ h2 in
    let (books, e, h4) =
      >>=-eq-ok
        (recognize_prizes g draw pool rule db.tickets winners calculated (db.prizes, db.ledger)) _
        h3 in
    let (_, f, h5) =
      >>=-eq-ok
        (assert_prize_evidence (prizes_of draw.id books.0) draw.winner_count
          (some pool.amount_minor))
        _ h4 in
    let counted = throw_if-eq-ok (not (length winners == draw.winner_count)) _ a in
    record {
      pool = pool;
      rule = rule;
      calculated = calculated;
      books = books;
      all_there = ground arith;
      pooled = b;
      ruled = c;
      divided = d;
      booked = e;
      evident = f;
      made = sym (ok-injective h5);
    }

-- The parts of `select_and_award`.
pub record IsCompletion (g : Generated) (draw : LotteryDraw) (db u : WinnerTables)
    (r : FinalizeWinnerSelectionResult) : Type 0 where
  pub evidence : Evidence
  pub entries : List SnapshotEntry
  pub winners : List DrawWinner
  pub claimed : List LotteryDraw
  pub awarded : WinnerTables
  pub draws : List LotteryDraw
  pub shown : List SelectedWinner
  pub checked : check_evidence db draw ≡ ok evidence
  pub selected : select_entries db draw evidence ≡ ok entries
  pub claims : claim_state g.now draw db.draws ≡ ok claimed
  pub creates : create_winners g draw.id 0 entries db.winners ≡ ok winners
  pub award_of : IsAward g draw (record db { draws = claimed; winners = winners }) awarded
  pub completes : complete_draw g.now draw awarded.draws ≡ ok draws
  pub shows : serialize_winners db.entries (winners_of draw.id winners) ≡ ok shown
  pub tables : u ≡ record awarded { draws = draws }
  pub result : r ≡ record {
    draw_id = draw.id;
    draw_public_id = draw.public_id;
    status = completed;
    randomness_evidence_id = evidence.randomness.id;
    snapshot_id = evidence.snapshot.id;
    snapshot_hash = evidence.snapshot_hash;
    merkle_root = evidence.merkle_root;
    completed_at = g.now;
    already_completed = false;
    winners = shown;
  }

pub select_and_award-parts :
    (g : Generated) (draw : LotteryDraw) (db : WinnerTables) {u : WinnerTables}
    {r : FinalizeWinnerSelectionResult}
    → select_and_award g draw db ≡ ok (u, r)
    → IsCompletion g draw db u r
unfolding select_and_award
select_and_award-parts g draw db h =
    let (evidence, a, h0) = >>=-eq-ok (check_evidence db draw) _ h in
    let (entries, b, h1) = >>=-eq-ok (select_entries db draw evidence) _ h0 in
    let (claimed, c, h2) = >>=-eq-ok (claim_state g.now draw db.draws) _ h1 in
    let (winners, d, h3) = >>=-eq-ok (create_winners g draw.id 0 entries db.winners) _ h2 in
    let (awarded, e, h4) =
      >>=-eq-ok (award g draw (record db { draws = claimed; winners = winners })) _ h3 in
    let (draws, f, h5) = >>=-eq-ok (complete_draw g.now draw awarded.draws) _ h4 in
    let (shown, k, h6) =
      >>=-eq-ok (serialize_winners db.entries (winners_of draw.id winners)) _ h5 in
    let done = ok_pair h6 in
    record {
      evidence = evidence;
      entries = entries;
      winners = winners;
      claimed = claimed;
      awarded = awarded;
      draws = draws;
      shown = shown;
      checked = a;
      selected = b;
      claims = c;
      creates = d;
      award_of = award-parts g draw (record db { draws = claimed; winners = winners }) e;
      completes = f;
      shows = k;
      tables = sym done.0;
      result = sym done.1;
    }

-- What a call found and did that returned a result: a draw that was complete, or one it completed.
pub data Finalizes (g : Generated) (draw_id : String) (db u : WinnerTables)
    (r : FinalizeWinnerSelectionResult) : Type 0 where
  found_complete :
      (draw : LotteryDraw)
      → find (has_id draw_id) db.draws ≡ some draw
      → is_complete draw ≡ true
      → resolve_existing_result db draw ≡ ok r
      → u ≡ db
      → Finalizes g draw_id db u r
  completes_now :
      (draw : LotteryDraw)
      → find (has_id draw_id) db.draws ≡ some draw
      → is_complete draw ≡ false
      → length (prizes_of draw.id db.prizes) ≡ 0
      → has_status selecting draw ≡ true
      → IsCompletion g draw db u r
      → Finalizes g draw_id db u r

pub finalize_in_transaction-cases :
    (g : Generated) (draw_id : String) (db : WinnerTables) {u : WinnerTables}
    {r : FinalizeWinnerSelectionResult}
    → finalize_in_transaction g draw_id db ≡ ok (u, r)
    → Finalizes g draw_id db u r
unfolding finalize_in_transaction start_selection
finalize_in_transaction-cases g draw_id db {u} {r} h =
    let (draw, a, h0) = >>=-eq-ok (or_throw (find (has_id draw_id) db.draws) _) _ h in
    let there = or_throw-eq-ok (find (has_id draw_id) db.draws) _ a in
    elim (Bool-cases (is_complete draw)) [
      | inl complete ↦
          let (r', b, h1) = >>=-eq-ok (resolve_existing_result db draw) _ (rw complete at h0) in
          let done = ok_pair h1 in
          found_complete draw there complete (b ∙ ap ok done.1) (sym done.0)
      | inr incomplete ↦
          let prizes = prizes_of draw.id db.prizes in
          let (_, b, h1) = >>=-eq-ok (throw_if (ltb 0 (length prizes)) _) _ (rw incomplete at h0) in
          let (_, c, h2) = >>=-eq-ok (throw_if (not (has_status selecting draw)) _) _ h1 in
          let none_yet = throw_if-eq-ok (ltb 0 (length prizes)) _ b in
          let in_status = throw_if-eq-ok (not (has_status selecting draw)) _ c in
          completes_now draw there incomplete (ground arith) (ground arith)
            (select_and_award-parts g draw db h2)
    ]
