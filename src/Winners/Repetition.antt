-- ===== src/Winners/Repetition.antt =====
-- A second call of `finalize` of winner-selection.service.ts behind one that returned.
use amazingchance.Base.{
  ℕ, ℤ, pos, ltb, ◌==ℤ◌, ◌||◌, String, ◌≡◌, refl, sym, ap, subst, ◌∙◌, Bool, true, not, some, none,
  List, ◌∷◌, [], length, find, find-update_where, count_where, str_eq_refl, ◌==◌, arith, ok,
  ok-injective, >>=-eq-ok, throw_if, throw_if-eq-ok, or_throw, or_throw-eq-ok,
}
use amazingchance.Draws.Types.{LotteryDraw, winner_selection_pending, has_id}
use amazingchance.Draws.Transitions.{at_status, with_status, has_status}
use amazingchance.Snapshots.Finalizer.{is_finalized, present}
use amazingchance.Winners.Tables.{Prize, WinnerTables}
use amazingchance.Winners.Recognition.{Generated, prizes_of, valid_ranks, assert_prize_evidence}
use amazingchance.Winners.Existing.{
  FinalizeWinnerSelectionResult, snapshot_of, randomness_of, winners_of, is_complete,
  resolve_existing_result,
}
use amazingchance.Winners.Evidence.{Evidence, verified_positions, check_evidence}
use amazingchance.Winners.Finalizer.{
  selecting, claim_state, complete_row, complete_draw, finalize_in_transaction,
}
use amazingchance.Winners.Completion.{
  IsCompletion, found_complete, completes_now, finalize_in_transaction-cases,
}
use amazingchance.Winners.Results.{existing_already}

-- The result of the earlier call, as a later one returns it.
abbrev pub as_before : FinalizeWinnerSelectionResult → FinalizeWinnerSelectionResult
as_before r = record r { already_completed = true }

-- What `check_evidence` found.
pub record IsChecked (db : WinnerTables) (draw : LotteryDraw) (e : Evidence) : Type 0 where
  pub snapshot : snapshot_of db draw.id ≡ some e.snapshot
  pub hash : present e.snapshot.snapshot_hash ≡ some e.snapshot_hash
  pub root : present e.snapshot.merkle_root ≡ some e.merkle_root
  pub randomness : randomness_of db draw.id ≡ some e.randomness

check_evidence-IsChecked :
    (db : WinnerTables) (draw : LotteryDraw) {e : Evidence}
    → check_evidence db draw ≡ ok e
    → IsChecked db draw e
unfolding check_evidence
check_evidence-IsChecked db draw h =
    let (s, a, h1) = >>=-eq-ok (or_throw (snapshot_of db draw.id) _) _ h in
    let (_, _, h2) = >>=-eq-ok (throw_if (not (is_finalized s.status)) _) _ h1 in
    let (hash, b, h3) = >>=-eq-ok (or_throw (present s.snapshot_hash) _) _ h2 in
    let (root, c, h4) = >>=-eq-ok (or_throw (present s.merkle_root) _) _ h3 in
    let (_, _, h5) = >>=-eq-ok (or_throw s.finalized_at _) _ h4 in
    let (_, _, h6) = >>=-eq-ok (throw_if (ltb s.ticket_count 1) _) _ h5 in
    let (r, d, h7) = >>=-eq-ok (or_throw (randomness_of db draw.id) _) _ h6 in
    let (_, _, h8) = >>=-eq-ok (verified_positions r) _ h7 in
    let (_, _, h9) =
      >>=-eq-ok
        (throw_if (not (r.requested_min ==ℤ pos 1) || not (r.requested_max ==ℤ pos s.ticket_count))
          _)
        _ h8 in
    let (_, _, h10) = >>=-eq-ok (throw_if (ltb r.requested_count draw.winner_count) _) _ h9 in
    subst (IsChecked db draw) (ok-injective h10) (record {
      snapshot = or_throw-eq-ok (snapshot_of db draw.id) _ a;
      hash = or_throw-eq-ok (present s.snapshot_hash) _ b;
      root = or_throw-eq-ok (present s.merkle_root) _ c;
      randomness = or_throw-eq-ok (randomness_of db draw.id) _ d;
    })

-- Evidence that was checked against a pool passes without one.
evidence_without_pool :
    (prizes : List Prize) (n : ℕ) (pool : ℤ)
    → assert_prize_evidence prizes n (some pool) ≡ ok tt
    → ((length prizes == n) ≡ true) × (assert_prize_evidence prizes n none ≡ ok tt)
unfolding assert_prize_evidence
evidence_without_pool prizes n pool h =
    let (_, a, h1) = >>=-eq-ok (throw_if (not (length prizes == n)) _) _ h in
    let (_, b, h2) = >>=-eq-ok (throw_if (not (valid_ranks 0 prizes)) _) _ h1 in
    let counted = throw_if-eq-ok (not (length prizes == n)) _ a in
    let valid = throw_if-eq-ok (not (valid_ranks 0 prizes)) _ b in
    (ground arith, rw (counted, valid) refl)

-- The draw of the table behind the two updates.
completed_row : ℕ → LotteryDraw → LotteryDraw
completed_row now draw = complete_row now (with_status now winner_selection_pending draw)

draw_after :
    (now : ℕ) (draw_id : String) (draw : LotteryDraw) (draws : List LotteryDraw)
    {claimed done : List LotteryDraw}
    → find (has_id draw_id) draws ≡ some draw
    → has_status selecting draw ≡ true
    → claim_state now draw draws ≡ ok claimed
    → complete_draw now draw claimed ≡ ok done
    → find (has_id draw_id) done ≡ some (completed_row now draw)
unfolding claim_state complete_draw completed_row
draw_after now draw_id draw draws {claimed} {done} there in_status claims completes =
    let (_, _, c) =
      >>=-eq-ok (throw_if (not (count_where (at_status draw.id selecting) draws == 1)) _) _
        claims in
    let (_, _, d) =
      >>=-eq-ok
        (throw_if
          (not (count_where (at_status draw.id (winner_selection_pending ∷ [])) claimed == 1)) _)
        _ completes in
    let pending = with_status now winner_selection_pending in
    let own = str_eq_refl draw.id in
    let first =
      find-update_where (has_id draw_id) (at_status draw.id selecting) pending draws (λ x. refl)
        there in
    let taken : find (has_id draw_id) claimed ≡ some (pending draw) =
      ap (find (has_id draw_id)) (sym (ok-injective c)) ∙ first ∙ rw (own, in_status) refl in
    let second =
      find-update_where (has_id draw_id) (at_status draw.id (winner_selection_pending ∷ []))
        (complete_row now) claimed (λ x. refl) taken in
    ap (find (has_id draw_id)) (sym (ok-injective d)) ∙ second ∙ rw own refl

module _ (g : Generated) (draw_id : String) (db : WinnerTables) where
  completed_again :
      (later : Generated) (draw : LotteryDraw) {u : WinnerTables}
      {r : FinalizeWinnerSelectionResult}
      → find (has_id draw_id) db.draws ≡ some draw
      → has_status selecting draw ≡ true
      → IsCompletion g draw db u r
      → finalize_in_transaction later draw_id u ≡ ok (u, as_before r)
  unfolding finalize_in_transaction resolve_existing_result completed_row randomness_of
  completed_again later draw {u} {r} there in_status c =
      let e = check_evidence-IsChecked db draw c.checked in
      let a = c.award_of in
      let prizes = prizes_of draw.id a.books.0 in
      let (counted, evident) =
        evidence_without_pool prizes draw.winner_count a.pool.amount_minor a.evident in
      let row = draw_after g.now draw_id draw db.draws there in_status c.claims (
        subst (λ (x : WinnerTables). complete_draw g.now draw x.draws ≡ ok c.draws) a.made
          c.completes) in
      let all_there : (length (winners_of draw.id c.winners) == draw.winner_count) ≡ true =
        ground (arith, a.all_there) in
      let tables = c.tables ∙ ap (λ (x : WinnerTables). record x { draws = c.draws }) a.made in
      rw (tables, c.result)
        (rw (row, e.snapshot, e.hash, e.root, e.randomness, all_there, counted, evident, c.shows)
          refl)

  found_again :
      (later : Generated) (draw : LotteryDraw) {u : WinnerTables}
      {r : FinalizeWinnerSelectionResult}
      → find (has_id draw_id) db.draws ≡ some draw
      → is_complete draw ≡ true
      → resolve_existing_result db draw ≡ ok r
      → u ≡ db
      → finalize_in_transaction later draw_id u ≡ ok (u, as_before r)
  unfolding finalize_in_transaction
  found_again later draw {u} {r} there complete resolved same = rw same (
      rw (there, complete, resolved)
        (ap (λ (b : Bool). ok (db, record r { already_completed = b }))
          (existing_already db draw resolved)))

  -- A call behind one that returned changes nothing and returns the same result, as completed already.
  pub finalize_in_transaction-again :
      (later : Generated) {u : WinnerTables} {r : FinalizeWinnerSelectionResult}
      → finalize_in_transaction g draw_id db ≡ ok (u, r)
      → finalize_in_transaction later draw_id u ≡ ok (u, as_before r)
  finalize_in_transaction-again later {u} {r} h =
      elim (finalize_in_transaction-cases g draw_id db h) [
        | completes_now draw there incomplete none_yet in_status c ↦
            completed_again later draw there in_status c
        | found_complete draw there complete resolved same ↦
            found_again later draw there complete resolved same
      ]
