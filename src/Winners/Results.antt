-- ===== src/Winners/Results.antt =====
-- The winners that `finalize` of winner-selection.service.ts returns.
use amazingchance.Base.{
  ℕ, ◌+◌, ℤ, String, ◌≡◌, refl, sym, ap, ap₂, subst, ◌∙◌, true, false, not, some, none, List, [],
  ◌∷◌, map, length, length-map, find, str_eq, ◌==◌, ok, ok-injective, >>=-eq-ok, throw_if, or_throw,
}
use amazingchance.Draws.Types.{LotteryDraw, has_id}
use amazingchance.Winners.Selection.{
  Value, WinnerPositionSelectionInput, normalize_all, select_winner_positions,
}
use amazingchance.Winners.Order.{IsSelection, select_winner_positions-IsSelection}
use amazingchance.Winners.Tables.{SnapshotEntry, DrawWinner, WinnerTables}
use amazingchance.Winners.Recognition.{Generated, prizes_of, assert_prize_evidence}
use amazingchance.Snapshots.Finalizer.{present}
use amazingchance.Winners.Existing.{
  SelectedWinner, FinalizeWinnerSelectionResult, winners_of, serialize_winner, serialize_winners,
  resolve_existing_result, snapshot_of, randomness_of,
}
use amazingchance.Winners.Evidence.{Evidence, check_evidence, entries_at, select_entries}
use amazingchance.Winners.Finalizer.{finalize_in_transaction}
use amazingchance.Winners.Completion.{
  IsCompletion, found_complete, completes_now, finalize_in_transaction-cases,
}
use amazingchance.Winners.Ranking.{
  ranked, create_winners-all, positions_ranked, ordered_entries_positions,
}

-- The ranks count up from an index.
abbrev pub AreRanked : ℕ → List ℕ → Type 0
AreRanked index [] = Unit {0}
AreRanked index (r ∷ rs) = (r ≡ index + 1) × AreRanked (index + 1) rs

ranked-AreRanked :
    (g : Generated) (draw_id : String) (index : ℕ) (es : List SnapshotEntry)
    → AreRanked index (map (λ w. w.rank) (ranked g draw_id index es))
ranked-AreRanked g draw_id index [] = tt
ranked-AreRanked g draw_id index (e ∷ es) = (refl, ranked-AreRanked g draw_id (index + 1) es)

-- What is shown of the winners.
serialize_winners_lem :
    (entries : List SnapshotEntry) (ws : List DrawWinner) {shown : List SelectedWinner}
    → serialize_winners entries ws ≡ ok shown
    → (map (λ s. s.rank) shown ≡ map (λ w. w.rank) ws)
      × (map (λ s. s.random_position) shown ≡ map (λ w. w.random_position) ws)
unfolding serialize_winners serialize_winner
serialize_winners_lem entries [] h =
    let e = sym (ok-injective h) in (ap (map (λ s. s.rank)) e, ap (map (λ s. s.random_position)) e)
serialize_winners_lem entries (w ∷ ws) h =
    let (s, a, h0) = >>=-eq-ok (serialize_winner entries w) _ h in
    let (rest, b, h1) = >>=-eq-ok (serialize_winners entries ws) _ h0 in
    let (entry, _, made) =
      >>=-eq-ok (or_throw (find (λ e. str_eq e.id w.snapshot_entry_id) entries) _) _ a in
    let e = sym (ok-injective h1) in
    let row = sym (ok-injective made) in
    let ih = serialize_winners_lem entries ws b in
    (
      ap (map (λ s. s.rank)) e ∙ ap₂ ◌∷◌ (ap (λ s. s.rank) row) ih.0,
      ap (map (λ s. s.random_position)) e ∙ ap₂ ◌∷◌ (ap (λ s. s.random_position) row) ih.1,
    )

module _ (db : WinnerTables) (draw : LotteryDraw) (evidence : Evidence) where
  abbrev selection_input : WinnerPositionSelectionInput
  selection_input = record {
    random_positions = evidence.values;
    winner_count = draw.winner_count;
    snapshot_entry_count = evidence.snapshot.ticket_count;
  }

  select_entries_lem :
      {entries : List SnapshotEntry}
      → select_entries db draw evidence ≡ ok entries
      → (values : List Value) × (normalized : List ℤ) × (evidence.values ≡ some values)
        × (normalize_all values ≡ ok normalized)
        × IsSelection draw.winner_count evidence.snapshot.ticket_count normalized
            (map (λ e. e.position) entries)
  unfolding select_entries
  select_entries_lem {entries} h =
      let (selection, a, h0) = >>=-eq-ok (select_winner_positions selection_input) _ h in
      let found = entries_at evidence.snapshot.id selection.positions db.entries in
      let (_, _, h1) =
        >>=-eq-ok (throw_if (not (length found == length selection.positions)) _) _ h0 in
      let (values, normalized, is_array, numbers, selects) =
        select_winner_positions-IsSelection selection_input a in
      (
        values,
        normalized,
        is_array,
        numbers,
        subst (IsSelection draw.winner_count evidence.snapshot.ticket_count normalized)
            (sym (ordered_entries_positions found selection.positions h1)) selects,
      )

-- The winners of a call that completes a draw: they stand at positions that the randomness supplied,
-- in its order, and their ranks count from 1.
pub record HasWinners (draw : LotteryDraw) (evidence : Evidence) (shown : List SelectedWinner)
    : Type 0 where
  pub values : List Value
  pub normalized : List ℤ
  pub supplied : evidence.values ≡ some values
  pub numbers : normalize_all values ≡ ok normalized
  pub selects :
      IsSelection draw.winner_count evidence.snapshot.ticket_count normalized
        (map (λ s. s.random_position) shown)
  pub in_rank : AreRanked 0 (map (λ s. s.rank) shown)

IsCompletion-HasWinners :
    (g : Generated) (draw : LotteryDraw) (db : WinnerTables) {u : WinnerTables}
    {r : FinalizeWinnerSelectionResult} (c : IsCompletion g draw db u r)
    → HasWinners draw c.evidence r.winners
IsCompletion-HasWinners g draw db {u} {r} c =
    let (values, normalized, is_array, numbers, selects) =
      select_entries_lem db draw c.evidence c.selected in
    let counted : length (winners_of draw.id c.winners) ≡ length c.entries =
      c.award_of.all_there
      ∙ sym selects.length_eq
      ∙ length-map (λ (e : SnapshotEntry). e.position) c.entries in
    let rows = create_winners-all g draw.id c.entries _ c.creates counted in
    let shown = serialize_winners_lem db.entries (winners_of draw.id c.winners) c.shows in
    let is_shown = ap (λ (x : FinalizeWinnerSelectionResult). x.winners) c.result in
    record {
      values = values;
      normalized = normalized;
      supplied = is_array;
      numbers = numbers;
      selects =
          subst (IsSelection draw.winner_count c.evidence.snapshot.ticket_count normalized)
            (sym (
              ap (map (λ s. s.random_position)) is_shown
              ∙ shown.1
              ∙ ap (map (λ w. w.random_position)) rows
              ∙ positions_ranked g draw.id 0 c.entries))
            selects;
      in_rank =
          subst (AreRanked 0)
            (sym (ap (map (λ s. s.rank)) is_shown ∙ shown.0 ∙ ap (map (λ w. w.rank)) rows))
            (ranked-AreRanked g draw.id 0 c.entries);
    }

pub existing_already :
    (db : WinnerTables) (draw : LotteryDraw) {r : FinalizeWinnerSelectionResult}
    → resolve_existing_result db draw ≡ ok r
    → r.already_completed ≡ true
unfolding resolve_existing_result
existing_already db draw h =
    let winners = winners_of draw.id db.winners in
    let prizes = prizes_of draw.id db.prizes in
    let (_, _, h1) = >>=-eq-ok (or_throw draw.completed_at _) _ h in
    let (snapshot, _, h2) = >>=-eq-ok (or_throw (snapshot_of db draw.id) _) _ h1 in
    let (_, _, h3) = >>=-eq-ok (or_throw (present snapshot.snapshot_hash) _) _ h2 in
    let (_, _, h4) = >>=-eq-ok (or_throw (present snapshot.merkle_root) _) _ h3 in
    let (_, _, h5) = >>=-eq-ok (or_throw (randomness_of db draw.id) _) _ h4 in
    let (_, _, h6) = >>=-eq-ok (throw_if (not (length winners == draw.winner_count)) _) _ h5 in
    let (_, _, h7) = >>=-eq-ok (throw_if (not (length prizes == draw.winner_count)) _) _ h6 in
    let (_, _, h8) = >>=-eq-ok (assert_prize_evidence prizes draw.winner_count none) _ h7 in
    let (_, _, h9) = >>=-eq-ok (serialize_winners db.entries winners) _ h8 in
    ap (λ r. r.already_completed) (sym (ok-injective h9))

-- A call that completes a draw returns as many winners as the draw has, ranked from 1 on, at the
-- positions that the selection finds in the draw's verified randomness, in its order.
pub finalize_in_transaction-HasWinners :
    (g : Generated) (draw_id : String) (db : WinnerTables) {u : WinnerTables}
    {r : FinalizeWinnerSelectionResult}
    → finalize_in_transaction g draw_id db ≡ ok (u, r)
    → r.already_completed ≡ false
    → (draw : LotteryDraw) × (evidence : Evidence) × (find (has_id draw_id) db.draws ≡ some draw)
      × (check_evidence db draw ≡ ok evidence)
      × HasWinners draw evidence r.winners
finalize_in_transaction-HasWinners g draw_id db h fresh =
    elim (finalize_in_transaction-cases g draw_id db h) [
      | found_complete draw there complete resolved same ↦
          absurd (cc (fresh, existing_already db draw resolved))
      | completes_now draw there incomplete none_yet in_status c ↦
          (draw, c.evidence, there, c.checked, IsCompletion-HasWinners g draw db c)
    ]
