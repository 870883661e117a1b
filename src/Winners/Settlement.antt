-- ===== src/Winners/Settlement.antt =====
-- The prizes that `finalize` of winner-selection.service.ts recognizes, and the pool they come from.
use amazingchance.Base.{
  ◌+◌, pos, ◌+ℤ◌, String, ◌≡◌, sym, ap, subst, ◌∙◌, false, not, some, some-injective, map, ◌≤◌,
  length, find, count_where, ◌==◌, arith, ok, ok-injective, >>=-eq-ok, throw_if,
}
use amazingchance.Draws.Types.{LotteryDraw, has_id}
use amazingchance.Draws.Transitions.{at_status}
use amazingchance.Ledger.Types.{debit, credit, prize_payable}
use amazingchance.Ledger.Store.{IsValid}
use amazingchance.Prizes.Distribution.{CalculatedPrize, sum_amounts}
use amazingchance.Prizes.Rounding.{resolve-IsResolved}
use amazingchance.Prizes.Calculation.{calculate-IsDistribution}
use amazingchance.Prizes.Pool.{ResolvedPrizePool, resolve_pool}
use amazingchance.Winners.Tables.{WinnerTables}
use amazingchance.Winners.Recognition.{Generated, prizes_of}
use amazingchance.Winners.Existing.{FinalizeWinnerSelectionResult, winners_of}
use amazingchance.Winners.Finalizer.{selecting, claim_state, finalize_in_transaction}
use amazingchance.Winners.Completion.{
  pool_input, IsCompletion, found_complete, completes_now, finalize_in_transaction-cases,
}
use amazingchance.Winners.Results.{AreRanked, existing_already}
use amazingchance.Winners.Money.{booked, AreFree, AreKeysApart, recognize_prizes-booked}
use amazingchance.Winners.Claimed.{
  resolve_pool_claimed, give_first_ranks, length-give_first, ranks_valid-AreRanked, HasPrizes,
  assert_prize_evidence-HasPrizes,
}

module _ (g : Generated) (draw_id : String) (db : WinnerTables) where
  -- The pool of a completed draw moves to its prizes.
  pub record MovesPool (draw : LotteryDraw) (u : WinnerTables) : Type 0 where
    pub pool : ResolvedPrizePool
    pub pooled : resolve_pool db.draws db.ledger (pool_input draw) ≡ ok pool
    pub prizes : HasPrizes draw.winner_count pool.amount_minor (prizes_of draw.id u.prizes)
    pub debited :
        booked pool.source_account_code debit u.ledger
        ≡ pool.amount_minor +ℤ booked pool.source_account_code debit db.ledger
    pub credited :
        booked prize_payable credit u.ledger
        ≡ pool.amount_minor +ℤ booked prize_payable credit db.ledger

  completion-MovesPool :
      (draw : LotteryDraw) {u : WinnerTables} {r : FinalizeWinnerSelectionResult}
      → IsValid db.ledger
      → AreKeysApart g draw.winner_count
      → AreFree g draw.winner_count 0 db.ledger
      → IsCompletion g draw db u r
      → MovesPool draw u
  unfolding claim_state
  completion-MovesPool draw {u} {r} v apart free c =
      let a = c.award_of in
      let (_, _, claimed) =
        >>=-eq-ok (throw_if (not (count_where (at_status draw.id selecting) db.draws == 1)) _) _
          c.claims in
      let resolved =
        resolve-IsResolved db.rules draw.type (some draw.scheduled_draw_at) draw.winner_count
          a.ruled in
      let (pool, amount, dist) =
        calculate-IsDistribution db.rules draw.type (some draw.scheduled_draw_at) draw.winner_count
          a.pool.amount_minor a.ruled a.divided in
      let ranks : AreRanked 0 (map (λ p. p.rank) a.calculated) =
        subst (AreRanked 0)
          (sym (
            ap (map (λ (p : CalculatedPrize). p.rank)) dist.prizes_eq
            ∙ give_first_ranks dist.extra pool a.rule.entries))
          (ranks_valid-AreRanked 0 a.rule.entries resolved.ranks) in
      let total : pos (sum_amounts a.calculated) ≡ a.pool.amount_minor =
        ap pos dist.sum_eq ∙ sym amount in
      let room : 0 + length a.calculated ≤ draw.winner_count = omega (
        arith,
        ap length dist.prizes_eq,
        length-give_first dist.extra pool a.rule.entries,
        resolved.one_each,
      ) in
      let moved =
        recognize_prizes-booked g draw a.pool a.rule db.tickets (winners_of draw.id c.winners)
          draw.winner_count 0 a.calculated (db.prizes, db.ledger) v apart free room ranks
          a.booked in
      let tables = c.tables ∙ ap (λ (x : WinnerTables). record x { draws = c.draws }) a.made in
      record {
        pool = a.pool;
        pooled =
            sym (resolve_pool_claimed g.now draw.id db.draws db.ledger (pool_input draw))
            ∙ ap (λ ds. resolve_pool ds db.ledger (pool_input draw)) (ok-injective claimed)
            ∙ a.pooled;
        prizes =
            subst
              (λ (x : WinnerTables).
                HasPrizes draw.winner_count a.pool.amount_minor (prizes_of draw.id x.prizes))
              (sym tables)
              (assert_prize_evidence-HasPrizes (prizes_of draw.id a.books.0) draw.winner_count
                a.pool.amount_minor a.evident);
        debited =
            ap (λ (x : WinnerTables). booked a.pool.source_account_code debit x.ledger) tables
            ∙ moved.0
            ∙ ap (λ z. z +ℤ booked a.pool.source_account_code debit db.ledger) total;
        credited =
            ap (λ (x : WinnerTables). booked prize_payable credit x.ledger) tables
            ∙ moved.1
            ∙ ap (λ z. z +ℤ booked prize_payable credit db.ledger) total;
      }

  -- A call that completes a draw moves exactly its pool from the jackpot's account to the prizes' and
  -- recognizes a positive prize for each winner, by rank, that add up to it, if the ids of the new
  -- prizes are new to a valid ledger and different for different ranks.
  pub finalize_in_transaction-MovesPool :
      (draw : LotteryDraw) {u : WinnerTables} {r : FinalizeWinnerSelectionResult}
      → IsValid db.ledger
      → find (has_id draw_id) db.draws ≡ some draw
      → AreKeysApart g draw.winner_count
      → AreFree g draw.winner_count 0 db.ledger
      → finalize_in_transaction g draw_id db ≡ ok (u, r)
      → r.already_completed ≡ false
      → MovesPool draw u
  finalize_in_transaction-MovesPool draw {u} {r} v at_draw apart free h fresh =
      elim (finalize_in_transaction-cases g draw_id db h) [
        | found_complete d there complete resolved same ↦
            absurd (cc (fresh, existing_already db d resolved))
        | completes_now d there incomplete none_yet in_status c ↦
            let same = some-injective _ _ (sym there ∙ at_draw) in
            let c' = subst (λ x. IsCompletion g x db u r) same c in
            completion-MovesPool draw v apart free c'
      ]
