-- ===== src/Winners/Money.antt =====
-- The ledger behind `finalize` of winner-selection.service.ts.
use amazingchance.Base.{
  ℕ, ◌+◌, ◌<◌, ◌≤◌, ℤ, pos, ◌+ℤ◌, +ℤ_assoc, zero-+ℤ, pos_add, String, ◌≡◌, refl, sym, ap, subst,
  ◌∙◌, Bool, true, false, ◌&&◌, none, List, [], ◌∷◌, map, length, filter, find, find-passes, str_eq,
  ◌==◌, ==_iff, arith, prefixed, ok, ok-injective, >>=-eq-ok, or_throw, or_throw-eq-ok,
}
use amazingchance.Draws.Types.{LotteryDraw}
use amazingchance.Ledger.Types.{
  LedgerAccountCode, prize_payable, LedgerSide, debit, credit, LedgerTables,
  AppendLedgerTransactionInput,
}
use amazingchance.Ledger.Service.{has_key, append_in_transaction}
use amazingchance.Ledger.Store.{IsValid, with_stored}
use amazingchance.Ledger.Steps.{
  Appends, replayed, stored, append_in_transaction-Appends, Appends-IsValid,
}
use amazingchance.Prizes.Distribution.{CalculatedPrize, ResolvedPrizeDistributionRule, sum_amounts}
use amazingchance.Prizes.Pool.{ResolvedPrizePool, sum_amount}
use amazingchance.Winners.Tables.{TicketOwner, DrawWinner}
use amazingchance.Winners.Recognition.{
  Generated, Books, create_prize, created_prize, recognition, recognize_prize, recognize_prizes,
}
use amazingchance.Winners.Results.{AreRanked}

abbrev account_code : LedgerAccountCode → ℕ
account_code LedgerAccountCode.payment_clearing = 0
account_code LedgerAccountCode.cash = 1
account_code LedgerAccountCode.weekly_jackpot = 2
account_code LedgerAccountCode.annual_jackpot = 3
account_code LedgerAccountCode.company_revenue = 4
account_code LedgerAccountCode.prize_payable = 5
account_code LedgerAccountCode.payout_clearing = 6
account_code LedgerAccountCode.refund_payable = 7

abbrev same_side : LedgerSide → LedgerSide → Bool
same_side debit debit = true
same_side credit credit = true
same_side debit credit = false
same_side credit debit = false

-- What an account was debited, or credited, in all.
abbrev pub booked : LedgerAccountCode → LedgerSide → LedgerTables → ℤ
booked account side db = sum_amount (
    filter (λ p. same_side p.side side && account_code p.account_code == account_code account)
      db.postings)

-- The idempotency key of the prize of a rank.
abbrev pub prize_key : Generated → ℕ → String
prize_key g rank = prefixed "prize-recognized:" (g.prize_id rank)

-- The keys of the prizes behind an index, up to a last rank, are not in the ledger yet.
abbrev pub AreFree : Generated → ℕ → ℕ → LedgerTables → Type 0
AreFree g last index db =
    (rank : ℕ)
    → index < rank
    → rank ≤ last
    → find (has_key (prize_key g rank)) db.transactions ≡ none

-- Prizes of different ranks up to a last one have different keys.
abbrev pub AreKeysApart : Generated → ℕ → Type 0
AreKeysApart g last =
    (a b : ℕ) → a < b → b ≤ last → 0 < a → str_eq (prize_key g a) (prize_key g b) ≡ false

module _ (g : Generated) (draw : LotteryDraw) (pool : ResolvedPrizePool)
    (rule : ResolvedPrizeDistributionRule) (tickets : List TicketOwner)
    (winners : List DrawWinner) where
  -- One round, taken apart.
  recognize_prize-parts :
      (c : CalculatedPrize) (books : Books) {next : Books}
      → IsValid books.1
      → recognize_prize g draw pool rule tickets winners c books ≡ ok next
      → (winner : DrawWinner) × (winner.rank ≡ c.rank)
        × Appends
            (g.transaction_id winner.rank)
            g.now
            (recognition draw pool rule winner c (g.prize_id winner.rank))
            books.1
            next.1
  unfolding recognize_prize
  recognize_prize-parts c (prizes, ledger) {next} v h =
      let (winner, a, h0) = >>=-eq-ok (or_throw (find (λ w. w.rank == c.rank) winners) _) _ h in
      let (owner, _, h1) =
        >>=-eq-ok (or_throw (find (λ t. str_eq t.id winner.ticket_id) tickets) _) _ h0 in
      let (with_prize, _, h2) =
        >>=-eq-ok
          (create_prize (created_prize draw rule winner owner c (g.prize_id winner.rank)) prizes) _
          h1 in
      let input = recognition draw pool rule winner c (g.prize_id winner.rank) in
      let (appended, b, h3) =
        >>=-eq-ok (append_in_transaction (g.transaction_id winner.rank) g.now input ledger) _ h2 in
      let found = or_throw-eq-ok (find (λ w. w.rank == c.rank) winners) _ a in
      let passes = find-passes (λ (w : DrawWinner). w.rank == c.rank) winners found in
      (
        winner,
        (==_iff winner.rank c.rank).0 passes,
        subst (Appends (g.transaction_id winner.rank) g.now input ledger)
            (ap (λ (n : Books). n.1) (ok-injective h3))
            (append_in_transaction-Appends (g.transaction_id winner.rank) g.now input ledger v b),
      )

  pub recognize_prizes-IsValid :
      (cs : List CalculatedPrize) (books : Books) {done : Books}
      → IsValid books.1
      → recognize_prizes g draw pool rule tickets winners cs books ≡ ok done
      → IsValid done.1
  unfolding recognize_prizes
  recognize_prizes-IsValid [] books v h = subst (λ n. IsValid n.1) (ok-injective h) v
  recognize_prizes-IsValid (c ∷ cs) books v h =
      let (next, a, h0) =
        >>=-eq-ok (recognize_prize g draw pool rule tickets winners c books) _ h in
      let (winner, _, appends) = recognize_prize-parts c books v a in
      recognize_prizes-IsValid cs next (Appends-IsValid _ _ _ books.1 v appends) h0

  -- A prize that is new to the ledger is debited to the pool's account and credited to the prizes'.
  booked_stored :
      (winner : DrawWinner) (c : CalculatedPrize) (id : String) (prize_id : String)
      (db : LedgerTables)
      → let u = with_stored id g.now (recognition draw pool rule winner c prize_id) db in
        (booked pool.source_account_code debit u
          ≡ pos c.amount_minor +ℤ booked pool.source_account_code debit db)
        × (booked prize_payable credit u ≡ pos c.amount_minor +ℤ booked prize_payable credit db)
  unfolding recognition
  booked_stored winner c id prize_id db =
      let own : (account_code pool.source_account_code == account_code pool.source_account_code)
          ≡ true =
        (==_iff _ _).1 refl in
      (rw own refl, ground arith)

  key_of_recognition :
      (winner : DrawWinner) (c : CalculatedPrize)
      → (recognition draw pool rule winner c (g.prize_id winner.rank)).idempotency_key
        ≡ prize_key g winner.rank
  unfolding recognition
  key_of_recognition winner c = refl

  still_free :
      (last index : ℕ) (id : String) (input : AppendLedgerTransactionInput) (db : LedgerTables)
      → AreKeysApart g last
      → input.idempotency_key ≡ prize_key g (index + 1)
      → AreFree g last index db
      → AreFree g last (index + 1) (with_stored id g.now input db)
  still_free last index id input db apart key free rank above below =
      let other : str_eq input.idempotency_key (prize_key g rank) ≡ false =
        ap (λ k. str_eq k (prize_key g rank)) key
        ∙ apart (index + 1) rank above below (omega arith) in
      rw other (free rank (omega (arith, above)) below)

  pub recognize_prizes-booked :
      (last index : ℕ) (cs : List CalculatedPrize) (books : Books) {done : Books}
      → IsValid books.1
      → AreKeysApart g last
      → AreFree g last index books.1
      → index + length cs ≤ last
      → AreRanked index (map (λ c. c.rank) cs)
      → recognize_prizes g draw pool rule tickets winners cs books ≡ ok done
      → (booked pool.source_account_code debit done.1
          ≡ pos (sum_amounts cs) +ℤ booked pool.source_account_code debit books.1)
        × (booked prize_payable credit done.1
            ≡ pos (sum_amounts cs) +ℤ booked prize_payable credit books.1)
  unfolding recognize_prizes sum_amounts
  recognize_prizes-booked last index [] books v apart free room ranks h =
      let same = ap (λ (n : Books). n.1) (sym (ok-injective h)) in
      rw same (sym (zero-+ℤ _), sym (zero-+ℤ _))
  recognize_prizes-booked last index (c ∷ cs) books {done} v apart free room ranks h =
      let (next, a, h0) =
        >>=-eq-ok (recognize_prize g draw pool rule tickets winners c books) _ h in
      let (winner, rank, appends) = recognize_prize-parts c books v a in
      let input = recognition draw pool rule winner c (g.prize_id winner.rank) in
      let key : input.idempotency_key ≡ prize_key g (index + 1) =
        key_of_recognition winner c ∙ ap (prize_key g) (rank ∙ ranks.0) in
      let unused =
        ap (λ k. find (has_key k) books.1.transactions) key
        ∙ free (index + 1) (omega arith) (omega (arith, room)) in
      let v' = Appends-IsValid _ _ _ books.1 v appends in
      elim appends [
        | replayed t taken same ↦ absurd (cc (unused, taken))
        | stored _ _ _ made ↦
            let free' =
              subst (AreFree g last (index + 1)) (sym made) (
                still_free last index (g.transaction_id winner.rank) input books.1 apart key
                  free) in
            let rest =
              recognize_prizes-booked last (index + 1) cs next v' apart free' (omega (arith, room))
                ranks.1 h0 in
            let here =
              booked_stored winner c (g.transaction_id winner.rank) (g.prize_id winner.rank)
                books.1 in
            (
              rest.0
                  ∙ carried pool.source_account_code debit c.amount_minor (sum_amounts cs) books.1 _
                      made here.0,
              rest.1
                  ∙ carried prize_payable credit c.amount_minor (sum_amounts cs) books.1 _ made
                      here.1,
            )
      ]
    where
      carried :
          (account : LedgerAccountCode) (side : LedgerSide) (amount more : ℕ)
          (before now : LedgerTables) {u : LedgerTables}
          → u ≡ now
          → booked account side now ≡ pos amount +ℤ booked account side before
          → pos more +ℤ booked account side u ≡ pos (amount + more) +ℤ booked account side before
      carried account side amount more before now same e =
          ap (λ (x : LedgerTables). pos more +ℤ booked account side x) same
          ∙ ap (λ z. pos more +ℤ z) e
          ∙ sym (+ℤ_assoc (pos more) (pos amount) (booked account side before))
          ∙ ap (λ z. z +ℤ booked account side before) (pos_add more amount ∙ ap pos (omega arith))
