-- ===== src/Winners/Recognition.antt =====
-- The prizes of winner-selection.service.ts: the loop of `finalizeInTransaction` that creates them
-- and appends them to the ledger, and `assertPrizeEvidence`.
use amazingchance.Base.{
  ℕ, ◌+◌, ℤ, pos, pos_part, ◌+ℤ◌, ltb_ℤ, ◌==ℤ◌, String, Bool, true, false, not, ◌&&◌, ◌||◌, Option,
  none, some, List, [], ◌∷◌, length, filter, find, any, order_asc, ltb, str_eq, ◌==◌, number_text,
  prefixed, Outcome, ok, conflict, plain_error, ◌>>=◌, ◌>>◌, throw_if, or_throw,
}
use amazingchance.Draws.Types.{LotteryDraw}
use amazingchance.Ledger.Types.{
  number_value, text_value, debit, credit, prize_payable, prize_recognized,
  AppendLedgerTransactionInput, LedgerTables,
}
use amazingchance.Ledger.Service.{append_in_transaction}
use amazingchance.Prizes.Distribution.{CalculatedPrize, ResolvedPrizeDistributionRule}
use amazingchance.Prizes.Pool.{ResolvedPrizePool}
use amazingchance.Winners.Tables.{TicketOwner, DrawWinner, created, Prize, prize_of_draw}

-- The ids that the database makes, by rank, and its clock.
pub record Generated : Type 0 where
  pub winner_id : ℕ → String
  pub prize_id : ℕ → String
  pub transaction_id : ℕ → String
  pub now : ℕ

-- The keys of `prizes`: the id, the winner, and the rank in a draw.
abbrev pub prize_clashes : Prize → Prize → Bool
prize_clashes p q =
    str_eq p.id q.id
    || str_eq p.winner_id q.winner_id
    || (str_eq p.draw_id q.draw_id && p.rank == q.rank)

-- `prize.create`
unfoldable pub create_prize : Prize → List Prize → Outcome (List Prize)
create_prize p prizes = do
  throw_if (any (prize_clashes p) prizes) (plain_error "P2002")
  ok (p ∷ prizes)

-- The transaction that recognizes a prize.
unfoldable pub recognition :
    LotteryDraw
    → ResolvedPrizePool
    → ResolvedPrizeDistributionRule
    → DrawWinner
    → CalculatedPrize
    → String
    → AppendLedgerTransactionInput
recognition draw pool rule winner calculated prize_id = record {
  type = prize_recognized;
  idempotency_key = prefixed "prize-recognized:" prize_id;
  reference_type = "PRIZE";
  reference_id = prize_id;
  currency = draw.currency;
  description = some "Prize obligation recognized from jackpot";
  metadata = some (
      ("drawId", text_value draw.id)
      ∷ ("winnerId", text_value winner.id)
      ∷ ("rank", number_value (pos winner.rank))
      ∷ ("distributionRuleVersion", number_value (pos rule.version))
      ∷ ("shareBps", number_value (pos calculated.share_bps))
      ∷ ("poolAmountMinor", text_value (number_text (pos_part pool.amount_minor)))
      ∷ []);
  postings =
      record {
        account_code = pool.source_account_code;
        side = debit;
        amount_minor = pos calculated.amount_minor;
      }
      ∷ record {
        account_code = prize_payable;
        side = credit;
        amount_minor = pos calculated.amount_minor;
      }
      ∷ [];
}

abbrev pub created_prize :
    LotteryDraw
    → ResolvedPrizeDistributionRule
    → DrawWinner
    → TicketOwner
    → CalculatedPrize
    → String
    → Prize
created_prize draw rule winner owner calculated prize_id = record {
  id = prize_id;
  draw_id = draw.id;
  winner_id = winner.id;
  user_id = owner.user_id;
  rank = winner.rank;
  amount_minor = pos calculated.amount_minor;
  currency = draw.currency;
  distribution_rule_version = some rule.version;
  share_bps = some calculated.share_bps;
  status = created;
}

-- The tables that the loop writes.
abbrev pub Books : Type 0
Books = List Prize × LedgerTables

-- One round of the loop. A winner's ticket is there by a foreign key.
unfoldable pub recognize_prize :
    Generated
    → LotteryDraw
    → ResolvedPrizePool
    → ResolvedPrizeDistributionRule
    → List TicketOwner
    → List DrawWinner
    → CalculatedPrize
    → Books
    → Outcome Books
unfolding create_prize recognition
recognize_prize g draw pool rule tickets winners calculated (prizes, ledger) = do
  winner ←
      or_throw (find (λ w. w.rank == calculated.rank) winners)
        (conflict "Winner for prize rank was not found")
  owner ← or_throw (find (λ t. str_eq t.id winner.ticket_id) tickets) (plain_error "TypeError")
  let prize_id = g.prize_id winner.rank
  with_prize ← create_prize (created_prize draw rule winner owner calculated prize_id) prizes
  appended ←
      append_in_transaction (g.transaction_id winner.rank) g.now
        (recognition draw pool rule winner calculated prize_id) ledger
  ok (with_prize, appended.0)

-- `for (const calculatedPrize of calculatedPrizes)`
unfoldable pub recognize_prizes :
    Generated
    → LotteryDraw
    → ResolvedPrizePool
    → ResolvedPrizeDistributionRule
    → List TicketOwner
    → List DrawWinner
    → List CalculatedPrize
    → Books
    → Outcome Books
recognize_prizes g draw pool rule tickets winners [] books = ok books
recognize_prizes g draw pool rule tickets winners (c ∷ cs) books = do
  next ← recognize_prize g draw pool rule tickets winners c books
  recognize_prizes g draw pool rule tickets winners cs next

-- `prizes: { orderBy: { rank: 'asc' } }`
abbrev pub prizes_of : String → List Prize → List Prize
prizes_of draw_id prizes = order_asc (λ p. p.rank) (filter (prize_of_draw draw_id) prizes)

-- A number that is there and positive.
abbrev pub is_positive_number : Option ℕ → Bool
is_positive_number none = false
is_positive_number (some n) = ltb 0 n

-- `prizes.every((prize, index) => ...)`, from an index on.
unfoldable pub valid_ranks : ℕ → List Prize → Bool
valid_ranks index [] = true
valid_ranks index (p ∷ ps) =
    p.rank == index + 1
    && ltb_ℤ (pos 0) p.amount_minor
    && is_positive_number p.distribution_rule_version
    && is_positive_number p.share_bps
    && valid_ranks (index + 1) ps

-- `prizes.reduce((sum, prize) => sum + prize.amountMinor, 0n)`
unfoldable pub total_minor : ℤ → List Prize → ℤ
total_minor sum [] = sum
total_minor sum (p ∷ ps) = total_minor (sum +ℤ p.amount_minor) ps

abbrev assert_total : List Prize → Option ℤ → Outcome (Unit {0})
assert_total prizes none = ok tt
assert_total prizes (some expected) =
    throw_if (not (total_minor (pos 0) prizes ==ℤ expected))
      (conflict "Recognized prize amounts do not equal the ledger-backed prize pool")

unfoldable pub assert_prize_evidence : List Prize → ℕ → Option ℤ → Outcome (Unit {0})
unfolding valid_ranks total_minor
assert_prize_evidence prizes winner_count expected_pool_minor = do
  throw_if (not (length prizes == winner_count))
      (conflict "Prize recognition did not produce the configured prize count")
  throw_if (not (valid_ranks 0 prizes)) (conflict "Recognized prize evidence is incomplete")
  assert_total prizes expected_pool_minor
