-- ===== src/Winners/FinalizerTests.antt =====
-- Two winners among three tickets, and a weekly pool of 300, and the theorems at them.
use amazingchance.Base.{
  ℕ, zero, suc, pos, ◌+ℤ◌, ◌≡◌, refl, true, false, none, some, [], ◌∷◌, map, find, ◌==◌, arith,
  String, prefixed, number_text, if◌then◌else◌, codes, ok, is_blank, is_currency_code,
}
use amazingchance.Draws.Types.{LotteryDraw, weekly, randomness_verified, has_id}
use amazingchance.Draws.Tests.{draw}
use amazingchance.Ledger.Tests.{payment, no_rows, no_rows-IsValid, payment-IsWellFormed}
use amazingchance.Ledger.Store.{IsValid, with_stored, with_stored-IsValid}
use amazingchance.Prizes.Distribution.{
  PrizeDistributionRule, resolve, effective_rules, ranks_valid, total_bps, calculate, floor_share,
  sum_amounts, add_to_first,
}
use amazingchance.Prizes.Pool.{resolve_pool, resolve_typed, assert_positive_pool, weekly_pool}
use amazingchance.Ledger.Service.{
  append_in_transaction, validate_input, sum_sides, replay_or, insert_transaction,
}
use amazingchance.Snapshots.Finalizer.{LockedSnapshotRow, finalized}
use amazingchance.Winners.Selection.{
  number, select_winner_positions, validate_selection_configuration, normalize_all,
  normalize_random_position, is_positive_integer, decimal, collect, distinct_count,
}
use amazingchance.Winners.Tables.{RandomnessEvidence, verified, SnapshotEntry, WinnerTables}
use amazingchance.Winners.Recognition.{
  Generated, create_prize, recognition, recognize_prize, recognize_prizes, valid_ranks, total_minor,
  assert_prize_evidence,
}
use amazingchance.Winners.Evidence.{
  Evidence, verified_positions, check_evidence, ordered_entries, select_entries,
}
use amazingchance.Winners.Money.{AreKeysApart, AreFree}
use amazingchance.Winners.Results.{HasWinners, finalize_in_transaction-HasWinners}
use amazingchance.Winners.Repetition.{as_before, finalize_in_transaction-again}
use amazingchance.Winners.Settlement.{MovesPool, finalize_in_transaction-MovesPool}
use amazingchance.Winners.Existing.{
  FinalizeWinnerSelectionResult, randomness_of, serialize_winner, serialize_winners,
}
use amazingchance.Winners.Finalizer.{
  create_winners, claim_state, complete_draw, award, select_and_award, start_selection,
  finalize_in_transaction,
}

abbrev verified_draw : LotteryDraw
verified_draw = record draw {
  status = randomness_verified;
  winner_count = 2;
  sales_close_at = some 200;
  scheduled_draw_at = 300;
}

abbrev rule : PrizeDistributionRule
rule = record {
  id = "pd1";
  version = 1;
  draw_type = weekly;
  effective_from = 0;
  effective_to = none;
  entries = record { rank = 1; share_bps = 7000 } ∷ record { rank = 2; share_bps = 3000 } ∷ [];
}

abbrev commitment : LockedSnapshotRow
commitment = record {
  id = "s1";
  draw_id = "d1";
  status = finalized;
  ticket_count = 3;
  canonical_format = codes "v1";
  hash_algorithm = "SHA-256";
  snapshot_hash = some (codes "ab");
  merkle_root = some (codes "cd");
  finalized_at = some 250;
}

abbrev evidence : RandomnessEvidence
evidence = record {
  id = "r1";
  draw_id = "d1";
  attempt_number = 1;
  status = verified;
  requested_min = pos 1;
  requested_max = pos 3;
  requested_count = 3;
  response_hash = some (codes "ef");
  provider_signature = some (codes "sig");
  signature_verified = some true;
  random_positions = some (some (number (pos 3) ∷ number (pos 1) ∷ number (pos 2) ∷ []));
  verified_at = some 310;
}

abbrev entry : String → ℕ → String → SnapshotEntry
entry id position ticket = record {
  id = id;
  snapshot_id = "s1";
  ticket_id = ticket;
  position = pos position;
  ticket_public_id = ticket;
  owner_public_ref = "owner";
}

abbrev db : WinnerTables
db = record {
  draws = verified_draw ∷ [];
  snapshots = commitment ∷ [];
  entries = entry "e1" 1 "t1" ∷ entry "e2" 2 "t2" ∷ entry "e3" 3 "t3" ∷ [];
  randomness = evidence ∷ [];
  tickets =
      record { id = "t1"; user_id = "u1" }
      ∷ record { id = "t2"; user_id = "u2" }
      ∷ record { id = "t3"; user_id = "u1" }
      ∷ [];
  rules = rule ∷ [];
  winners = [];
  prizes = [];
  ledger = with_stored "t1" 7 payment no_rows;
}

abbrev generated : Generated
generated = record {
  winner_id = λ rank. if rank == 1 then "w1" else "w2";
  prize_id = λ rank. if rank == 1 then "p1" else "p2";
  transaction_id = λ rank. if rank == 1 then "pt1" else "pt2";
  now = 400;
}

completes :
    (u : WinnerTables) × (r : FinalizeWinnerSelectionResult) × (finalize_in_transaction generated
        "d1" db
      ≡ ok (u, r))
    × (r.already_completed ≡ false)
    × (map (λ w. w.random_position) r.winners ≡ pos 3 ∷ pos 1 ∷ [])
    × (map (λ p. p.amount_minor) u.prizes ≡ pos 90 ∷ pos 210 ∷ [])
unfolding finalize_in_transaction resolve_pool resolve_typed assert_positive_pool weekly_pool
    is_currency_code select_and_award check_evidence randomness_of verified_positions select_entries
    ordered_entries create_winners claim_state complete_draw award start_selection resolve calculate
    recognize_prizes recognize_prize create_prize recognition assert_prize_evidence valid_ranks
    total_minor append_in_transaction validate_input is_blank sum_sides ◌+ℤ◌ replay_or
    insert_transaction prefixed number_text serialize_winner serialize_winners
    select_winner_positions validate_selection_configuration normalize_all normalize_random_position
    is_positive_integer decimal collect distinct_count effective_rules ranks_valid total_bps
    floor_share sum_amounts add_to_first
completes = (_, _, refl, refl, refl, refl)

abbrev later_generated : Generated
later_generated = record generated { now = 500 }

finalize_in_transaction-HasWinners_example :
    (draw : LotteryDraw) × (evidence : Evidence) × (find (has_id "d1") db.draws ≡ some draw)
    × (check_evidence db draw ≡ ok evidence)
    × HasWinners draw evidence completes.1.winners
finalize_in_transaction-HasWinners_example =
    finalize_in_transaction-HasWinners generated "d1" db completes.2 completes.3

finalize_in_transaction-again_example :
    finalize_in_transaction later_generated "d1" completes.0
    ≡ ok (completes.0, as_before completes.1)
finalize_in_transaction-again_example =
    finalize_in_transaction-again generated "d1" db later_generated completes.2

db-IsValid : IsValid db.ledger
db-IsValid =
    with_stored-IsValid "t1" 7 payment no_rows refl refl payment-IsWellFormed no_rows-IsValid

keys_apart : AreKeysApart generated 2
unfolding prefixed
keys_apart (suc zero) (suc (suc zero)) above below some_rank = refl
keys_apart zero b above below some_rank = absurd (omega arith)
keys_apart (suc zero) zero above below some_rank = absurd (omega arith)
keys_apart (suc zero) (suc zero) above below some_rank = absurd (omega arith)
keys_apart (suc zero) (suc (suc (suc b))) above below some_rank = absurd (omega arith)
keys_apart (suc (suc a)) b above below some_rank = absurd (omega arith)

keys_free : AreFree generated 2 0 db.ledger
unfolding prefixed
keys_free zero above below = absurd (omega arith)
keys_free (suc zero) above below = refl
keys_free (suc (suc zero)) above below = refl
keys_free (suc (suc (suc rank))) above below = absurd (omega arith)

finalize_in_transaction-MovesPool_example : MovesPool generated "d1" db verified_draw completes.0
finalize_in_transaction-MovesPool_example =
    finalize_in_transaction-MovesPool generated "d1" db verified_draw db-IsValid refl keys_apart
      keys_free completes.2 completes.3
