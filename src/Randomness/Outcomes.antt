-- ===== src/Randomness/Outcomes.antt =====
-- The draw behind `requestAndVerify` of randomness-evidence.service.ts.
use amazingchance.Base.{
  ℕ, String, ◌≡◌, some, List, [], ◌∷◌, find, update_where, count_where, ok, err, Exception,
}
use amazingchance.Draws.Types.{
  LotteryDraw, DrawStatus, randomness_pending, randomness_verified, manual_review, has_id,
}
use amazingchance.Draws.Transitions.{at_status, with_status}
use amazingchance.Snapshots.Cryptography.{Bytes}
use amazingchance.Randomness.Provider.{SignedResult, Provider}
use amazingchance.Randomness.Evidence.{RandomnessTables, VerifiedRandomnessResult, Prepared}
use amazingchance.Randomness.Request.{Done}

-- The provider answered, and the hash of its response or the update with it threw.
pub data IsUnstored (provider : Provider) (e : Exception) : Type 0 where
  unhashed :
      (p : Prepared) (signed : SignedResult)
      → provider.generate_signed_integers p.winner_count p.ticket_count p.binding ≡ ok signed
      → provider.hash_random_object signed.random ≡ err e
      → IsUnstored provider e
  untaken :
      (p : Prepared) (signed : SignedResult) (hash : Bytes)
      → provider.generate_signed_integers p.winner_count p.ticket_count p.binding ≡ ok signed
      → provider.hash_random_object signed.random ≡ ok hash
      → provider.take_response signed hash ≡ err e
      → IsUnstored provider e

-- What becomes of a draw: nothing changes, or it is left in manual review or, where its response cannot
-- be stored, waiting by a call that throws, or it is verified by one that returns.
pub data Settles (provider : Provider) (draw_id : String) (db : RandomnessTables) (done : Done)
    : Type 0 where
  as_before : done.0 ≡ db → Settles provider draw_id db done
  reviewed :
      (d : LotteryDraw) (e : Exception)
      → find (has_id draw_id) done.0.draws ≡ some d
      → d.status ≡ manual_review
      → done.1 ≡ err e
      → Settles provider draw_id db done
  left_waiting :
      (d : LotteryDraw) (e : Exception)
      → find (has_id draw_id) done.0.draws ≡ some d
      → d.status ≡ randomness_pending
      → done.1 ≡ err e
      → IsUnstored provider e
      → Settles provider draw_id db done
  verified_now :
      (d : LotteryDraw) (r : VerifiedRandomnessResult)
      → find (has_id draw_id) done.0.draws ≡ some d
      → d.status ≡ randomness_verified
      → done.1 ≡ ok r
      → Settles provider draw_id db done

-- The one draw with the id, waiting for randomness.
record IsWaiting (draw_id : String) (db : RandomnessTables) : Type 0 where
  draw : LotteryDraw
  at_draw : find (has_id draw_id) db.draws ≡ some draw
  pending : draw.status ≡ randomness_pending
  one_draw : count_where (has_id draw_id) db.draws ≡ 1

abbrev moved : ℕ → String → DrawStatus → DrawStatus → List LotteryDraw → List LotteryDraw
moved now id from to = update_where (at_status id (from ∷ [])) (with_status now to)
