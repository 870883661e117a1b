-- ===== src/Randomness/Evidence.antt =====
-- RandomnessEvidenceService of randomness-evidence.service.ts. A row of evidence keeps no payloads, no
-- key and no message of a failure. The steps of `requestAndVerify` are transactions of their own, so
-- that it returns tables also where it throws.
use amazingchance.Base.{
  ℕ, ◌+◌, ℤ, pos, String, Bool, true, false, not, ◌&&◌, Option, none, some, List, [], ◌∷◌, filter,
  find, any, every, head?, is_some, update_where, count_where, order_desc, ltb, str_eq, ◌==◌,
  if◌then◌else◌, Outcome, ok, conflict, not_found, plain_error, Exception, ◌>>=◌, ◌>>◌, throw_if,
  or_throw, if_found,
}
use amazingchance.Draws.Types.{
  LotteryDraw, snapshot_finalized, randomness_pending, randomness_verified, manual_review,
  same_status, has_id,
}
use amazingchance.Draws.Transitions.{at_status, with_status}
use amazingchance.Snapshots.Cryptography.{Bytes, to_decimal}
use amazingchance.Snapshots.Finalizer.{LockedSnapshotRow, is_finalized, present, of_draw}
use amazingchance.Winners.Selection.{Value, number, bigint, text, other, max_safe_integer}
use amazingchance.Winners.Tables.{
  requested, received, verified, rejected, failed, same_randomness_status, RandomnessEvidence,
}
use amazingchance.Randomness.Provider.{RandomnessBinding, SignedResult}

pub record RandomnessTables : Type 0 where
  pub draws : List LotteryDraw
  pub snapshots : List LockedSnapshotRow
  pub evidence : List RandomnessEvidence

pub record VerifiedRandomnessResult : Type 0 where
  pub evidence_id : String
  pub draw_id : String
  pub attempt_number : ℕ
  pub requested_min : ℤ
  pub requested_max : ℤ
  pub requested_count : ℕ
  pub random_positions : List Value
  pub response_hash : Bytes
  pub provider_signature : Bytes
  pub verified_at : ℕ
  pub already_verified : Bool

-- What `prepareRequest` returns.
pub record Prepared : Type 0 where
  pub evidence_id : String
  pub attempt_number : ℕ
  pub winner_count : ℕ
  pub ticket_count : ℕ
  pub binding : RandomnessBinding

abbrev of_draw_id : String → RandomnessEvidence → Bool
of_draw_id draw_id e = str_eq e.draw_id draw_id

abbrev is_evidence : String → RandomnessEvidence → Bool
is_evidence id e = str_eq e.id id

-- The attempts of a draw, the last one first.
abbrev pub attempts_of : (RandomnessEvidence → Bool) → RandomnessTables → List RandomnessEvidence
attempts_of keeps db = order_desc (λ e. e.attempt_number) (filter keeps db.evidence)

abbrev is_number : Value → Bool
is_number (number v) = true
is_number (bigint v) = false
is_number (text s) = false
is_number other = false

abbrev is_true : Option Bool → Bool
is_true none = false
is_true (some b) = b

-- The `where` clause of `findVerifiedResult`.
abbrev is_verified_evidence : String → RandomnessEvidence → Bool
is_verified_evidence draw_id e =
    of_draw_id draw_id e
    && same_randomness_status e.status verified
    && is_true e.signature_verified
    && is_some e.response_hash
    && is_some e.provider_signature
    && is_some e.verified_at
    && is_some e.random_positions

-- A verified row as a result, if its columns are there.
unfoldable pub as_result : RandomnessEvidence → Option VerifiedRandomnessResult
as_result e =
    if_found (present e.response_hash)
      (λ hash.
        if_found (present e.provider_signature)
          (λ signature.
            if_found e.verified_at
              (λ at.
                if_found e.random_positions
                  (λ array.
                    if_found array
                      (λ positions.
                        if every is_number positions
                        then some (record {
                          evidence_id = e.id;
                          draw_id = e.draw_id;
                          attempt_number = e.attempt_number;
                          requested_min = e.requested_min;
                          requested_max = e.requested_max;
                          requested_count = e.requested_count;
                          random_positions = positions;
                          response_hash = hash;
                          provider_signature = signature;
                          verified_at = at;
                          already_verified = true;
                        })
                        else none)
                      none)
                  none)
              none)
          none)
      none

unfoldable pub find_verified_result : RandomnessTables → String → Option VerifiedRandomnessResult
unfolding as_result
find_verified_result db draw_id =
    if_found (head? (attempts_of (is_verified_evidence draw_id) db)) as_result none

abbrev pub binding_version : String
binding_version = "AMAZING_CHANCE_RANDOMNESS_BINDING_V1"

-- The attempt number behind the last one.
abbrev pub next_attempt : String → RandomnessTables → ℕ
next_attempt draw_id db =
    if_found (head? (attempts_of (of_draw_id draw_id) db)) (λ e. e.attempt_number + 1) 1

abbrev requested_row : String → String → ℕ → ℕ → ℕ → RandomnessEvidence
requested_row id draw_id attempt ticket_count winner_count = record {
  id = id;
  draw_id = draw_id;
  attempt_number = attempt;
  status = requested;
  requested_min = pos 1;
  requested_max = pos ticket_count;
  requested_count = winner_count;
  response_hash = none;
  provider_signature = none;
  signature_verified = none;
  random_positions = none;
  verified_at = none;
}

-- `lotteryDraw.updateMany`, which must update one row.
unfoldable pub move_draw :
    ℕ
    → String
    → amazingchance.Draws.Types.DrawStatus
    → amazingchance.Draws.Types.DrawStatus
    → Exception
    → List LotteryDraw
    → Outcome (List LotteryDraw)
move_draw now id from to refused draws = do
  throw_if (not (count_where (at_status id (from ∷ [])) draws == 1)) refused
  ok (update_where (at_status id (from ∷ [])) (with_status now to) draws)

unfoldable pub prepare_request :
    ℕ → String → RandomnessTables → String → Outcome (RandomnessTables × Prepared)
unfolding move_draw
prepare_request now new_id db draw_id = do
  draw ← or_throw (find (has_id draw_id) db.draws) (not_found "Lottery draw not found")
  throw_if (not (same_status draw.status snapshot_finalized))
      (conflict "Randomness cannot be requested for a draw in its status")
  snapshot ← or_throw (find (of_draw draw.id) db.snapshots) no_commitment
  throw_if (not (is_finalized snapshot.status)) no_commitment
  snapshot_hash ← or_throw (present snapshot.snapshot_hash) no_commitment
  merkle_root ← or_throw (present snapshot.merkle_root) no_commitment
  _ ← or_throw snapshot.finalized_at no_commitment
  throw_if (ltb snapshot.ticket_count draw.winner_count) (
      conflict "Finalized snapshot does not contain enough tickets for the configured winner count")
  throw_if (ltb max_safe_integer snapshot.ticket_count)
      (conflict "Snapshot ticket count exceeds the supported randomness range")
  let attempt = next_attempt draw.id db
  throw_if (any (λ e. str_eq e.id new_id) db.evidence) (plain_error "P2002")
  draws ←
      move_draw now draw.id snapshot_finalized randomness_pending
        (conflict "Draw state changed while randomness request was being prepared") db.draws
  ok (
    record db {
      draws = draws;
      evidence =
          requested_row new_id draw.id attempt snapshot.ticket_count draw.winner_count
          ∷ db.evidence;
    },
    record {
      evidence_id = new_id;
      attempt_number = attempt;
      winner_count = draw.winner_count;
      ticket_count = snapshot.ticket_count;
      binding = record {
        version = binding_version;
        draw_id = draw.id;
        draw_public_id = draw.public_id;
        snapshot_hash = snapshot_hash;
        merkle_root = merkle_root;
        ticket_count = to_decimal snapshot.ticket_count;
      };
    },
  )
  where
    no_commitment : Exception
    no_commitment =
        conflict "A finalized snapshot commitment is required before randomness can be requested"

abbrev update_evidence :
    String → (RandomnessEvidence → RandomnessEvidence) → RandomnessTables → RandomnessTables
update_evidence id f db = record db { evidence = update_where (is_evidence id) f db.evidence }

-- A draw that waits for randomness, in manual review.
abbrev review : ℕ → String → RandomnessTables → RandomnessTables
review now draw_id db = record db {
  draws =
      update_where (at_status draw_id (randomness_pending ∷ [])) (with_status now manual_review)
        db.draws;
}

unfoldable pub mark_rejected : ℕ → String → String → RandomnessTables → RandomnessTables
mark_rejected now evidence_id draw_id db = review now draw_id (
    update_evidence evidence_id
      (λ e. record e { status = rejected; signature_verified = some false }) db)

unfoldable pub mark_failed : ℕ → String → String → RandomnessTables → RandomnessTables
mark_failed now evidence_id draw_id db =
    review now draw_id (update_evidence evidence_id (λ e. record e { status = failed }) db)

abbrev received_row : SignedResult → Bytes → RandomnessEvidence → RandomnessEvidence
received_row signed hash e = record e {
  status = received;
  response_hash = some hash;
  provider_signature = some signed.signature;
  random_positions = some signed.random.positions;
}

-- The update behind the response.
unfoldable pub store_response : String → SignedResult → Bytes → RandomnessTables → RandomnessTables
store_response evidence_id signed hash db =
    update_evidence evidence_id (received_row signed hash) db

abbrev pub verified_row : ℕ → RandomnessEvidence → RandomnessEvidence
verified_row now e = record e {
  status = verified;
  signature_verified = some true;
  verified_at = some now;
}

-- The last transaction.
unfoldable pub record_verified : ℕ → String → String → RandomnessTables → Outcome RandomnessTables
unfolding move_draw
record_verified now evidence_id draw_id db = do
  draws ←
      move_draw now draw_id randomness_pending randomness_verified
        (conflict "Draw state changed while randomness was being verified") db.draws
  ok (update_evidence evidence_id (verified_row now) (record db { draws = draws }))
