-- ===== src/Randomness/Request.antt =====
-- `requestAndVerify` of randomness-evidence.service.ts. It returns tables also where it throws, since
-- its steps are transactions of their own.
use amazingchance.Base.{
  ℕ, pos, String, Bool, true, false, Option, none, some, List, [], if◌then◌else◌, Outcome, ok, err,
  conflict, if_found,
}
use amazingchance.Snapshots.Cryptography.{Bytes}
use amazingchance.Winners.Selection.{Value}
use amazingchance.Randomness.Provider.{SignedResult, Provider, validate_provider_result}
use amazingchance.Randomness.Evidence.{
  RandomnessTables, VerifiedRandomnessResult, Prepared, find_verified_result, prepare_request,
  store_response, mark_rejected, mark_failed, record_verified,
}

abbrev pub Done : Type 0
Done = RandomnessTables × Outcome VerifiedRandomnessResult

-- `signedResult.random.data`, of a response that passed the validation.
abbrev positions_or_none : Option (List Value) → List Value
positions_or_none none = []
positions_or_none (some values) = values

abbrev fresh_result : ℕ → String → Prepared → SignedResult → Bytes → VerifiedRandomnessResult
fresh_result now draw_id p signed hash = record {
  evidence_id = p.evidence_id;
  draw_id = draw_id;
  attempt_number = p.attempt_number;
  requested_min = pos 1;
  requested_max = pos p.ticket_count;
  requested_count = p.winner_count;
  random_positions = positions_or_none signed.random.positions;
  response_hash = hash;
  provider_signature = signed.signature;
  verified_at = now;
  already_verified = false;
}

-- From the answer on whether the signature is authentic.
unfoldable pub conclude :
    ℕ → String → Prepared → SignedResult → Bytes → RandomnessTables → Outcome Bool → Done
unfolding mark_failed mark_rejected record_verified
conclude now draw_id p signed hash db (err e) = (mark_failed now p.evidence_id draw_id db, err e)
conclude now draw_id p signed hash db (ok false) = (
  mark_rejected now p.evidence_id draw_id db,
  err (conflict "Randomness provider signature is not authentic"),
)
conclude now draw_id p signed hash db (ok true) =
    elim (record_verified now p.evidence_id draw_id db) [
      | ok u ↦ (u, ok (fresh_result now draw_id p signed hash))
      | err e ↦ (db, err e)
    ]

-- From the update with the response on, which stands in no `try`.
unfoldable pub store :
    ℕ
    → Provider
    → String
    → Prepared
    → SignedResult
    → Bytes
    → RandomnessTables
    → Outcome (Unit {0})
    → Done
unfolding mark_rejected store_response validate_provider_result conclude
store now provider draw_id p signed hash db (err e) = (db, err e)
store now provider draw_id p signed hash db (ok taken) =
    let stored = store_response p.evidence_id signed hash db in
    let rejected : Done = (
      mark_rejected now p.evidence_id draw_id stored,
      err (conflict "Randomness response does not match the committed draw request"),
    ) in
    let concluded =
      conclude now draw_id p signed hash stored
        (provider.verify_signature signed.random signed.signature) in
    if validate_provider_result signed p.binding p.winner_count p.ticket_count
    then concluded
    else rejected

-- From the hash of the response on, which stands in no `try` either.
unfoldable pub hashed :
    ℕ → Provider → String → Prepared → SignedResult → RandomnessTables → Outcome Bytes → Done
unfolding store
hashed now provider draw_id p signed db (err e) = (db, err e)
hashed now provider draw_id p signed db (ok hash) =
    store now provider draw_id p signed hash db (provider.take_response signed hash)

-- From the answer with the random numbers on.
unfoldable pub receive :
    ℕ → Provider → String → Prepared → RandomnessTables → Outcome SignedResult → Done
unfolding mark_failed hashed
receive now provider draw_id p db (err e) = (mark_failed now p.evidence_id draw_id db, err e)
receive now provider draw_id p db (ok signed) =
    hashed now provider draw_id p signed db (provider.hash_random_object signed.random)

-- From the committed request on.
unfoldable pub request :
    ℕ → Provider → String → RandomnessTables → Outcome (RandomnessTables × Prepared) → Done
unfolding receive
request now provider draw_id db (err e) = (db, err e)
request now provider draw_id db (ok (u, p)) =
    receive now provider draw_id p u
      (provider.generate_signed_integers p.winner_count p.ticket_count p.binding)

unfoldable pub request_and_verify : ℕ → String → Provider → RandomnessTables → String → Done
unfolding find_verified_result request prepare_request
request_and_verify now new_id provider db draw_id =
    if_found (find_verified_result db draw_id) (λ existing. (db, ok existing))
      (request now provider draw_id db (prepare_request now new_id db draw_id))
