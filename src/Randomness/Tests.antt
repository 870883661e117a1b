-- ===== src/Randomness/Tests.antt =====
-- Two positions among three tickets from a provider that answers at once, and the theorems at them.
use amazingchance.Base.{
  pos, ◌≡◌, refl, true, false, some, [], ◌∷◌, map, codes, ok, err, conflict, plain_error, arith,
}
use amazingchance.Draws.Types.{LotteryDraw, snapshot_finalized, randomness_pending}
use amazingchance.Draws.Tests.{draw}
use amazingchance.Snapshots.Cryptography.{digits_of, to_decimal, bytes_eq}
use amazingchance.Snapshots.Finalizer.{finalized}
use amazingchance.Winners.Selection.{number, WinnerPositionSelectionResult, select_winner_positions}
use amazingchance.Randomness.Provider.{
  RandomnessBinding, SignedResult, Provider, binding_matches, are_different, positions_valid,
  validate_provider_result,
}
use amazingchance.Randomness.Evidence.{
  RandomnessTables, VerifiedRandomnessResult, as_result, find_verified_result, move_draw,
  prepare_request, store_response, mark_rejected, record_verified, binding_version,
}
use amazingchance.Randomness.Request.{conclude, store, hashed, receive, request, request_and_verify}
use amazingchance.Randomness.Selection.{selection_input, validate_provider_result-selects}

abbrev committed_draw : LotteryDraw
committed_draw = record draw { status = snapshot_finalized; winner_count = 2 }

abbrev binding : RandomnessBinding
binding = record {
  version = binding_version;
  draw_id = "d1";
  draw_public_id = draw.public_id;
  snapshot_hash = codes "ab";
  merkle_root = codes "cd";
  ticket_count = codes "3";
}

abbrev signed : SignedResult
signed = record {
  random = record {
    method = "generateSignedIntegers";
    n = pos 2;
    min = pos 1;
    max = pos 3;
    replacement = false;
    base = pos 10;
    positions = some (number (pos 3) ∷ number (pos 1) ∷ []);
    user_data = some (record {
      version = some binding.version;
      draw_id = some binding.draw_id;
      draw_public_id = some binding.draw_public_id;
      snapshot_hash = some binding.snapshot_hash;
      merkle_root = some binding.merkle_root;
      ticket_count = some binding.ticket_count;
    });
  };
  signature = codes "sig";
}

abbrev provider : Provider
provider = record {
  generate_signed_integers = λ count max b. ok signed;
  verify_signature = λ random signature. ok true;
  hash_random_object = λ random. ok (codes "hash");
  take_response = λ signed hash. ok tt;
}

abbrev db : RandomnessTables
db = record {
  draws = committed_draw ∷ [];
  snapshots =
      record {
        id = "s1";
        draw_id = "d1";
        status = finalized;
        ticket_count = 3;
        canonical_format = codes "v1";
        hash_algorithm = "SHA-256";
        snapshot_hash = some (codes "ab");
        merkle_root = some (codes "cd");
        finalized_at = some 250;
      }
      ∷ [];
  evidence = [];
}

accepted : validate_provider_result signed binding 2 3 ≡ true
unfolding validate_provider_result positions_valid are_different binding_matches bytes_eq
accepted = refl

verified :
    (u : RandomnessTables) × (r : VerifiedRandomnessResult) × (request_and_verify 300 "r1" provider
        db "d1"
      ≡ (u, ok r))
    × (r.random_positions ≡ number (pos 3) ∷ number (pos 1) ∷ [])
unfolding request_and_verify find_verified_result as_result request prepare_request move_draw
    receive hashed store store_response validate_provider_result positions_valid are_different
    binding_matches bytes_eq to_decimal digits_of conclude record_verified
verified = (_, _, refl, refl)

-- A signature that is not authentic.
abbrev forged : Provider
forged = record provider { verify_signature = λ random signature. ok false }

rejected :
    (request_and_verify 300 "r1" forged db "d1").1
    ≡ err (conflict "Randomness provider signature is not authentic")
unfolding request_and_verify find_verified_result as_result request prepare_request move_draw
    receive hashed store store_response validate_provider_result positions_valid are_different
    binding_matches bytes_eq to_decimal digits_of conclude mark_rejected
rejected = refl

-- A response that JSON cannot hold: the draw is left waiting.
abbrev not_finite : Provider
not_finite = record provider {
  hash_random_object =
      λ random. err (plain_error "Canonical JSON cannot contain non-finite numbers");
}

waits :
    map (λ (d : LotteryDraw). d.status) (request_and_verify 300 "r1" not_finite db "d1").0.draws
    ≡ randomness_pending ∷ []
unfolding request_and_verify find_verified_result as_result request prepare_request move_draw
    receive hashed to_decimal digits_of
waits = refl

validate_provider_result-selects_example :
    (r : WinnerPositionSelectionResult) × (select_winner_positions
        (selection_input signed.random.positions 2 3)
      ≡ ok r)
    × (some (map number r.positions) ≡ signed.random.positions)
validate_provider_result-selects_example =
    validate_provider_result-selects signed binding 2 3 (omega arith) (omega arith) accepted
