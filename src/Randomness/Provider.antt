-- ===== src/Randomness/Provider.antt =====
-- What the provider of randomness is asked and answers, and `validateProviderResult` of
-- randomness-evidence.service.ts. The client of the provider, `sha256CanonicalJson` of a response, which
-- throws for a value that JSON lacks, and what the database says of the update with a response and its
-- hash, which throws for a signature that is no text, are fields of `Provider`.
use amazingchance.Base.{
  ℕ, ℤ, pos, leb_ℤ, ◌==ℤ◌, String, Bool, true, false, not, ◌&&◌, Option, none, some, List, [], ◌∷◌,
  length, every, any, str_eq, ◌==◌, Outcome,
}
use amazingchance.Snapshots.Cryptography.{Bytes, bytes_eq}
use amazingchance.Winners.Selection.{Value, number, bigint, text, other, max_safe_integer}

pub record RandomnessBinding : Type 0 where
  pub version : String
  pub draw_id : String
  pub draw_public_id : Bytes
  pub snapshot_hash : Bytes
  pub merkle_root : Bytes
  pub ticket_count : Bytes

-- `userData` of a response, if it is an object, with the fields that are texts.
pub record UserData : Type 0 where
  pub version : Option String
  pub draw_id : Option String
  pub draw_public_id : Option Bytes
  pub snapshot_hash : Option Bytes
  pub merkle_root : Option Bytes
  pub ticket_count : Option Bytes

-- The object `random` of a response. `positions` is its `data`, and `none` if that is no
-- array.
pub record SignedRandom : Type 0 where
  pub method : String
  pub n : ℤ
  pub min : ℤ
  pub max : ℤ
  pub replacement : Bool
  pub base : ℤ
  pub positions : Option (List Value)
  pub user_data : Option UserData

pub record SignedResult : Type 0 where
  pub random : SignedRandom
  pub signature : Bytes

pub record Provider : Type 0 where
  pub generate_signed_integers : ℕ → ℕ → RandomnessBinding → Outcome SignedResult
  pub verify_signature : SignedRandom → Bytes → Outcome Bool
  pub hash_random_object : SignedRandom → Outcome Bytes
  pub take_response : SignedResult → Bytes → Outcome (Unit {0})

abbrev pub text_is : Option String → String → Bool
text_is none expected = false
text_is (some actual) expected = str_eq actual expected

abbrev pub bytes_are : Option Bytes → Bytes → Bool
bytes_are none expected = false
bytes_are (some actual) expected = bytes_eq actual expected

unfoldable pub binding_matches : Option UserData → RandomnessBinding → Bool
unfolding bytes_eq
binding_matches none expected = false
binding_matches (some candidate) expected =
    text_is candidate.version expected.version
    && text_is candidate.draw_id expected.draw_id
    && bytes_are candidate.draw_public_id expected.draw_public_id
    && bytes_are candidate.snapshot_hash expected.snapshot_hash
    && bytes_are candidate.merkle_root expected.merkle_root
    && bytes_are candidate.ticket_count expected.ticket_count

-- `Number.isSafeInteger(value) && value >= 1 && value <= max`
abbrev pub is_position : ℕ → Value → Bool
is_position max (number v) = leb_ℤ v (pos max_safe_integer) && leb_ℤ (pos 1) v && leb_ℤ v (pos max)
is_position max (bigint v) = false
is_position max (text s) = false
is_position max other = false

-- The same number.
abbrev pub same_number : Value → Value → Bool
same_number (number v) (number w) = v ==ℤ w
same_number _ _ = false

-- `new Set(data).size === data.length`, of numbers.
unfoldable pub are_different : List Value → Bool
are_different [] = true
are_different (v ∷ vs) = not (any (same_number v) vs) && are_different vs

-- The positions of a response: an array of so many different numbers in range. The checks are a
-- conjunction, so that those of the numbers stand before the one that they differ.
unfoldable pub positions_valid : Option (List Value) → ℕ → ℕ → Bool
unfolding are_different
positions_valid none count max = false
positions_valid (some values) count max =
    length values == count && every (is_position max) values && are_different values

unfoldable pub validate_provider_result : SignedResult → RandomnessBinding → ℕ → ℕ → Bool
unfolding positions_valid binding_matches
validate_provider_result signed_result binding expected_count expected_max =
    let random = signed_result.random in
    str_eq random.method "generateSignedIntegers"
    && random.n ==ℤ pos expected_count
    && random.min ==ℤ pos 1
    && random.max ==ℤ pos expected_max
    && not random.replacement
    && random.base ==ℤ pos 10
    && positions_valid random.positions expected_count expected_max
    && binding_matches random.user_data binding
