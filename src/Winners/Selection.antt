-- ===== src/Winners/Selection.antt =====
-- winner-selection.util.ts: `selectWinnerPositions` and its two helpers. The winner count is a
-- number column and the entry count a count of rows, so both are naturals.
use amazingchance.Base.{
  ℕ, ◌+◌, ◌-◌, ◌*◌, ℤ, pos, ltb_ℤ, leb_ℤ, ◌==ℤ◌, String, Bool, false, ◌&&◌, ◌||◌, Option, List, [],
  ◌∷◌, ◌++◌, length, any, ltb, leb, ◌==◌, codes, all_codes, if◌then◌else◌, Outcome, ok, err,
  bad_request, conflict, ◌>>=◌, ◌>>◌, throw_if, or_throw,
}

-- A value of the provider's JSON array: a `bigint`, an integral `number`, a `string`, or any other
-- value, such as a number with a fraction.
pub data Value : Type 0 where
  bigint number : ℤ → Value
  text : String → Value
  other : Value

pub record WinnerPositionSelectionInput : Type 0 where
  -- `none` if it is no array.
  pub random_positions : Option (List Value)
  pub winner_count : ℕ
  pub snapshot_entry_count : ℕ

pub record WinnerPositionSelectionResult : Type 0 where
  pub positions : List ℤ
  pub supplied_position_count : ℕ
  pub duplicate_position_count : ℕ

unfoldable pub validate_selection_configuration : WinnerPositionSelectionInput → Outcome (Unit {0})
validate_selection_configuration input = do
  throw_if (ltb input.winner_count 1) (bad_request "winnerCount must be a positive integer")
  throw_if (ltb input.snapshot_entry_count 1)
      (conflict "Finalized snapshot contains no eligible tickets")
  throw_if (ltb input.snapshot_entry_count input.winner_count)
      (conflict "winnerCount exceeds the number of eligible snapshot entries")

abbrev pub max_safe_integer : ℕ
max_safe_integer = 9007199254740991

abbrev is_digit : ℕ → Bool
is_digit c = leb b'0' c && leb c b'9'

-- `/^[1-9]\d*$/.test(s)`
unfoldable pub is_positive_integer : List ℕ → Bool
is_positive_integer [] = false
is_positive_integer (c ∷ cs) = leb b'1' c && leb c b'9' && all_codes is_digit cs

-- `BigInt(s)` of decimal digits.
unfoldable pub decimal : ℕ → List ℕ → ℕ
decimal acc [] = acc
decimal acc (c ∷ cs) = decimal (acc * 10 + (c - b'0')) cs

unfoldable pub normalize_random_position : Value → Outcome ℤ
unfolding is_positive_integer decimal
normalize_random_position (bigint v) = ok v
normalize_random_position (number v) =
    if ltb_ℤ (pos 0) v && leb_ℤ v (pos max_safe_integer)
    then ok v
    else err (bad_request "Random position must be a positive integer")
normalize_random_position (text s) =
    if is_positive_integer (codes s)
    then ok (pos (decimal 0 (codes s)))
    else err (bad_request "Random position must be a positive integer")
normalize_random_position other = err (bad_request "Random position must be a positive integer")

-- `randomPositions.map(normalizeRandomPosition)`: the first value that is refused throws.
unfoldable pub normalize_all : List Value → Outcome (List ℤ)
normalize_all [] = ok []
normalize_all (v ∷ vs) = do p ← normalize_random_position v; ps ← normalize_all vs; ok (p ∷ ps)

abbrev pub contains : ℤ → List ℤ → Bool
contains p = any (λ q. q ==ℤ p)

-- `position < 1n || position > snapshotEntryCount`
abbrev pub is_outside : ℕ → ℤ → Bool
is_outside count p = ltb_ℤ p (pos 1) || ltb_ℤ (pos count) p

-- The loop over the positions. The set of the positions seen holds those of `unique`.
unfoldable pub collect : ℕ → ℕ → List ℤ → List ℤ → Outcome (List ℤ)
collect wanted count [] unique = ok unique
collect wanted count (p ∷ ps) unique =
    let skip = collect wanted count ps unique in
    let next = collect wanted count ps (unique ++ p ∷ []) in
    if is_outside count p
    then err (conflict "Random position is outside the finalized snapshot range")
    else if contains p unique
    then skip
    else if length (unique ++ p ∷ []) == wanted
    then ok (unique ++ p ∷ [])
    else next

-- The size of the set of the positions.
unfoldable pub distinct_count : List ℤ → List ℤ → ℕ
distinct_count seen [] = 0
distinct_count seen (p ∷ ps) =
    let old = distinct_count seen ps in
    let new = 1 + distinct_count (p ∷ seen) ps in if contains p seen then old else new

unfoldable pub select_winner_positions :
    WinnerPositionSelectionInput → Outcome WinnerPositionSelectionResult
unfolding validate_selection_configuration distinct_count
select_winner_positions input = do
  validate_selection_configuration input
  values ←
      or_throw input.random_positions (bad_request "Verified randomness positions must be an array")
  normalized ← normalize_all values
  unique ← collect input.winner_count input.snapshot_entry_count normalized []
  throw_if (ltb (length unique) input.winner_count)
      (conflict "Verified randomness contains too few unique valid positions")
  ok (record {
    positions = unique;
    supplied_position_count = length normalized;
    duplicate_position_count = length normalized - distinct_count [] normalized;
  })
