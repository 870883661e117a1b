-- ===== src/Winners/Tests.antt =====
-- Two winners among three tickets, and the theorems at them.
use amazingchance.Winners.Collecting.{first_occurrences}
use amazingchance.Base.{
  ℤ, pos, ◌≡◌, refl, some, List, [], ◌∷◌, ok, err, conflict, arith, ◌≤◌, length, All,
}
use amazingchance.Winners.Selection.{
  Value, bigint, number, text, WinnerPositionSelectionInput, WinnerPositionSelectionResult,
  normalize_all, validate_selection_configuration, normalize_random_position, is_positive_integer,
  decimal, collect, distinct_count, select_winner_positions,
}
use amazingchance.Winners.Order.{
  IsSelection, IsInRange, select_winner_positions-IsSelection, IsInRange,
  select_winner_positions_total,
}

abbrev values : List Value
values = number (pos 3) ∷ text "3" ∷ bigint (pos 1) ∷ number (pos 2) ∷ []

abbrev numbers : List ℤ
numbers = pos 3 ∷ pos 3 ∷ pos 1 ∷ pos 2 ∷ []

abbrev input : WinnerPositionSelectionInput
input = record { random_positions = some values; winner_count = 2; snapshot_entry_count = 3 }

-- The second 3 is passed over, and the 2 is not needed.
abbrev result : WinnerPositionSelectionResult
result = record {
  positions = pos 3 ∷ pos 1 ∷ [];
  supplied_position_count = 4;
  duplicate_position_count = 1;
}

numbers_read : normalize_all values ≡ ok numbers
unfolding normalize_all normalize_random_position is_positive_integer decimal
numbers_read = refl

selected : select_winner_positions input ≡ ok result
unfolding select_winner_positions validate_selection_configuration normalize_all
    normalize_random_position is_positive_integer decimal collect distinct_count
selected = refl

outside :
    select_winner_positions (record input { random_positions = some (number (pos 4) ∷ values) })
    ≡ err (conflict "Random position is outside the finalized snapshot range")
unfolding select_winner_positions validate_selection_configuration normalize_all
    normalize_random_position is_positive_integer decimal collect
outside = refl

select_winner_positions-IsSelection_example :
    (values : List Value) × (normalized : List ℤ) × (input.random_positions ≡ some values)
    × (normalize_all values ≡ ok normalized)
    × IsSelection 2 3 normalized result.positions
select_winner_positions-IsSelection_example = select_winner_positions-IsSelection input selected

numbers-IsInRange : All (IsInRange 3) numbers
numbers-IsInRange = (
  (omega arith, omega arith),
  ((omega arith, omega arith), ((omega arith, omega arith), ((omega arith, omega arith), tt))),
)

four_first : 2 ≤ length (first_occurrences numbers)
unfolding first_occurrences
four_first = omega arith

select_winner_positions_total_example :
    (r : WinnerPositionSelectionResult) × (select_winner_positions input ≡ ok r)
select_winner_positions_total_example =
    select_winner_positions_total input values numbers (omega arith) (omega arith) refl numbers_read
      numbers-IsInRange four_first
