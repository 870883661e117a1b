-- ===== src/Randomness/Selection.antt =====
-- The numbers that `validateProviderResult` of randomness-evidence.service.ts accepts, and what
-- `selectWinnerPositions` of winner-selection.util.ts makes of them.
use amazingchance.Base.{
  ℕ, ◌≤◌, ℤ, ◌==ℤ◌, ◌≡◌, refl, sym, ap, subst, ◌∙◌, true, false, Option, none, some, some-injective,
  List, [], ◌∷◌, map, length, length-map, every, any, filter-All, take, ==_iff, All, Misses, arith,
  ok, ok-injective,
}
use amazingchance.Winners.Selection.{
  Value, number, bigint, text, other, WinnerPositionSelectionInput, WinnerPositionSelectionResult,
  normalize_random_position, normalize_all, select_winner_positions,
}
use amazingchance.Winners.Collecting.{other_than, first_occurrences, ==ℤ_comm}
use amazingchance.Winners.Order.{
  AreDistinct, IsInRange, select_winner_positions-IsSelection, select_winner_positions_total,
}
use amazingchance.Randomness.Provider.{
  RandomnessBinding, SignedResult, is_position, same_number, are_different, positions_valid,
  validate_provider_result,
}

-- Numbers in range, read without an error.
record AreRead (max : ℕ) (values : List Value) : Type 0 where
  numbers : List ℤ
  values_eq : values ≡ map number numbers
  read : normalize_all values ≡ ok numbers
  in_range : All (IsInRange max) numbers

every-AreRead :
    (max : ℕ) (values : List Value) → every (is_position max) values ≡ true → AreRead max values
unfolding normalize_all normalize_random_position
every-AreRead max [] h = record { numbers = []; values_eq = refl; read = refl; in_range = tt }
every-AreRead max (number v ∷ vs) h =
    let rest = every-AreRead max vs (ground arith) in
    record {
      numbers = v ∷ rest.numbers;
      values_eq = ap (◌∷◌ (number v)) rest.values_eq;
      read = ground (arith, rest.read);
      in_range = (ground arith, rest.in_range);
    }
every-AreRead max (bigint v ∷ vs) h = absurd (cc h)
every-AreRead max (text s ∷ vs) h = absurd (cc h)
every-AreRead max (other ∷ vs) h = absurd (cc h)

not_any-Misses :
    (p : ℤ) (ps : List ℤ)
    → any (same_number (number p)) (map number ps) ≡ false
    → Misses (λ q. q ==ℤ p) ps
not_any-Misses p [] h = tt
not_any-Misses p (q ∷ ps) h = (==ℤ_comm q p ∙ ground arith, not_any-Misses p ps (ground arith))

are_different-AreDistinct : (ps : List ℤ) → are_different (map number ps) ≡ true → AreDistinct ps
unfolding are_different
are_different-AreDistinct [] h = tt
are_different-AreDistinct (p ∷ ps) h =
    (not_any-Misses p ps (ground arith), are_different-AreDistinct ps (ground arith))

others : (p : ℤ) (ps : List ℤ) → Misses (λ q. q ==ℤ p) ps → All (λ q. other_than p q ≡ true) ps
others p [] h = tt
others p (q ∷ ps) h = (rw h.0 refl, others p ps h.1)

first_occurrences-AreDistinct : (ps : List ℤ) → AreDistinct ps → first_occurrences ps ≡ ps
unfolding first_occurrences
first_occurrences-AreDistinct [] h = refl
first_occurrences-AreDistinct (p ∷ ps) h =
    rw (first_occurrences-AreDistinct ps h.1)
      (ap (◌∷◌ p) (filter-All (other_than p) ps (others p ps h.0)))

take-length {ℓ} : {A : Type ℓ} (xs : List A) → take (length xs) xs ≡ xs
take-length [] = refl
take-length (x ∷ xs) = ap (◌∷◌ x) (take-length xs)

-- The input of the selection.
abbrev pub selection_input : Option (List Value) → ℕ → ℕ → WinnerPositionSelectionInput
selection_input positions count max = record {
  random_positions = positions;
  winner_count = count;
  snapshot_entry_count = max;
}

valid_selects :
    (values : List Value) (count max : ℕ)
    → 1 ≤ count
    → count ≤ max
    → positions_valid (some values) count max ≡ true
    → (r : WinnerPositionSelectionResult) × (select_winner_positions
          (selection_input (some values) count max)
        ≡ ok r)
      × (map number r.positions ≡ values)
unfolding positions_valid
valid_selects values count max some_winner fits h =
    let input = selection_input (some values) count max in
    let counted : length values ≡ count = (==_iff (length values) count).0 (ground arith) in
    let read = every-AreRead max values (ground arith) in
    let differ : are_different values ≡ true = ground arith in
    let distinct =
      are_different-AreDistinct read.numbers
        (subst (λ vs. are_different vs ≡ true) read.values_eq differ) in
    let all = first_occurrences-AreDistinct read.numbers distinct in
    let size : length read.numbers ≡ count =
      sym (length-map number read.numbers) ∙ ap length (sym read.values_eq) ∙ counted in
    let (r, selects) =
      select_winner_positions_total input values read.numbers some_winner fits refl read.read
        read.in_range (omega (arith, size, ap length all)) in
    let (others, normalized, is_array, numbers, selection) =
      select_winner_positions-IsSelection input selects in
    let same_values = some-injective _ _ is_array in
    let same : normalized ≡ read.numbers =
      ok-injective (sym numbers ∙ ap normalize_all (sym same_values) ∙ read.read) in
    let positions : r.positions ≡ read.numbers =
      selection.in_order
      ∙ ap (λ ns. take count (first_occurrences ns)) same
      ∙ ap (take count) all
      ∙ ap (λ n. take n read.numbers) (sym size)
      ∙ take-length read.numbers in
    (r, selects, ap (map number) positions ∙ sym read.values_eq)

-- A response that passes the validation has as many different positions in range as there are winners,
-- so that the selection takes all of them, in their order.
pub validate_provider_result-selects :
    (signed : SignedResult) (binding : RandomnessBinding) (count max : ℕ)
    → 1 ≤ count
    → count ≤ max
    → validate_provider_result signed binding count max ≡ true
    → (r : WinnerPositionSelectionResult) × (select_winner_positions
          (selection_input signed.random.positions count max)
        ≡ ok r)
      × (some (map number r.positions) ≡ signed.random.positions)
unfolding validate_provider_result
validate_provider_result-selects signed binding count max some_winner fits h =
    go signed.random.positions (ground arith)
  where
    nothing : positions_valid none count max ≡ true → ⊥
    nothing valid = unfold positions_valid in cc valid

    go :
        (positions : Option (List Value))
        → positions_valid positions count max ≡ true
        → (r : WinnerPositionSelectionResult) × (select_winner_positions
              (selection_input positions count max)
            ≡ ok r)
          × (some (map number r.positions) ≡ positions)
    go none valid = absurd (nothing valid)
    go (some values) valid =
        let (r, selects, e) = valid_selects values count max some_winner fits valid in
        (r, selects, ap some e)
