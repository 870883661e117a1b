-- ===== src/Winners/Order.antt =====
-- The positions that `selectWinnerPositions` of winner-selection.util.ts returns.
use amazingchance.Base.{
  ℕ, zero, suc, ◌-◌, ◌≤◌, ℤ, pos, ◌≤ℤ◌, ◌==ℤ◌, filter-All, ◌≡◌, refl, sym, ap, ap₂, subst, ◌∙◌, inl,
  inr, Bool, true, false, some, List, [], ◌∷◌, ◌++◌, length, filter, take, ltb, ◌==◌,
  length-take-le, All, All-take, All-filter, All-append, Misses, arith, Bool-cases, ok,
  ok-injective, >>=-eq-ok, or_throw, throw_if, throw_if-eq-ok, or_throw-eq-ok, length-take_enough,
}
use amazingchance.Winners.Selection.{
  Value, WinnerPositionSelectionInput, WinnerPositionSelectionResult,
  validate_selection_configuration, normalize_all, contains, is_outside, collect, distinct_count,
  select_winner_positions,
}
use amazingchance.Winners.Collecting.{
  other_than, first_occurrences, unseen, collect_step, collect-unseen, skipped, finished, went_on,
}

-- No position twice.
abbrev pub AreDistinct : List ℤ → Type 0
AreDistinct [] = Unit {0}
AreDistinct (p ∷ ps) = Misses (λ q. q ==ℤ p) ps × AreDistinct ps

filter_other-Misses : (p : ℤ) (ps : List ℤ) → Misses (λ q. q ==ℤ p) (filter (other_than p) ps)
filter_other-Misses p [] = tt
filter_other-Misses p (q ∷ ps) = elim (Bool-cases (q ==ℤ p)) [
  | inl same ↦ rw same (filter_other-Misses p ps)
  | inr apart ↦ rw apart (apart, filter_other-Misses p ps)
]

filter-AreDistinct : (f : ℤ → Bool) (ps : List ℤ) → AreDistinct ps → AreDistinct (filter f ps)
filter-AreDistinct f [] h = tt
filter-AreDistinct f (p ∷ ps) h = elim (Bool-cases (f p)) [
  | inl kept ↦ rw kept (All-filter (λ q. (q ==ℤ p) ≡ false) f ps h.0, filter-AreDistinct f ps h.1)
  | inr dropped ↦ rw dropped (filter-AreDistinct f ps h.1)
]

first_occurrences-AreDistinct : (ps : List ℤ) → AreDistinct (first_occurrences ps)
unfolding first_occurrences
first_occurrences-AreDistinct [] = tt
first_occurrences-AreDistinct (p ∷ ps) = (
  filter_other-Misses p (first_occurrences ps),
  filter-AreDistinct (other_than p) (first_occurrences ps) (first_occurrences-AreDistinct ps),
)

take-AreDistinct : (n : ℕ) (ps : List ℤ) → AreDistinct ps → AreDistinct (take n ps)
take-AreDistinct zero ps h = tt
take-AreDistinct (suc n) [] h = tt
take-AreDistinct (suc n) (p ∷ ps) h =
    (All-take (λ q. (q ==ℤ p) ≡ false) n ps h.0, take-AreDistinct n ps h.1)

-- Between 1 and the number of entries.
abbrev pub IsInRange : ℕ → ℤ → Type 0
IsInRange count p = (pos 1 ≤ℤ p) × (p ≤ℤ pos count)

collect-IsInRange :
    (wanted count : ℕ) (ps u : List ℤ) {r : List ℤ}
    → All (IsInRange count) u
    → collect wanted count ps u ≡ ok r
    → All (IsInRange count) r
unfolding collect
collect-IsInRange wanted count [] u v h = subst (All (IsInRange count)) (ok-injective h) v
collect-IsInRange wanted count (p ∷ ps) u v h =
    let (inside, step) = collect_step wanted count p ps u h in
    let v' : All (IsInRange count) (u ++ p ∷ []) =
      All-append (IsInRange count) u (p ∷ []) v (ground arith) in
    elim step [
      | skipped seen again ↦ collect-IsInRange wanted count ps u v again
      | finished new full e ↦ subst (All (IsInRange count)) (sym e) v'
      | went_on new more again ↦ collect-IsInRange wanted count ps (u ++ p ∷ []) v' again
    ]

-- A loop over positions in range does not throw.
collect_total :
    (wanted count : ℕ) (ps u : List ℤ)
    → All (IsInRange count) ps
    → (r : List ℤ) × (collect wanted count ps u ≡ ok r)
unfolding collect
collect_total wanted count [] u h = (u, refl)
collect_total wanted count (p ∷ ps) u h =
    let (skip, skip_eq) = collect_total wanted count ps u h.1 in
    let (next, next_eq) = collect_total wanted count ps (u ++ p ∷ []) h.1 in
    let inside : is_outside count p ≡ false = ground arith in
    rw inside (elim (Bool-cases (contains p u)) [
      | inl seen ↦ rw seen (skip, skip_eq)
      | inr new ↦ rw new (elim (Bool-cases (length (u ++ p ∷ []) == wanted)) [
        | inl full ↦ rw full (u ++ p ∷ [], refl)
        | inr more ↦ rw more (next, next_eq)
      ])
    ])

unseen_nothing : (ps : List ℤ) → unseen [] ps ≡ first_occurrences ps
unseen_nothing ps = filter-All (λ q. true) (first_occurrences ps) (All_true (first_occurrences ps))
  where
    All_true : (qs : List ℤ) → All (λ q. ◌≡◌ {A = Bool} true true) qs
    All_true [] = tt
    All_true (q ∷ qs) = (refl, All_true qs)

-- The winners' positions among the provider's positions `supplied`.
pub record IsSelection (wanted count : ℕ) (supplied positions : List ℤ) : Type 0 where
  pub in_order : positions ≡ take wanted (first_occurrences supplied)
  pub length_eq : length positions ≡ wanted
  pub distinct : AreDistinct positions
  pub in_range : All (IsInRange count) positions

module _ (input : WinnerPositionSelectionInput) where
  abbrev wanted : ℕ
  wanted = input.winner_count

  abbrev count : ℕ
  count = input.snapshot_entry_count

  collect-IsSelection :
      (normalized unique : List ℤ)
      → 1 ≤ wanted
      → collect wanted count normalized [] ≡ ok unique
      → wanted ≤ length unique
      → IsSelection wanted count normalized unique
  collect-IsSelection normalized unique some_winner h enough =
      let e : unique ≡ take wanted (first_occurrences normalized) =
        collect-unseen wanted count normalized [] some_winner h
        ∙ ap₂ take (omega arith) (unseen_nothing normalized) in
      record {
        in_order = e;
        length_eq =
            omega
              (arith, enough, ap length e, length-take-le wanted (first_occurrences normalized));
        distinct = subst AreDistinct (sym e) (
            take-AreDistinct wanted (first_occurrences normalized)
              (first_occurrences-AreDistinct normalized));
        in_range = collect-IsInRange wanted count normalized [] tt h;
      }

  configured :
      {t : Unit {0}}
      → validate_selection_configuration input ≡ ok t
      → (1 ≤ wanted) × (wanted ≤ count)
  unfolding validate_selection_configuration
  configured h = (ground arith, ground arith)

  valid_configuration : 1 ≤ wanted → wanted ≤ count → validate_selection_configuration input ≡ ok tt
  unfolding validate_selection_configuration
  valid_configuration some_winner fits = ground arith

  -- A selection that returns has found the configured number of winners, all different and among
  -- the entries: the first distinct positions that the provider supplied, in its order.
  pub select_winner_positions-IsSelection :
      {r : WinnerPositionSelectionResult}
      → select_winner_positions input ≡ ok r
      → (values : List Value) × (normalized : List ℤ) × (input.random_positions ≡ some values)
        × (normalize_all values ≡ ok normalized)
        × IsSelection wanted count normalized r.positions
  unfolding select_winner_positions
  select_winner_positions-IsSelection {r} h =
      let (_, valid, h0) = >>=-eq-ok (validate_selection_configuration input) _ h in
      let (values, is_array, h1) = >>=-eq-ok (or_throw input.random_positions _) _ h0 in
      let (normalized, numbers, h2) = >>=-eq-ok (normalize_all values) _ h1 in
      let (unique, collected, h3) = >>=-eq-ok (collect wanted count normalized []) _ h2 in
      let (_, enough, h4) = >>=-eq-ok (throw_if (ltb (length unique) wanted) _) _ h3 in
      let not_few = throw_if-eq-ok (ltb (length unique) wanted) _ enough in
      let selected =
        collect-IsSelection normalized unique (configured valid).0 collected (ground arith) in
      (
        values,
        normalized,
        or_throw-eq-ok input.random_positions _ is_array,
        numbers,
        subst (λ x. IsSelection wanted count normalized x.positions) (ok-injective h4) selected,
      )

  -- A valid configuration and an array of positions in range, with as many different ones as there
  -- are winners, is never refused.
  pub select_winner_positions_total :
      (values : List Value) (normalized : List ℤ)
      → 1 ≤ wanted
      → wanted ≤ count
      → input.random_positions ≡ some values
      → normalize_all values ≡ ok normalized
      → All (IsInRange count) normalized
      → wanted ≤ length (first_occurrences normalized)
      → (r : WinnerPositionSelectionResult) × (select_winner_positions input ≡ ok r)
  unfolding select_winner_positions
  select_winner_positions_total values normalized some_winner fits is_array numbers in_range
        enough =
      let (unique, collected) = collect_total wanted count normalized [] in_range in
      let e : unique ≡ take wanted (first_occurrences normalized) =
        collect-unseen wanted count normalized [] some_winner collected
        ∙ ap₂ take (omega arith) (unseen_nothing normalized) in
      let long : ltb (length unique) wanted ≡ false =
        ground
          (arith, ap length e, length-take_enough wanted (first_occurrences normalized) enough) in
      (
        record {
          positions = unique;
          supplied_position_count = length normalized;
          duplicate_position_count = length normalized - distinct_count [] normalized;
        },
        rw (valid_configuration some_winner fits, is_array, numbers, collected, long) refl,
      )
