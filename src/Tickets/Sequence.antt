-- ===== src/Tickets/Sequence.antt =====
-- The sequence of a draw and the ranges handed out of it: ticket-allocation.service.ts.
use amazingchance.Base.{
  ℕ, ◌+◌, ◌-◌, ◌≤◌, ◌<◌, ◌≡◌, ◌⊎◌, refl, sym, subst, inl, inr, String, true, false, some, List, [],
  ◌∷◌, map, filter, any, update_where, head?, str_eq, str_eq_refl, eq_iff, All, Bool-cases,
  if◌then◌else◌, arith,
}
use amazingchance.Tickets.Allocation.{
  TicketAllocation, TicketSequence, TicketTables, of_draw, add_sequence, advance, returned,
}

-- The number that a draw's next ticket gets.
unfoldable pub next_number : String → List TicketSequence → ℕ
next_number draw_id [] = 1
next_number draw_id (s ∷ rows) =
    if of_draw draw_id s then s.next_number else next_number draw_id rows

-- How many numbers a draw's ranges hold.
unfoldable pub numbers_of : String → List TicketAllocation → ℕ
numbers_of draw_id [] = 0
numbers_of draw_id (a ∷ rows) =
    (if str_eq a.draw_id draw_id then a.end_number + 1 - a.start_number else 0)
    + numbers_of draw_id rows

-- Two ranges of one draw have no number in common.
abbrev pub AreApart : TicketAllocation → TicketAllocation → Type 0
AreApart a b =
    (str_eq a.draw_id b.draw_id ≡ false)
    ⊎ ((a.end_number < b.start_number) ⊎ (b.end_number < a.start_number))

abbrev pub AreDisjoint : List TicketAllocation → Type 0
AreDisjoint [] = Unit
AreDisjoint (a ∷ rows) = All (AreApart a) rows × AreDisjoint rows

-- A range with a number, all of them handed out.
abbrev pub IsHandedOut : List TicketSequence → TicketAllocation → Type 0
IsHandedOut sequences a =
    (1 ≤ a.start_number)
    × (a.start_number ≤ a.end_number)
    × (a.end_number < next_number a.draw_id sequences)

-- The ranges of each draw are disjoint and make up all numbers from 1 to the one before the next.
pub record IsValid (t : TicketTables) : Type 0 where
  pub handed_out : All (IsHandedOut t.sequences) t.allocations
  pub disjoint : AreDisjoint t.allocations
  pub tiled : (d : String) → numbers_of d t.allocations + 1 ≡ next_number d t.sequences

pub same_text : (a b : String) → str_eq a b ≡ true → a ≡ b
same_text a b h = (eq_iff a b).0 h

none_of_draw :
    (d : String) (rows : List TicketSequence)
    → any (of_draw d) rows ≡ false
    → next_number d rows ≡ 1
unfolding next_number
none_of_draw d [] h = refl
none_of_draw d (s ∷ rows) h = ground (arith, none_of_draw d rows)

-- A sequence that starts at 1 changes no draw's next number.
pub next_number-add_sequence :
    (d e : String) (rows : List TicketSequence)
    → next_number d (add_sequence e rows) ≡ next_number d rows
unfolding next_number add_sequence
next_number-add_sequence d e rows = elim (Bool-cases (any (of_draw e) rows)) [
  | inl there ↦ rw there refl
  | inr absent ↦ rw absent (elim (Bool-cases (str_eq e d)) [
    | inl same ↦ rw same (
        sym (
          none_of_draw d rows
            (subst (λ s. any (of_draw s) rows ≡ false) (same_text e d same) absent)))
    | inr other ↦ rw other refl
  ])
]

pub any-add_sequence :
    (e : String) (rows : List TicketSequence) → any (of_draw e) (add_sequence e rows) ≡ true
unfolding add_sequence
any-add_sequence e rows = elim (Bool-cases (any (of_draw e) rows)) [
  | inl there ↦ rw there there
  | inr absent ↦ rw (absent, str_eq_refl e) refl
]

module _ (e : String) (n : ℕ) where
  abbrev pub advanced : List TicketSequence → List TicketSequence
  advanced = update_where (of_draw e) (advance n)

  pub next_number-advanced :
      (rows : List TicketSequence)
      → any (of_draw e) rows ≡ true
      → next_number e (advanced rows) ≡ next_number e rows + n
  unfolding next_number
  next_number-advanced [] h = cc
  next_number-advanced (s ∷ rows) h = ground (arith, next_number-advanced rows)

  pub next_number-other :
      (d : String) (rows : List TicketSequence)
      → str_eq e d ≡ false
      → next_number d (advanced rows) ≡ next_number d rows
  unfolding next_number
  next_number-other d [] h = refl
  next_number-other d (s ∷ rows) h = elim (Bool-cases (str_eq s.draw_id e)) [
    | inl mine ↦
        let not_d : str_eq s.draw_id d ≡ false =
          subst (λ x. str_eq x d ≡ false) (sym (same_text s.draw_id e mine)) h in
        rw (mine, not_d) (next_number-other d rows h)
    | inr theirs ↦ ground (arith, next_number-other d rows h)
  ]

  pub head-returned :
      (rows : List TicketSequence)
      → any (of_draw e) rows ≡ true
      → head? (map (returned n) (filter (of_draw e) rows))
        ≡ some
            (record { start_number = next_number e rows - n; end_number = next_number e rows - 1 })
  unfolding next_number
  head-returned [] h = cc
  head-returned (s ∷ rows) h = elim (Bool-cases (str_eq s.draw_id e)) [
    | inl mine ↦ rw mine refl
    | inr theirs ↦ rw theirs (head-returned rows (rw theirs at h))
  ]

  pub any-advanced :
      (rows : List TicketSequence)
      → any (of_draw e) rows ≡ true
      → any (of_draw e) (advanced rows) ≡ true
  any-advanced [] h = cc
  any-advanced (s ∷ rows) h = ground (arith, any-advanced rows)

  pub next_number-advanced_le :
      (d : String) (rows : List TicketSequence)
      → any (of_draw e) rows ≡ true
      → next_number d rows ≤ next_number d (advanced rows)
  next_number-advanced_le d rows h = elim (Bool-cases (str_eq e d)) [
    | inl same ↦
        subst (λ x. next_number x rows ≤ next_number x (advanced rows)) (same_text e d same)
          (omega (arith, next_number-advanced rows h))
    | inr other ↦ omega (arith, next_number-other d rows other)
  ]
