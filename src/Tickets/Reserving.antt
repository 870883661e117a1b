-- ===== src/Tickets/Reserving.antt =====
-- What `reserveRange` of ticket-allocation.service.ts reads and leaves behind.
use amazingchance.Base.{
  ℕ, ◌+◌, ◌-◌, ◌≤◌, ◌<◌, ◌≡◌, refl, sym, ap, ap₂, subst, ◌∙◌, inl, inr, String, false, Option, none,
  some, List, [], ◌∷◌, map, filter, any, head?, str_eq, ltb, ℤ, pos, All, Bool-cases, arith, ok,
  ok_pair, ok-injective, >>=-eq-ok, or_throw, or_throw-eq-ok, throw_if, is_blank, some-injective,
}
use amazingchance.Tickets.Allocation.{
  ReserveTicketRangeInput, TicketAllocation, TicketSequence, TicketTables, ReserveTicketRangeResult,
  of_draw, validate_input, positive_safe, add_sequence, returned, advance_sequence, reserve_new,
  max_bigint, ReservedTicketRangeRow,
}
use amazingchance.Tickets.Sequence.{
  next_number, numbers_of, AreApart, IsHandedOut, IsValid, same_text, next_number-add_sequence,
  any-add_sequence, advanced, next_number-advanced, next_number-other, head-returned, any-advanced,
  next_number-advanced_le,
}

pub positive_safe-positive : (c : Option ℤ) {n : ℕ} → positive_safe c ≡ some n → 1 ≤ n
unfolding positive_safe
positive_safe-positive none h = cc
positive_safe-positive (some z) h = ground arith

pub validate_input-positive :
    (input : ReserveTicketRangeInput) {n : ℕ} → validate_input input ≡ ok n → 1 ≤ n
unfolding validate_input
validate_input-positive input h =
    let (_, _, h1) = >>=-eq-ok (throw_if (is_blank input.purchase_id) _) _ h in
    let (_, _, h2) = >>=-eq-ok (throw_if (is_blank input.draw_id) _) _ h1 in
    let (_, _, h3) = >>=-eq-ok (throw_if (is_blank input.correlation_id) _) _ h2 in
    positive_safe-positive input.ticket_count
      (or_throw-eq-ok (positive_safe input.ticket_count) _ h3)

pub positive_safe-count :
    (count : ℕ) {n : ℕ} → positive_safe (some (pos count)) ≡ some n → n ≡ count
unfolding positive_safe
positive_safe-count count h = ground arith

pub validate_input-count :
    (input : ReserveTicketRangeInput) (count : ℕ) {n : ℕ}
    → input.ticket_count ≡ some (pos count)
    → validate_input input ≡ ok n
    → n ≡ count
unfolding validate_input
validate_input-count input count {n} asks h =
    let (_, _, h1) = >>=-eq-ok (throw_if (is_blank input.purchase_id) _) _ h in
    let (_, _, h2) = >>=-eq-ok (throw_if (is_blank input.draw_id) _) _ h1 in
    let (_, _, h3) = >>=-eq-ok (throw_if (is_blank input.correlation_id) _) _ h2 in
    positive_safe-count count (
      subst (λ c. positive_safe c ≡ some n) asks
        (or_throw-eq-ok (positive_safe input.ticket_count) _ h3))

pub advance_sequence-advanced :
    (e : String) (n : ℕ) (rows : List TicketSequence)
    {p : List TicketSequence × List ReservedTicketRangeRow}
    → advance_sequence e n rows ≡ ok p
    → (p.0 ≡ advanced e n rows) × (p.1 ≡ map (returned n) (filter (of_draw e) (advanced e n rows)))
unfolding advance_sequence
advance_sequence-advanced e n rows h =
    elim (Bool-cases
      (any (λ s. ltb max_bigint s.next_number) (filter (of_draw e) (advanced e n rows)))) [
        | inl over ↦ cc (rw over at h)
        | inr fits ↦
            let same = sym (ok-injective (rw fits at h)) in (ap (λ q. q.0) same, ap (λ q. q.1) same)
      ]

module _ (new_id : String) (t : TicketTables) (input : ReserveTicketRangeInput) (n : ℕ) where
  abbrev pub e : String
  e = input.draw_id

  -- The row of a new reservation.
  abbrev pub reserved : TicketAllocation
  reserved = record {
    id = new_id;
    purchase_id = input.purchase_id;
    draw_id = e;
    start_number = next_number e t.sequences;
    end_number = next_number e t.sequences + n - 1;
    correlation_id = input.correlation_id;
  }

  pub reserve_new_lem :
      {u : TicketTables} {r : ReserveTicketRangeResult}
      → 1 ≤ n
      → reserve_new new_id t input n ≡ ok (u, r)
      → (u.allocations ≡ reserved ∷ t.allocations)
        × (u.sequences ≡ advanced e n (add_sequence e t.sequences))
        × (r ≡ record { allocation = reserved; already_allocated = false })
  unfolding reserve_new
  reserve_new_lem positive h =
      let rows = add_sequence e t.sequences in
      let (p, a, h1) = >>=-eq-ok (advance_sequence e n rows) _ h in
      let (fst, snd) = advance_sequence-advanced e n rows a in
      let (range, b, h2) = >>=-eq-ok (or_throw (head? p.1) _) _ h1 in
      let there = any-advanced e n rows (any-add_sequence e t.sequences) in
      let next : next_number e (advanced e n rows) ≡ next_number e t.sequences + n =
        next_number-advanced e n rows (any-add_sequence e t.sequences)
        ∙ ap (λ k. k + n) (next_number-add_sequence e e t.sequences) in
      let got = some-injective _ _ (
        sym (or_throw-eq-ok (head? p.1) _ b)
        ∙ ap head? snd
        ∙ head-returned e n (advanced e n rows) there) in
      let start : range.start_number ≡ next_number e t.sequences =
        omega (arith, ap (λ q. q.start_number) got, next) in
      let end : range.end_number ≡ next_number e t.sequences + n - 1 =
        omega (arith, ap (λ q. q.end_number) got, next) in
      let (tables, result) = ok_pair h2 in
      let row = ap₂ (λ (a b : ℕ). record reserved { start_number = a; end_number = b }) start end in
      (
        sym (ap (λ q. q.allocations) tables) ∙ ap (λ a. a ∷ t.allocations) row,
        sym (ap (λ q. q.sequences) tables) ∙ fst,
        sym result ∙ ap (λ a. record { allocation = a; already_allocated = false }) row,
      )

  pub numbers_of-reserved :
      (d : String)
      → 1 ≤ n
      → 1 ≤ next_number e t.sequences
      → numbers_of d t.allocations + 1 ≡ next_number d t.sequences
      → numbers_of d (reserved ∷ t.allocations) + 1
        ≡ next_number d (advanced e n (add_sequence e t.sequences))
  unfolding numbers_of
  numbers_of-reserved d positive some_number tiled = elim (Bool-cases (str_eq e d)) [
    | inl same ↦
        let there = any-add_sequence e t.sequences in
        let grown =
          subst
            (λ x.
              next_number x (advanced e n (add_sequence e t.sequences))
              ≡ next_number x (add_sequence e t.sequences) + n)
            (same_text e d same) (next_number-advanced e n (add_sequence e t.sequences) there) in
        let first =
          subst (λ x. next_number e t.sequences ≡ next_number x t.sequences) (same_text e d same)
            refl in
        rw same (
          omega (
            arith,
            grown,
            next_number-add_sequence d e t.sequences,
            first,
            tiled,
            positive,
            some_number,
          ))
    | inr other ↦ rw other (
        omega (
          arith,
          tiled,
          next_number-other e n d (add_sequence e t.sequences) other,
          next_number-add_sequence d e t.sequences,
        ))
  ]

  pub still-IsHandedOut :
      (rows : List TicketAllocation)
      → All (IsHandedOut t.sequences) rows
      → All (IsHandedOut (advanced e n (add_sequence e t.sequences))) rows
  still-IsHandedOut [] h = tt
  still-IsHandedOut (a ∷ rows) h =
      let (one, order, below) = h.0 in
      (
        (
          one,
          order,
          omega (
            arith,
            below,
            next_number-add_sequence a.draw_id e t.sequences,
            next_number-advanced_le e n a.draw_id (add_sequence e t.sequences)
                (any-add_sequence e t.sequences),
          ),
        ),
        still-IsHandedOut rows h.1,
      )

  pub reserved-AreApart :
      (rows : List TicketAllocation)
      → All (IsHandedOut t.sequences) rows
      → All (AreApart reserved) rows
  reserved-AreApart [] h = tt
  reserved-AreApart (a ∷ rows) h =
      let (one, order, below) = h.0 in
      (
        elim (Bool-cases (str_eq e a.draw_id)) [
          | inl same ↦ inr (
              inr (
                subst (λ x. a.end_number < next_number x t.sequences)
                  (sym (same_text e a.draw_id same)) below))
          | inr other ↦ inl other
        ],
        reserved-AreApart rows h.1,
      )

  pub reserved-IsValid :
      (u : TicketTables)
      → 1 ≤ n
      → IsValid t
      → u.allocations ≡ reserved ∷ t.allocations
      → u.sequences ≡ advanced e n (add_sequence e t.sequences)
      → IsValid u
  reserved-IsValid u positive v rows_eq sequences_eq =
      let some_number : 1 ≤ next_number e t.sequences = omega (arith, v.tiled e) in
      let there = any-add_sequence e t.sequences in
      let next = next_number-advanced e n (add_sequence e t.sequences) there in
      record {
        handed_out = subst (All (IsHandedOut u.sequences)) (sym rows_eq) (
            subst (λ s. All (IsHandedOut s) (reserved ∷ t.allocations)) (sym sequences_eq)
              (
                (
                  some_number,
                  omega arith,
                  omega (arith, next, next_number-add_sequence e e t.sequences, positive),
                ),
                still-IsHandedOut t.allocations v.handed_out,
              ));
        disjoint = rw rows_eq (reserved-AreApart t.allocations v.handed_out, v.disjoint);
        tiled = λ d.
            rw (rows_eq, sequences_eq) (numbers_of-reserved d positive some_number (v.tiled d));
      }
