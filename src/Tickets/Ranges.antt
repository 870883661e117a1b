-- ===== src/Tickets/Ranges.antt =====
-- `reserveRange` of ticket-allocation.service.ts on the ranges of each draw.
use amazingchance.Base.{
  ℕ, ◌+◌, ◌-◌, ◌≡◌, refl, ap, subst, inl, inr, String, true, false, none, some, find, str_eq_refl,
  pos, arith, Outcome, ok, ok_pair, >>=-eq-ok, if_found_cases, state_after, Outcome-cases,
}
use amazingchance.Tickets.Allocation.{
  ReserveTicketRangeInput, TicketTables, ReserveTicketRangeResult, of_purchase, validate_input,
  reserve_new, reserve_range,
}
use amazingchance.Tickets.Sequence.{IsValid}
use amazingchance.Tickets.Reserving.{
  validate_input-positive, validate_input-count, e, reserve_new_lem, reserved-IsValid,
}

-- `reserveRange` keeps the tables in order: in each draw the ranges are disjoint, and together hold
-- all the numbers from 1 to the one before the next, whether it hands out a range, returns the one
-- that the purchase has, or throws and is rolled back.
pub reserve_range-IsValid :
    (new_id : String) (t : TicketTables) (input : ReserveTicketRangeInput)
    → IsValid t
    → IsValid (state_after t (reserve_range new_id t input))
unfolding reserve_range
reserve_range-IsValid new_id t input v = elim (Outcome-cases (reserve_range new_id t input)) [
  | inr (x, e) ↦ rw e v
  | inl ((u, r), e) ↦
      let (n, valid, h) = >>=-eq-ok (validate_input input) _ e in
      let positive = validate_input-positive input valid in
      let kept : IsValid u =
        if_found_cases
          (λ (m : Outcome (TicketTables × ReserveTicketRangeResult)). m ≡ ok (u, r) → IsValid u)
          (find (of_purchase input.purchase_id) t.allocations)
          (λ existing. ok (t, record { allocation = existing; already_allocated = true }))
          (reserve_new new_id t input n) (λ existing found k. subst IsValid (ok_pair k).0 v)
          (λ absent k.
            let (rows_eq, sequences_eq, _) = reserve_new_lem new_id t input n positive k in
            reserved-IsValid new_id t input n u positive v rows_eq sequences_eq)
          h in
      rw e kept
]

-- After a new range was handed out to a purchase, each further valid request of that purchase, also
-- for another count or draw, returns the same range and leaves the tables as they are.
pub reserve_range-retry :
    (new_id other_id : String) (t u : TicketTables) (input again : ReserveTicketRangeInput)
    {r : ReserveTicketRangeResult} {n : ℕ}
    → reserve_range new_id t input ≡ ok (u, r)
    → find (of_purchase input.purchase_id) t.allocations ≡ none
    → again.purchase_id ≡ input.purchase_id
    → validate_input again ≡ ok n
    → reserve_range other_id u again
      ≡ ok (u, record { allocation = r.allocation; already_allocated = true })
unfolding reserve_range
reserve_range-retry new_id other_id t u input again {r} {n} h absent same valid =
    let (m, counted, h1) = >>=-eq-ok (validate_input input) _ h in
    let positive = validate_input-positive input counted in
    let (rows_eq, _, result) = reserve_new_lem new_id t input m positive (rw absent at h1) in
    let found : find (of_purchase again.purchase_id) u.allocations ≡ some r.allocation =
      rw (same, rows_eq, result, str_eq_refl input.purchase_id) refl in
    rw (valid, found) refl

-- A purchase without a range gets as many numbers as it asks for, from the next number of its draw on,
-- and has the range from then on.
pub reserve_range-new :
    (new_id : String) (t : TicketTables) (input : ReserveTicketRangeInput) (count : ℕ)
    {u : TicketTables} {r : ReserveTicketRangeResult}
    → input.ticket_count ≡ some (pos count)
    → find (of_purchase input.purchase_id) t.allocations ≡ none
    → reserve_range new_id t input ≡ ok (u, r)
    → (find (of_purchase input.purchase_id) u.allocations ≡ some r.allocation)
      × (r.already_allocated ≡ false)
      × (r.allocation.end_number + 1 - r.allocation.start_number ≡ count)
unfolding reserve_range
reserve_range-new new_id t input count {u} {r} asks absent h =
    let (m, counted, h1) = >>=-eq-ok (validate_input input) _ h in
    let positive = validate_input-positive input counted in
    let (rows_eq, _, result) = reserve_new_lem new_id t input m positive (rw absent at h1) in
    let m_is : m ≡ count = validate_input-count input count asks counted in
    (
      rw (rows_eq, result, str_eq_refl input.purchase_id) refl,
      ap (λ (x : ReserveTicketRangeResult). x.already_allocated) result,
      rw result (omega (arith, positive, m_is)),
    )
