-- ===== src/Tickets/Tests.antt =====
-- Two purchases of one draw, and the theorems at them.
use amazingchance.Base.{
  ◌≡◌, refl, pos, true, false, some, [], ◌∷◌, ok, err, range_error, state_after, is_blank, String,
  ◌+◌,
}
use amazingchance.Tickets.Allocation.{
  ReserveTicketRangeInput, TicketAllocation, TicketTables, validate_input, positive_safe,
  add_sequence, advance_sequence, reserve_new, reserve_range,
}
use amazingchance.Tickets.Sequence.{IsValid, next_number, numbers_of}
use amazingchance.Tickets.Ranges.{reserve_range-IsValid, reserve_range-retry}

abbrev three : ReserveTicketRangeInput
three = record {
  purchase_id = "p1";
  draw_id = "d1";
  ticket_count = some (pos 3);
  correlation_id = "c1";
}

abbrev no_tables : TicketTables
no_tables = record { allocations = []; sequences = [] }

abbrev first_three : TicketAllocation
first_three = record {
  id = "a1";
  purchase_id = "p1";
  draw_id = "d1";
  start_number = 1;
  end_number = 3;
  correlation_id = "c1";
}

abbrev with_three : TicketTables
with_three = record {
  allocations = first_three ∷ [];
  sequences = record { draw_id = "d1"; next_number = 4 } ∷ [];
}

abbrev four_to_eight : TicketAllocation
four_to_eight = record {
  id = "a2";
  purchase_id = "p2";
  draw_id = "d1";
  start_number = 4;
  end_number = 8;
  correlation_id = "c1";
}

abbrev five : ReserveTicketRangeInput
five = record three { purchase_id = "p2"; ticket_count = some (pos 5) }

reserved_three :
    reserve_range "a1" no_tables three
    ≡ ok (with_three, record { allocation = first_three; already_allocated = false })
unfolding reserve_range validate_input positive_safe reserve_new add_sequence advance_sequence
    is_blank
reserved_three = refl

reserved_five : state_after with_three (reserve_range "a2" with_three five) ≡ record {
  allocations = four_to_eight ∷ first_three ∷ [];
  sequences = record { draw_id = "d1"; next_number = 9 } ∷ [];
}
unfolding reserve_range validate_input positive_safe reserve_new add_sequence advance_sequence
    is_blank
reserved_five = refl

none_at_all :
    reserve_range "a1" no_tables (record three { ticket_count = some (pos 0) })
    ≡ err (range_error "ticketCount must be a positive safe integer")
unfolding reserve_range validate_input positive_safe is_blank
none_at_all = refl

nothing_tiled : (d : String) → numbers_of d [] + 1 ≡ next_number d []
unfolding next_number numbers_of
nothing_tiled d = refl

no_tables-IsValid : IsValid no_tables
no_tables-IsValid = record { handed_out = tt; disjoint = tt; tiled = nothing_tiled }

three_valid : validate_input three ≡ ok 3
unfolding validate_input positive_safe is_blank
three_valid = refl

reserve_range-IsValid_example : IsValid (state_after no_tables (reserve_range "a1" no_tables three))
reserve_range-IsValid_example = reserve_range-IsValid "a1" no_tables three no_tables-IsValid

reserve_range-retry_example :
    reserve_range "a3" with_three three
    ≡ ok (with_three, record { allocation = first_three; already_allocated = true })
reserve_range-retry_example =
    reserve_range-retry "a1" "a3" no_tables with_three three three reserved_three refl refl
      three_valid
