-- ===== src/Tickets/Allocation.antt =====
-- TicketAllocationService of ticket-allocation.service.ts. The two tables that its raw SQL reads and
-- writes are lists of rows; the id of a new row, which the database makes, is an argument.
use amazingchance.Base.{
  ℕ, ◌+◌, ◌-◌, ℤ, pos, pos_part, leb_ℤ, String, Bool, true, false, ◌&&◌, Option, none, some, List,
  ◌∷◌, filter, find, any, update_where, map, head?, is_blank, str_eq, ltb, if◌then◌else◌, Outcome,
  ok, err, range_error, plain_error, ◌>>=◌, ◌>>◌, throw_if, or_throw, if_found,
}

pub record ReserveTicketRangeInput : Type 0 where
  pub purchase_id : String
  pub draw_id : String
  -- A number of JavaScript: `none` if it is no integer.
  pub ticket_count : Option ℤ
  pub correlation_id : String

pub record TicketAllocation : Type 0 where
  pub id : String
  pub purchase_id : String
  pub draw_id : String
  pub start_number : ℕ
  pub end_number : ℕ
  pub correlation_id : String

pub record TicketSequence : Type 0 where
  pub draw_id : String
  pub next_number : ℕ

pub record TicketTables : Type 0 where
  pub allocations : List TicketAllocation
  pub sequences : List TicketSequence

pub record ReserveTicketRangeResult : Type 0 where
  pub allocation : TicketAllocation
  pub already_allocated : Bool

pub record ReservedTicketRangeRow : Type 0 where
  pub start_number : ℕ
  pub end_number : ℕ

abbrev pub of_purchase : String → TicketAllocation → Bool
of_purchase purchase_id a = str_eq a.purchase_id purchase_id

abbrev pub of_draw : String → TicketSequence → Bool
of_draw draw_id s = str_eq s.draw_id draw_id

-- `Number.isSafeInteger(n) && n > 0`, and the number.
unfoldable pub positive_safe : Option ℤ → Option ℕ
positive_safe none = none
positive_safe (some n) =
    if leb_ℤ (pos 1) n && leb_ℤ n (pos 9007199254740991) then some (pos_part n) else none

-- `validateInput`, with the count that it lets pass.
unfoldable pub validate_input : ReserveTicketRangeInput → Outcome ℕ
unfolding positive_safe
validate_input input = do
  throw_if (is_blank input.purchase_id)
      (plain_error "purchaseId is required for ticket range reservation")
  throw_if (is_blank input.draw_id) (plain_error "drawId is required for ticket range reservation")
  throw_if (is_blank input.correlation_id)
      (plain_error "correlationId is required for ticket range reservation")
  or_throw (positive_safe input.ticket_count)
      (range_error "ticketCount must be a positive safe integer")

-- `INSERT INTO "ticket_sequences" … ON CONFLICT ("drawId") DO NOTHING`
unfoldable pub add_sequence : String → List TicketSequence → List TicketSequence
add_sequence draw_id rows =
    if any (of_draw draw_id) rows
    then rows
    else record { draw_id = draw_id; next_number = 1 } ∷ rows

abbrev pub advance : ℕ → TicketSequence → TicketSequence
advance ticket_count s = record s { next_number = s.next_number + ticket_count }

-- What `RETURNING` gives of an updated row.
abbrev pub returned : ℕ → TicketSequence → ReservedTicketRangeRow
returned ticket_count s = record {
  start_number = s.next_number - ticket_count;
  end_number = s.next_number - 1;
}

-- The largest `bigint` of the database.
abbrev pub max_bigint : ℕ
max_bigint = 9223372036854775807

-- `UPDATE "ticket_sequences" … RETURNING …`; a number beyond the column's type is an error.
unfoldable pub advance_sequence :
    String → ℕ → List TicketSequence → Outcome (List TicketSequence × List ReservedTicketRangeRow)
advance_sequence draw_id ticket_count rows =
    let updated = update_where (of_draw draw_id) (advance ticket_count) rows in
    let mine = filter (of_draw draw_id) updated in
    if any (λ s. ltb max_bigint s.next_number) mine
    then err (plain_error "bigint out of range")
    else ok (updated, map (returned ticket_count) mine)

-- The part of `reserveRange` behind the look-up.
unfoldable pub reserve_new :
    String
    → TicketTables
    → ReserveTicketRangeInput
    → ℕ
    → Outcome (TicketTables × ReserveTicketRangeResult)
unfolding add_sequence
reserve_new new_id t input ticket_count = do
  advanced ← advance_sequence input.draw_id ticket_count (add_sequence input.draw_id t.sequences)
  reserved_range ←
      or_throw (head? advanced.1) (plain_error "Ticket sequence was not found for draw")
  let allocation : TicketAllocation = record {
    id = new_id;
    purchase_id = input.purchase_id;
    draw_id = input.draw_id;
    start_number = reserved_range.start_number;
    end_number = reserved_range.end_number;
    correlation_id = input.correlation_id;
  }
  ok (
    record { allocations = allocation ∷ t.allocations; sequences = advanced.0 },
    record { allocation = allocation; already_allocated = false },
  )

unfoldable pub reserve_range :
    String
    → TicketTables
    → ReserveTicketRangeInput
    → Outcome (TicketTables × ReserveTicketRangeResult)
unfolding validate_input reserve_new
reserve_range new_id t input = do
  ticket_count ← validate_input input
  if_found (find (of_purchase input.purchase_id) t.allocations)
      (λ existing. ok (t, record { allocation = existing; already_allocated = true }))
      (reserve_new new_id t input ticket_count)
