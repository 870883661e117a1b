-- ===== src/Draws/Availability.antt =====
-- `getAvailability` of weekly-draw-sales.service.ts. Its times, which it gives as texts, are numbers.
use amazingchance.Base.{
  ℕ, ℤ, String, Bool, true, false, ◌&&◌, ◌||◌, Option, none, some, List, filter, order_by, head?,
  ltb, ◌==◌, if◌then◌else◌, Outcome, ok, ◌>>=◌,
}
use amazingchance.Draws.Types.{weekly, sales_open, LotteryDraw, same_draw_type, same_status}
use amazingchance.Draws.SalesWindow.{given, effective_sales_cutoff_at, ticket_sales_block_reason}
use amazingchance.Draws.Service.{latest_of}
use amazingchance.Draws.WeeklySales.{reconcile}

pub data AvailabilityReason : Type 0 where
  is_available no_weekly_draw sales_not_started sales_are_closed : AvailabilityReason

pub record WeeklySalesAvailability : Type 0 where
  pub available : Bool
  pub reason : AvailabilityReason
  pub draw_id : Option String
  pub public_id : Option (List ℕ)
  pub scheduled_draw_at : Option ℕ
  pub effective_cutoff_at : Option ℤ
  pub ticket_price_minor : Option ℕ
  pub currency : Option String

unfoldable pub empty_availability : AvailabilityReason → WeeklySalesAvailability
empty_availability reason = record {
  available = false;
  reason = reason;
  draw_id = none;
  public_id = none;
  scheduled_draw_at = none;
  effective_cutoff_at = none;
  ticket_price_minor = none;
  currency = none;
}

-- What is told of a draw.
abbrev pub of_draw : Bool → AvailabilityReason → LotteryDraw → WeeklySalesAvailability
of_draw available reason draw = record {
  available = available;
  reason = reason;
  draw_id = some draw.id;
  public_id = some draw.public_id;
  scheduled_draw_at = some draw.scheduled_draw_at;
  effective_cutoff_at = some (effective_sales_cutoff_at draw);
  ticket_price_minor = some draw.ticket_price_minor;
  currency = some draw.currency;
}

-- By the time of the draw, and by the sequence number at one time.
abbrev pub held_later : LotteryDraw → LotteryDraw → Bool
held_later a b =
    ltb b.scheduled_draw_at a.scheduled_draw_at
    || (a.scheduled_draw_at == b.scheduled_draw_at && ltb b.sequence_number a.sequence_number)

abbrev pub is_open_weekly : LotteryDraw → Bool
is_open_weekly d = same_draw_type d.type weekly && same_status d.status sales_open

-- The weekly draw whose sales are open that is held first.
unfoldable pub first_open : List LotteryDraw → Option LotteryDraw
first_open rows = head? (order_by held_later (filter is_open_weekly rows))

abbrev pub starts_later : ℕ → LotteryDraw → Bool
starts_later now d = given d.sales_open_at (λ opens. ltb now opens)

-- No weekly draw is open.
abbrev pub without_open : ℕ → Option LotteryDraw → WeeklySalesAvailability
without_open now none = empty_availability no_weekly_draw
without_open now (some latest) =
    if starts_later now latest
    then of_draw false sales_not_started latest
    else of_draw false sales_are_closed latest

abbrev pub when_blocked : ℕ → LotteryDraw → Option String → WeeklySalesAvailability
when_blocked now draw none = of_draw true is_available draw
when_blocked now draw (some reason) =
    of_draw false (if starts_later now draw then sales_not_started else sales_are_closed) draw

abbrev pub availability_of : ℕ → List LotteryDraw → Option LotteryDraw → WeeklySalesAvailability
availability_of now rows none = without_open now (latest_of weekly rows)
availability_of now rows (some draw) = when_blocked now draw (ticket_sales_block_reason draw now)

unfoldable pub get_availability :
    String → ℕ → List LotteryDraw → Outcome (List LotteryDraw × WeeklySalesAvailability)
unfolding first_open
get_availability new_id now rows =
    reconcile new_id now rows >>= λ p. ok (p.0, availability_of now p.0 (first_open p.0))
