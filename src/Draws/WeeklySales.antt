-- ===== src/Draws/WeeklySales.antt =====
-- WeeklyDrawSalesService of weekly-draw-sales.service.ts: `reconcile`, which closes the sales of a
-- weekly draw at its cutoff and opens those of the next.
use amazingchance.Base.{
  ℕ, ◌+◌, ◌-◌, ◌*◌, ◌/◌, pos, ltb_ℤ, String, Bool, not, ◌&&◌, ◌||◌, Option, none, some, List,
  filter, update_where, order_desc, head?, ltb, leb, if◌then◌else◌, Outcome, ok, ◌>>=◌,
}
use amazingchance.Draws.Types.{
  DrawStatus, weekly, scheduled, sales_open, sales_closed, LotteryDraw, same_draw_type, same_status,
  has_id,
}
use amazingchance.Draws.SalesWindow.{given, effective_sales_cutoff_at}
use amazingchance.Draws.Service.{create_public_id, utc_full_year, insert_draw}
use amazingchance.Draws.Transitions.{with_status}

abbrev pub week_ms : ℕ
week_ms = 7 * 24 * 60 * 60 * 1000

abbrev pub sales_cutoff_ms : ℕ
sales_cutoff_ms = 10 * 60 * 1000

unfoldable pub next_weekly_slot : ℕ → ℕ → ℕ
next_weekly_slot previous_scheduled_draw_at now =
    let next = previous_scheduled_draw_at + week_ms in
    let minimum = now + sales_cutoff_ms + 1 in
    if leb next minimum then next + ((minimum - next) / week_ms + 1) * week_ms else next

abbrev pub is_candidate : LotteryDraw → Bool
is_candidate d =
    same_draw_type d.type weekly
    && (same_status d.status scheduled
        || same_status d.status sales_open
        || same_status d.status sales_closed)

-- `findFirst` of the weekly draws that have not gone past their sales.
unfoldable pub latest_candidate : List LotteryDraw → Option LotteryDraw
latest_candidate rows = head? (order_desc (λ d. d.sequence_number) (filter is_candidate rows))

abbrev pub set_status : ℕ → String → DrawStatus → List LotteryDraw → List LotteryDraw
set_status now id status = update_where (has_id id) (with_status now status)

abbrev pub is_started : ℕ → LotteryDraw → Bool
is_started now d = not (given d.sales_open_at (λ opens. ltb now opens))

-- Before the cutoff.
unfoldable pub open_due :
    ℕ → List LotteryDraw → LotteryDraw → Outcome (List LotteryDraw × Option LotteryDraw)
open_due now rows latest =
    if same_status latest.status scheduled && is_started now latest
    then ok (set_status now latest.id sales_open rows, some (with_status now sales_open latest))
    else ok (rows, some latest)

abbrev pub next_draw : String → ℕ → LotteryDraw → LotteryDraw
next_draw new_id now latest =
    let slot = next_weekly_slot latest.scheduled_draw_at now in
    let number = latest.sequence_number + 1 in
    record {
      id = new_id;
      public_id = create_public_id weekly (utc_full_year slot) number;
      type = weekly;
      status = sales_open;
      sequence_number = number;
      participation_year = none;
      sales_open_at = some now;
      sales_close_at = none;
      scheduled_draw_at = slot;
      completed_at = none;
      published_at = none;
      updated_at = now;
      created_at = now;
      currency = latest.currency;
      ticket_price_minor = latest.ticket_price_minor;
      winner_count = latest.winner_count;
    }

-- From the cutoff on.
unfoldable pub roll_over :
    String → ℕ → List LotteryDraw → LotteryDraw → Outcome (List LotteryDraw × Option LotteryDraw)
unfolding insert_draw next_weekly_slot create_public_id utc_full_year
roll_over new_id now rows latest =
    let closed =
      if same_status latest.status sales_open || same_status latest.status scheduled
      then set_status now latest.id sales_closed rows
      else rows in
    insert_draw (next_draw new_id now latest) closed >>= λ p. ok (p.0, some p.1)

abbrev pub reconcile_latest :
    String
    → ℕ
    → List LotteryDraw
    → Option LotteryDraw
    → Outcome (List LotteryDraw × Option LotteryDraw)
reconcile_latest new_id now rows none = ok (rows, none)
reconcile_latest new_id now rows (some latest) =
    if ltb_ℤ (pos now) (effective_sales_cutoff_at latest)
    then open_due now rows latest
    else roll_over new_id now rows latest

-- The transaction holds a lock, so that no other one runs beside it.
unfoldable pub reconcile :
    String → ℕ → List LotteryDraw → Outcome (List LotteryDraw × Option LotteryDraw)
unfolding latest_candidate effective_sales_cutoff_at open_due roll_over
reconcile new_id now rows = reconcile_latest new_id now rows (latest_candidate rows)
