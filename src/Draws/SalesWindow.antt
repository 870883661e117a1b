-- ===== src/Draws/SalesWindow.antt =====
-- sales-window.policy.ts: when tickets of a draw are on sale. A date is a number of milliseconds from
-- 1970 on; a cutoff, which may lie before, is an integer.
use amazingchance.Base.{
  ℕ, ◌+◌, ◌*◌, ◌<◌, ℤ, pos, ltb_ℤ, leb_ℤ, ◌-ℤ◌, ◌≡◌, ◌↔◌, refl, String, Bool, false, not, Option,
  none, some, ltb, if◌then◌else◌, arith,
}
use amazingchance.Draws.Types.{LotteryDraw, sales_open, same_status, same_status_iff}

abbrev pub sales_cutoff_minutes : ℕ
sales_cutoff_minutes = 10

abbrev pub sales_cutoff_ms : ℕ
sales_cutoff_ms = sales_cutoff_minutes * 60 * 1000

unfoldable pub scheduled_sales_cutoff_at : ℕ → ℤ
scheduled_sales_cutoff_at scheduled_draw_at = pos scheduled_draw_at -ℤ pos sales_cutoff_ms

-- `date && test(date)`
abbrev pub given : Option ℕ → (ℕ → Bool) → Bool
given none test = false
given (some date) test = test date

abbrev closes_earlier : Option ℕ → ℤ → ℤ
closes_earlier none hard_cutoff = hard_cutoff
closes_earlier (some close) hard_cutoff =
    if ltb_ℤ (pos close) hard_cutoff then pos close else hard_cutoff

unfoldable pub effective_sales_cutoff_at : LotteryDraw → ℤ
unfolding scheduled_sales_cutoff_at
effective_sales_cutoff_at draw =
    closes_earlier draw.sales_close_at (scheduled_sales_cutoff_at draw.scheduled_draw_at)

unfoldable pub ticket_sales_block_reason : LotteryDraw → ℕ → Option String
unfolding effective_sales_cutoff_at
ticket_sales_block_reason draw at =
    if not (same_status draw.status sales_open)
    then some "Ticket sales are not open for this draw"
    else if given draw.sales_open_at (λ opens. ltb at opens)
    then some "Ticket sales have not started yet"
    else if leb_ℤ (effective_sales_cutoff_at draw) (pos at)
    then some "Ticket sales close 10 minutes before the scheduled draw"
    else none

-- The window in which tickets are on sale: from the opening, if the draw has one, until ten minutes
-- before the draw is held, or until the closing that it has before.
pub record IsOnSale (draw : LotteryDraw) (at : ℕ) : Type 0 where
  pub is_open : draw.status ≡ sales_open
  pub started : given draw.sales_open_at (λ opens. ltb at opens) ≡ false
  pub not_closed : given draw.sales_close_at (λ close. not (ltb at close)) ≡ false
  pub early_enough : at + sales_cutoff_ms < draw.scheduled_draw_at

pub cutoff_iff :
    (draw : LotteryDraw) (at : ℕ)
    → (leb_ℤ (effective_sales_cutoff_at draw) (pos at) ≡ false) ↔ (
        (given draw.sales_close_at (λ close. not (ltb at close)) ≡ false)
        × (at + sales_cutoff_ms < draw.scheduled_draw_at))
unfolding effective_sales_cutoff_at scheduled_sales_cutoff_at
cutoff_iff draw at = go draw.sales_close_at
  where
    go :
        (close : Option ℕ)
        → (leb_ℤ (closes_earlier close (pos draw.scheduled_draw_at -ℤ pos sales_cutoff_ms)) (pos at)
            ≡ false)
          ↔ ((given close (λ c. not (ltb at c)) ≡ false)
              × (at + sales_cutoff_ms < draw.scheduled_draw_at))
    go none = unfold ◌-ℤ◌ in ground arith
    go (some c) = unfold ◌-ℤ◌ in ground arith

-- Nothing blocks the sale of a draw's tickets just when they are on sale: the draw is open, its
-- opening time has come, its closing time has not, and the draw is more than ten minutes away.
pub ticket_sales_block_reason_iff :
    (draw : LotteryDraw) (at : ℕ) → (ticket_sales_block_reason draw at ≡ none) ↔ IsOnSale draw at
unfolding ticket_sales_block_reason
ticket_sales_block_reason_iff draw at = (blocked_by, allowed)
  where
    blocked_by : ticket_sales_block_reason draw at ≡ none → IsOnSale draw at
    blocked_by h =
        let window : leb_ℤ (effective_sales_cutoff_at draw) (pos at) ≡ false = ground arith in
        let sold = (cutoff_iff draw at).0 window in
        record {
          is_open = (same_status_iff draw.status sales_open).0 (ground arith);
          started = ground arith;
          not_closed = sold.0;
          early_enough = sold.1;
        }

    allowed : IsOnSale draw at → ticket_sales_block_reason draw at ≡ none
    allowed v =
        let is_open = (same_status_iff draw.status sales_open).1 v.is_open in
        let window = (cutoff_iff draw at).1 (v.not_closed, v.early_enough) in
        rw (is_open, v.started, window) refl
