-- ===== src/Draws/Transitions.antt =====
-- The operations of LotteryDrawsService in lottery-draws.service.ts that change a row: `update`,
-- `openSales`, `closeSales` and `cancel`. A write sets `updatedAt`, which the client does by itself.
use amazingchance.Base.{
  ℕ, String, Bool, not, ◌&&◌, Option, none, some, List, [], ◌∷◌, find, any, update_where,
  count_where, ◌==◌, if◌then◌else◌, Outcome, ok, err, conflict, not_found, range_error, ◌>>=◌, ◌>>◌,
  throw_if, or_throw,
}
use amazingchance.Draws.Types.{
  DrawStatus, scheduled, sales_open, sales_closed, cancelled, LotteryDraw, same_status, has_id,
}
use amazingchance.Draws.Service.{DateInput, UpdateLotteryDrawDto, or_else, validate_dates, find_one}

-- `dto.x !== undefined ? new Date(dto.x) : existing.x`
abbrev pub date_or : DateInput → Option ℕ → DateInput
date_or (some date) existing = some date
date_or none none = none
date_or none (some at) = some (some at)

-- `toISOString` throws on a date that cannot be read.
abbrev pub iso : DateInput → Outcome (Option ℕ)
iso none = ok none
iso (some none) = err (range_error "Invalid time value")
iso (some (some at)) = ok (some at)

abbrev pub has_status : List DrawStatus → LotteryDraw → Bool
has_status statuses d = any (same_status d.status) statuses

abbrev pub set_given {ℓ} : {A : Type ℓ} → DateInput → A → A → A
set_given none new old = old
set_given (some date) new old = new

abbrev pub optional : Option ℕ → Option ℕ → Option ℕ
optional none old = old
optional (some n) old = some n

abbrev pub changes : ℕ → UpdateLotteryDrawDto → Option ℕ → Option ℕ → ℕ → LotteryDraw → LotteryDraw
changes now dto sales_open_at sales_close_at scheduled_draw_at d = record d {
  sales_open_at = set_given dto.sales_open_at sales_open_at d.sales_open_at;
  sales_close_at = set_given dto.sales_close_at sales_close_at d.sales_close_at;
  scheduled_draw_at = set_given dto.scheduled_draw_at scheduled_draw_at d.scheduled_draw_at;
  currency = or_else dto.currency d.currency;
  ticket_price_minor = or_else dto.ticket_price_minor d.ticket_price_minor;
  winner_count = or_else dto.winner_count d.winner_count;
  participation_year = optional dto.participation_year d.participation_year;
  updated_at = now;
}

-- `updateMany({ where: { id, status: { in: statuses } }, … })`
abbrev pub at_status : String → List DrawStatus → LotteryDraw → Bool
at_status id statuses d = has_id id d && has_status statuses d

unfoldable pub update :
    ℕ → List LotteryDraw → String → UpdateLotteryDrawDto → Outcome (List LotteryDraw × LotteryDraw)
unfolding find_one validate_dates
update now rows id dto = do
  existing_draw ← find_one rows id
  throw_if (not (same_status existing_draw.status scheduled))
      (conflict "Only a scheduled draw can be edited")
  sales_open_at ← iso (date_or dto.sales_open_at existing_draw.sales_open_at)
  sales_close_at ← iso (date_or dto.sales_close_at existing_draw.sales_close_at)
  scheduled_draw_at ← iso (date_or dto.scheduled_draw_at (some existing_draw.scheduled_draw_at))
  at ←
      validate_dates (date_or dto.sales_open_at existing_draw.sales_open_at)
        (date_or dto.sales_close_at existing_draw.sales_close_at) scheduled_draw_at
  throw_if (not (count_where (at_status id (scheduled ∷ [])) rows == 1))
      (conflict "The draw changed state before the update completed")
  let updated =
      update_where (at_status id (scheduled ∷ [])) (changes now dto sales_open_at sales_close_at at)
        rows
  draw ← find_one updated id
  ok (updated, draw)

abbrev pub with_status : ℕ → DrawStatus → LotteryDraw → LotteryDraw
with_status now status d = record d { status = status; updated_at = now }

unfoldable pub transition_status :
    ℕ
    → List LotteryDraw
    → String
    → List DrawStatus
    → DrawStatus
    → Outcome (List LotteryDraw × LotteryDraw)
unfolding find_one
transition_status now rows id allowed_statuses next_status =
    let updated = update_where (at_status id allowed_statuses) (with_status now next_status) rows in
    let changed = find_one updated id >>= λ draw. ok (updated, draw) in
    let refused =
      or_throw (find (has_id id) rows) (not_found "Lottery draw not found") >>= λ existing.
      err (conflict "Cannot transition lottery draw") in
    if count_where (at_status id allowed_statuses) rows == 1 then changed else refused

unfoldable pub open_sales : ℕ → List LotteryDraw → String → Outcome (List LotteryDraw × LotteryDraw)
unfolding transition_status
open_sales now rows id = transition_status now rows id (scheduled ∷ []) sales_open

unfoldable pub close_sales :
    ℕ → List LotteryDraw → String → Outcome (List LotteryDraw × LotteryDraw)
unfolding transition_status
close_sales now rows id = transition_status now rows id (sales_open ∷ []) sales_closed

unfoldable pub cancel : ℕ → List LotteryDraw → String → Outcome (List LotteryDraw × LotteryDraw)
unfolding transition_status
cancel now rows id = transition_status now rows id (scheduled ∷ sales_open ∷ []) cancelled
