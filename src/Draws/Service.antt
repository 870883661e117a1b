-- ===== src/Draws/Service.antt =====
-- LotteryDrawsService of lottery-draws.service.ts. A date of a request is `none` if it cannot be
-- read; the id of a new row is an argument.
use amazingchance.Base.{
  ℕ, zero, suc, ◌+◌, ◌-◌, ◌*◌, ◌/◌, ◌%◌, pos, ltb_ℤ, String, Bool, false, ◌&&◌, ◌||◌, Option, none,
  some, List, [], ◌∷◌, ◌++◌, length, filter, find, any, order_desc, head?, str_eq, leb, ◌==◌,
  if◌then◌else◌, Outcome, ok, err, bad_request, not_found, plain_error, ◌>>=◌, ◌>>◌, throw_if,
  or_throw,
}
use amazingchance.Draws.Types.{
  DrawType, weekly, annual, scheduled, LotteryDraw, same_draw_type, has_id,
}
use amazingchance.Draws.SalesWindow.{scheduled_sales_cutoff_at, given}
use amazingchance.Snapshots.Cryptography.{Bytes, bytes_eq, to_decimal}

-- A date of a request: absent, unreadable, or a time.
abbrev pub DateInput : Type 0
DateInput = Option (Option ℕ)

pub record CreateLotteryDrawDto : Type 0 where
  pub type : DrawType
  pub scheduled_draw_at : Option ℕ
  pub sales_open_at : DateInput
  pub sales_close_at : DateInput
  pub currency : Option String
  pub ticket_price_minor : ℕ
  pub winner_count : Option ℕ
  pub participation_year : Option ℕ

pub record UpdateLotteryDrawDto : Type 0 where
  pub scheduled_draw_at : DateInput
  pub sales_open_at : DateInput
  pub sales_close_at : DateInput
  pub currency : Option String
  pub ticket_price_minor : Option ℕ
  pub winner_count : Option ℕ
  pub participation_year : Option ℕ

-- `a ?? b`
abbrev pub or_else {ℓ} : {A : Type ℓ} → Option A → A → A
or_else none b = b
or_else (some a) b = a

-- A test of a date that is false of an absent and of an unreadable one.
abbrev pub read : DateInput → (ℕ → Bool) → Bool
read none test = false
read (some date) test = given date test

unfoldable pub validate_dates : DateInput → DateInput → Option ℕ → Outcome ℕ
unfolding scheduled_sales_cutoff_at
validate_dates sales_open_at sales_close_at scheduled_draw_at = do
  scheduled_date ← or_throw scheduled_draw_at (bad_request "scheduledDrawAt must be a valid date")
  throw_if (read sales_open_at (λ opens. leb scheduled_date opens))
      (bad_request "salesOpenAt must be earlier than scheduledDrawAt")
  throw_if
      (read sales_close_at (λ close. ltb_ℤ (scheduled_sales_cutoff_at scheduled_date) (pos close)))
      (bad_request "salesCloseAt must be at least 10 minutes before scheduledDrawAt")
  throw_if (read sales_open_at (λ opens. read sales_close_at (λ close. leb close opens)))
      (bad_request "salesOpenAt must be earlier than salesCloseAt")
  ok scheduled_date

-- `getUTCFullYear`, of the days since 1970, by the years from March on.
unfoldable pub utc_full_year : ℕ → ℕ
utc_full_year ms =
    let days = ms / 86400000 + 719468 in
    let day_of_era = days % 146097 in
    let year_of_era =
      (day_of_era - day_of_era / 1460 + day_of_era / 36524 - day_of_era / 146096) / 365 in
    let day_of_year = day_of_era - (365 * year_of_era + year_of_era / 4 - year_of_era / 100) in
    let march_year = year_of_era + days / 146097 * 400 in
    if leb 306 day_of_year then march_year + 1 else march_year

abbrev zeros : ℕ → Bytes
zeros zero = []
zeros (suc n) = b'0' ∷ zeros n

-- `sequenceNumber.toString().padStart(6, '0')`
unfoldable pub padded : ℕ → Bytes
padded n = zeros (6 - length (to_decimal n)) ++ to_decimal n

abbrev prefix : DrawType → ℕ
prefix weekly = b'W'
prefix annual = b'A'

unfoldable pub create_public_id : DrawType → ℕ → ℕ → Bytes
unfolding padded
create_public_id type year sequence_number =
    prefix type ∷ b'-' ∷ (to_decimal year ++ b'-' ∷ padded sequence_number)

-- The unique keys of the table: the id, the public id, and the sequence number in a type.
abbrev pub same_number : LotteryDraw → LotteryDraw → Bool
same_number a b = same_draw_type a.type b.type && a.sequence_number == b.sequence_number

abbrev pub clashes : LotteryDraw → LotteryDraw → Bool
clashes a b = str_eq a.id b.id || bytes_eq a.public_id b.public_id || same_number a b

unfoldable pub insert_draw :
    LotteryDraw → List LotteryDraw → Outcome (List LotteryDraw × LotteryDraw)
insert_draw draw rows =
    if any (clashes draw) rows
    then err (plain_error "Unique constraint failed")
    else ok (draw ∷ rows, draw)

-- What a date becomes in the row; the database client refuses an unreadable one.
abbrev pub column : DateInput → Outcome (Option ℕ)
column none = ok none
column (some date) = or_throw date (plain_error "Invalid Date") >>= λ at. ok (some at)

abbrev pub number_of : Option LotteryDraw → ℕ
number_of none = 0
number_of (some draw) = draw.sequence_number

-- `findFirst` of a type, by the sequence number downwards.
unfoldable pub latest_of : DrawType → List LotteryDraw → Option LotteryDraw
latest_of type rows =
    head? (order_desc (λ d. d.sequence_number) (filter (λ d. same_draw_type d.type type) rows))

abbrev pub year_of : DrawType → Option ℕ → ℕ → Option ℕ
year_of annual participation_year draw_year = some (or_else participation_year draw_year)
year_of weekly participation_year draw_year = participation_year

unfoldable pub create :
    String → ℕ → List LotteryDraw → CreateLotteryDrawDto → Outcome (List LotteryDraw × LotteryDraw)
unfolding validate_dates create_public_id latest_of utc_full_year
create new_id now rows dto = do
  scheduled_draw_at ← validate_dates dto.sales_open_at dto.sales_close_at dto.scheduled_draw_at
  let sequence_number = number_of (latest_of dto.type rows) + 1
  let draw_year = utc_full_year scheduled_draw_at
  sales_open_at ← column dto.sales_open_at
  sales_close_at ← column dto.sales_close_at
  insert_draw
      (record {
        id = new_id;
        public_id = create_public_id dto.type draw_year sequence_number;
        type = dto.type;
        status = scheduled;
        sequence_number = sequence_number;
        participation_year = year_of dto.type dto.participation_year draw_year;
        sales_open_at = sales_open_at;
        sales_close_at = sales_close_at;
        scheduled_draw_at = scheduled_draw_at;
        completed_at = none;
        published_at = none;
        updated_at = now;
        created_at = now;
        currency = or_else dto.currency "USD";
        ticket_price_minor = dto.ticket_price_minor;
        winner_count = or_else dto.winner_count 3;
      })
      rows

unfoldable pub find_one : List LotteryDraw → String → Outcome LotteryDraw
find_one rows id = or_throw (find (has_id id) rows) (not_found "Lottery draw not found")
