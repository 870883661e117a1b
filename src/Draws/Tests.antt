-- ===== src/Draws/Tests.antt =====
-- A weekly draw, and the theorems at it.
use amazingchance.Base.{
  ◌⊎◌, false, codes, bad_request, ℕ, ◌*◌, ◌≡◌, ◌↔◌, inl, refl, true, none, some, List, [], ◌∷◌,
  find, ok, err, plain_error, ◌-ℤ◌,
}
use amazingchance.Snapshots.Cryptography.{to_decimal, digits_of, bytes_eq}
use amazingchance.Draws.Types.{
  scheduled, LotteryDraw, weekly, sales_open, sales_closed, completed, cancelled, has_id,
}
use amazingchance.Draws.SalesWindow.{
  ticket_sales_block_reason, effective_sales_cutoff_at, scheduled_sales_cutoff_at,
  ticket_sales_block_reason_iff, IsOnSale,
}
use amazingchance.Draws.Service.{
  CreateLotteryDrawDto, create, validate_dates, latest_of, utc_full_year, create_public_id, padded,
  insert_draw, find_one,
}
use amazingchance.Draws.Transitions.{cancel, transition_status, open_sales}
use amazingchance.Draws.Publication.{
  DrawWinner, DrawTicket, NotificationOutbox, publish, notifications, participants, set_participant,
  create_many, published_row,
}
use amazingchance.Draws.WeeklySales.{
  next_weekly_slot, reconcile, latest_candidate, open_due, roll_over,
}
use amazingchance.Draws.Slots.{
  next_weekly_slot-IsFirstSlot, reconcile-IsReconciled, IsReconciled, IsFirstSlot,
}
use amazingchance.Draws.Lifecycle.{Keeps}
use amazingchance.Draws.Commands.{Command, opening, cancelling, run, runs, runs-Keeps, runs-final}
use amazingchance.Draws.Availability.{is_available, of_draw, first_open, get_availability}
use amazingchance.Draws.Creation.{AreInOrder, IsNewest, create-IsNewest}
use amazingchance.Draws.Offers.{IsOffered, get_availability_iff}
use amazingchance.Draws.Notices.{publish-IsAnnounced, IsAnnounced}

abbrev week : ℕ
week = 604800000

abbrev pub draw : LotteryDraw
draw = record {
  id = "d1";
  public_id = b'W' ∷ b'1' ∷ [];
  type = weekly;
  status = sales_open;
  sequence_number = 1;
  participation_year = none;
  sales_open_at = some 1000;
  sales_close_at = none;
  scheduled_draw_at = 2 * week;
  completed_at = none;
  published_at = none;
  updated_at = 0;
  created_at = 0;
  currency = "USD";
  ticket_price_minor = 100;
  winner_count = 1;
}

on_sale : ticket_sales_block_reason draw 1000 ≡ none
unfolding ticket_sales_block_reason effective_sales_cutoff_at scheduled_sales_cutoff_at ◌-ℤ◌
on_sale = refl

-- Ten minutes before the draw.
cut_off :
    ticket_sales_block_reason draw 1209000000
    ≡ some "Ticket sales close 10 minutes before the scheduled draw"
unfolding ticket_sales_block_reason effective_sales_cutoff_at scheduled_sales_cutoff_at ◌-ℤ◌
cut_off = refl

year_2026 : utc_full_year 1767225600000 ≡ 2026
unfolding utc_full_year
year_2026 = refl

year_2025 : utc_full_year 1767225599999 ≡ 2025
unfolding utc_full_year
year_2025 = refl

ticket_sales_block_reason_iff_example : IsOnSale draw 1000
ticket_sales_block_reason_iff_example = (ticket_sales_block_reason_iff draw 1000).0 on_sale

next_weekly_slot-IsFirstSlot_example : IsFirstSlot 100 (3 * week) (next_weekly_slot 100 (3 * week))
next_weekly_slot-IsFirstSlot_example = next_weekly_slot-IsFirstSlot 100 (3 * week)

still_open : reconcile "d2" 2000 (draw ∷ []) ≡ ok (draw ∷ [], some draw)
unfolding reconcile latest_candidate open_due effective_sales_cutoff_at scheduled_sales_cutoff_at
    ◌-ℤ◌
still_open = refl

reconcile-IsReconciled_example : IsReconciled 2000 draw
reconcile-IsReconciled_example = reconcile-IsReconciled "d2" 2000 (draw ∷ []) still_open

-- The newest draw was cancelled while the one before it is at its cutoff: the next sequence number
-- is the cancelled draw's, and the round fails.
number_taken :
    reconcile "d3" (2 * week) (
      record draw { id = "d2"; public_id = []; sequence_number = 2; status = cancelled }
      ∷ record draw { status = sales_closed }
      ∷ [])
    ≡ err (plain_error "Unique constraint failed")
unfolding reconcile latest_candidate roll_over effective_sales_cutoff_at scheduled_sales_cutoff_at
    ◌-ℤ◌ insert_draw create_public_id padded to_decimal digits_of bytes_eq utc_full_year
    next_weekly_slot
number_taken = refl

abbrev commands : List Command
commands = opening 5 "d1" ∷ cancelling 6 "d1" ∷ []

cancelled_now : runs commands (draw ∷ []) ≡ record draw { status = cancelled; updated_at = 6 } ∷ []
unfolding runs run open_sales cancel transition_status find_one
cancelled_now = refl

runs-Keeps_example : Keeps (draw ∷ []) (runs commands (draw ∷ []))
runs-Keeps_example = runs-Keeps commands (draw ∷ []) (refl, tt)

abbrev called_off : LotteryDraw
called_off = record draw { status = cancelled }

runs-final_example :
    (e : LotteryDraw) × (find (has_id "d1") (runs commands (called_off ∷ [])) ≡ some e)
    × (e.status ≡ cancelled)
runs-final_example =
    runs-final commands (called_off ∷ []) "d1" called_off (refl, tt) refl (inl refl)

abbrev done : LotteryDraw
done = record draw { status = completed }

abbrev winner : DrawWinner
winner = record {
  id = "w1";
  draw_id = "d1";
  rank = 1;
  ticket_public_id = "T-1";
  user_email = "a@b";
}

abbrev ticket : DrawTicket
ticket = record { draw_id = "d1"; is_active = true; user_id = "u1"; user_email = "a@b" }

abbrev told : List NotificationOutbox
told = create_many (notifications done (winner ∷ []) (ticket ∷ [])) []

published_now :
    publish 9 (winner ∷ []) (ticket ∷ ticket ∷ []) (done ∷ [], []) "d1"
    ≡ ok ((published_row 9 done ∷ [], told), published_row 9 done)
unfolding publish find_one notifications participants set_participant create_many
published_now = refl

publish-IsAnnounced_example :
    (d : LotteryDraw) × (find (has_id "d1") (done ∷ []) ≡ some d)
    × (d.status ≡ completed)
    × (published_row 9 done ≡ published_row 9 d)
    × (find (has_id "d1") (published_row 9 done ∷ []) ≡ some (published_row 9 done))
    × IsAnnounced 9 "d1" (winner ∷ []) (ticket ∷ ticket ∷ []) told (published_row 9 done)
publish-IsAnnounced_example =
    publish-IsAnnounced 9 (winner ∷ []) (ticket ∷ ticket ∷ []) (done ∷ []) [] "d1" tt published_now

told_available :
    get_availability "d2" 2000 (draw ∷ []) ≡ ok (draw ∷ [], of_draw true is_available draw)
unfolding get_availability first_open reconcile latest_candidate open_due effective_sales_cutoff_at
    scheduled_sales_cutoff_at ◌-ℤ◌ ticket_sales_block_reason
told_available = refl

get_availability_iff_example :
    ((true ≡ true) ↔ ((d : LotteryDraw) × IsOffered (draw ∷ []) 2000 d))
    × ((true ≡ false)
        ⊎ ((d : LotteryDraw) × IsOffered (draw ∷ []) 2000 d
            × (of_draw true is_available draw ≡ of_draw true is_available d)))
get_availability_iff_example = get_availability_iff "d2" 2000 (draw ∷ []) (refl, tt) told_available

abbrev dto : CreateLotteryDrawDto
dto = record {
  type = weekly;
  scheduled_draw_at = some (2 * week);
  sales_open_at = some (some 1000);
  sales_close_at = none;
  currency = none;
  ticket_price_minor = 100;
  winner_count = none;
  participation_year = none;
}

abbrev created : LotteryDraw
created = record {
  id = "d9";
  public_id = codes "W-1970-000002";
  type = weekly;
  status = scheduled;
  sequence_number = 2;
  participation_year = none;
  sales_open_at = some 1000;
  sales_close_at = none;
  scheduled_draw_at = 1209600000;
  completed_at = none;
  published_at = none;
  updated_at = 5;
  created_at = 5;
  currency = "USD";
  ticket_price_minor = 100;
  winner_count = 3;
}

created_now : create "d9" 5 (draw ∷ []) dto ≡ ok (created ∷ draw ∷ [], created)
unfolding create validate_dates scheduled_sales_cutoff_at ◌-ℤ◌ latest_of create_public_id padded
    to_decimal digits_of utc_full_year insert_draw bytes_eq
created_now = refl

too_late :
    create "d9" 5 (draw ∷ []) (record dto { sales_close_at = some (some 1209000001) })
    ≡ err (bad_request "salesCloseAt must be at least 10 minutes before scheduledDrawAt")
unfolding create validate_dates scheduled_sales_cutoff_at ◌-ℤ◌
too_late = refl

create-IsNewest_example :
    (created ∷ draw ∷ [] ≡ created ∷ draw ∷ [])
    × (created.status ≡ scheduled)
    × (created.type ≡ dto.type)
    × AreInOrder created.sales_open_at created.sales_close_at created.scheduled_draw_at
    × IsNewest weekly 2 (draw ∷ [])
create-IsNewest_example = create-IsNewest "d9" 5 (draw ∷ []) dto created_now
