-- ===== src/Draws/Publication.antt =====
-- `publish` of lottery-draws.service.ts. The key of a notification, a text of the kind and the two
-- ids, is a value of its kind with the ids.
use amazingchance.Base.{
  ℕ, String, Bool, false, not, ◌&&◌, some, List, [], ◌∷◌, ◌++◌, map, length, filter, any,
  update_where, count_where, order_asc, str_eq, ◌==◌, if◌then◌else◌, Outcome, ok, conflict, ◌>>=◌,
  ◌>>◌, throw_if,
}
use amazingchance.Snapshots.Cryptography.{Bytes}
use amazingchance.Draws.Types.{completed, published, LotteryDraw, same_status}
use amazingchance.Draws.Service.{find_one}
use amazingchance.Draws.Transitions.{at_status}

pub record DrawWinner : Type 0 where
  pub id : String
  pub draw_id : String
  pub rank : ℕ
  pub ticket_public_id : String
  pub user_email : String

-- A ticket with its owner.
pub record DrawTicket : Type 0 where
  pub draw_id : String
  pub is_active : Bool
  pub user_id : String
  pub user_email : String

pub data IdempotencyKey : Type 0 where
  draw_winner draw_published : String → String → IdempotencyKey

pub data Payload : Type 0 where
  of_winner : Bytes → ℕ → String → Payload
  of_draw : Bytes → Payload

pub record NotificationOutbox : Type 0 where
  pub idempotency_key : IdempotencyKey
  pub recipient_email : String
  pub payload : Payload

abbrev pub same_key : IdempotencyKey → IdempotencyKey → Bool
same_key (draw_winner a b) (draw_winner c d) = str_eq a c && str_eq b d
same_key (draw_published a b) (draw_published c d) = str_eq a c && str_eq b d
same_key (draw_winner a b) (draw_published c d) = false
same_key (draw_published a b) (draw_winner c d) = false

abbrev pub has_key : IdempotencyKey → NotificationOutbox → Bool
has_key key n = same_key n.idempotency_key key

-- `participantById.set(id, email)`: the entry keeps its place.
unfoldable pub set_participant : String → String → List (String × String) → List (String × String)
set_participant id email [] = (id, email) ∷ []
set_participant id email (p ∷ ps) =
    let rest = set_participant id email ps in if str_eq p.0 id then (id, email) ∷ ps else p ∷ rest

unfoldable pub participants : List DrawTicket → List (String × String) → List (String × String)
participants [] by_id = by_id
participants (t ∷ ts) by_id = participants ts (set_participant t.user_id t.user_email by_id)

abbrev pub winner_notification : LotteryDraw → DrawWinner → NotificationOutbox
winner_notification draw w = record {
  idempotency_key = draw_winner draw.id w.id;
  recipient_email = w.user_email;
  payload = of_winner draw.public_id w.rank w.ticket_public_id;
}

abbrev pub participant_notification : LotteryDraw → String × String → NotificationOutbox
participant_notification draw p = record {
  idempotency_key = draw_published draw.id p.0;
  recipient_email = p.1;
  payload = of_draw draw.public_id;
}

-- `createMany({ skipDuplicates: true })`
unfoldable pub create_many :
    List NotificationOutbox → List NotificationOutbox → List NotificationOutbox
create_many [] outbox = outbox
create_many (n ∷ ns) outbox =
    create_many ns (if any (has_key n.idempotency_key) outbox then outbox else n ∷ outbox)

unfoldable pub notifications :
    LotteryDraw → List DrawWinner → List DrawTicket → List NotificationOutbox
unfolding participants set_participant
notifications draw winners tickets =
    map (winner_notification draw) winners
    ++ map (participant_notification draw) (participants tickets [])

abbrev pub published_row : ℕ → LotteryDraw → LotteryDraw
published_row now d = record d { status = published; published_at = some now; updated_at = now }

unfoldable pub publish :
    ℕ
    → List DrawWinner
    → List DrawTicket
    → List LotteryDraw × List NotificationOutbox
    → String
    → Outcome ((List LotteryDraw × List NotificationOutbox) × LotteryDraw)
unfolding find_one notifications create_many
publish now all_winners all_tickets (rows, outbox) id = do
  draw ← find_one rows id
  let winners = order_asc (λ w. w.rank) (filter (λ w. str_eq w.draw_id id) all_winners)
  let tickets = filter (λ t. str_eq t.draw_id id && t.is_active) all_tickets
  throw_if (not (same_status draw.status completed)) (conflict "Cannot transition lottery draw")
  throw_if (not (length winners == draw.winner_count))
      (conflict "Completed draw is missing winner records")
  throw_if (not (count_where (at_status id (completed ∷ [])) rows == 1))
      (conflict "Draw state changed while publishing results")
  let updated = update_where (at_status id (completed ∷ [])) (published_row now) rows
  result ← find_one updated id
  ok ((updated, create_many (notifications draw winners tickets) outbox), result)
