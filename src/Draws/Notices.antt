-- ===== src/Draws/Notices.antt =====
-- Whom `publish` of lottery-draws.service.ts leaves a notification for.
use amazingchance.Base.{
  ℕ, ◌≡◌, refl, sym, ap, subst, ◌∙◌, inl, inr, String, true, not, ◌&&◌, some, some-injective, List,
  [], ◌∷◌, ◌++◌, map, length, filter, find, update_where, count_where, order_asc, str_eq,
  str_eq_refl, eq_iff, ◌==◌, All, Bool-cases, arith, ok, >>=-eq-ok, ok_pair, throw_if,
  throw_if-eq-ok, or_throw-eq-ok,
}
use amazingchance.Draws.Types.{completed, LotteryDraw, same_status, same_status_iff, has_id}
use amazingchance.Draws.Service.{find_one}
use amazingchance.Draws.Transitions.{at_status}
use amazingchance.Draws.Lifecycle.{update_where-found}
use amazingchance.Draws.Runs.{found_id}
use amazingchance.Draws.Publication.{
  DrawWinner, DrawTicket, draw_winner, draw_published, NotificationOutbox, participants,
  winner_notification, participant_notification, create_many, notifications, published_row, publish,
}
use amazingchance.Draws.Outbox.{
  Waits, create_many-new, HasKeysOnce, create_many-HasKeysOnce, IsIn, participants-IsIn,
}

module _ (draw : LotteryDraw) (outbox : List NotificationOutbox) where
  winners_wait :
      (ws : List DrawWinner) (ns : List NotificationOutbox)
      → All (λ n. Waits outbox n.idempotency_key) (map (winner_notification draw) ws ++ ns)
      → All (λ w. Waits outbox (draw_winner draw.id w.id)) ws
        × All (λ n. Waits outbox n.idempotency_key) ns
  winners_wait [] ns h = (tt, h)
  winners_wait (w ∷ ws) ns h = let rest = winners_wait ws ns h.1 in ((h.0, rest.0), rest.1)

  participant-Waits :
      (id : String) (ps : List (String × String))
      → All (λ n. Waits outbox n.idempotency_key) (map (participant_notification draw) ps)
      → IsIn id ps
      → Waits outbox (draw_published draw.id id)
  participant-Waits id [] h i = cc
  participant-Waits id (p ∷ ps) h i = elim (Bool-cases (str_eq p.0 id)) [
    | inl this ↦ subst (λ x. Waits outbox (draw_published draw.id x)) ((eq_iff p.0 id).0 this) h.0
    | inr other ↦ participant-Waits id ps h.1 (rw other at i)
  ]

  owners_wait :
      (ps : List (String × String)) (ts : List DrawTicket)
      → All (λ n. Waits outbox n.idempotency_key) (map (participant_notification draw) ps)
      → All (λ t. IsIn t.user_id ps) ts
      → All (λ t. Waits outbox (draw_published draw.id t.user_id)) ts
  owners_wait ps [] h i = tt
  owners_wait ps (t ∷ ts) h i = (participant-Waits t.user_id ps h i.0, owners_wait ps ts h i.1)

abbrev pub winners_of : String → List DrawWinner → List DrawWinner
winners_of id all = order_asc (λ w. w.rank) (filter (λ w. str_eq w.draw_id id) all)

abbrev pub active_tickets : String → List DrawTicket → List DrawTicket
active_tickets id all = filter (λ t. str_eq t.draw_id id && t.is_active) all

-- What a published draw leaves: a full set of winners, the draw published at the time, and a
-- notification for each winner and for each owner of an active ticket, none of them twice.
pub record IsAnnounced (now : ℕ) (id : String) (winners : List DrawWinner)
    (tickets : List DrawTicket) (outbox : List NotificationOutbox) (draw : LotteryDraw)
    : Type 0 where
  pub all_winners : length (winners_of id winners) ≡ draw.winner_count
  pub winners_told : All (λ w. Waits outbox (draw_winner draw.id w.id)) (winners_of id winners)
  pub owners_told :
      All (λ t. Waits outbox (draw_published draw.id t.user_id)) (active_tickets id tickets)
  pub told_once : HasKeysOnce outbox

publish_lem :
    (now : ℕ) (winners : List DrawWinner) (tickets : List DrawTicket) (rows : List LotteryDraw)
    (outbox : List NotificationOutbox) (id : String) {u : List LotteryDraw}
    {o : List NotificationOutbox} {e : LotteryDraw}
    → publish now winners tickets (rows, outbox) id ≡ ok ((u, o), e)
    → (d : LotteryDraw) × (find (has_id id) rows ≡ some d)
      × (same_status d.status completed ≡ true)
      × (length (winners_of id winners) ≡ d.winner_count)
      × (o
          ≡ create_many
              (notifications d (winners_of id winners) (active_tickets id tickets))
              outbox)
      × (u ≡ update_where (at_status id (completed ∷ [])) (published_row now) rows)
      × (find (has_id id) u ≡ some e)
unfolding publish find_one
publish_lem now winners tickets rows outbox id {u} {o} {e} h =
    let (d, found, h1) = >>=-eq-ok (find_one rows id) _ h in
    let mine = winners_of id winners in
    let (_, a, h2) = >>=-eq-ok (throw_if (not (same_status d.status completed)) _) _ h1 in
    let (_, b, h3) = >>=-eq-ok (throw_if (not (length mine == d.winner_count)) _) _ h2 in
    let (_, _, h4) =
      >>=-eq-ok (throw_if (not (count_where (at_status id (completed ∷ [])) rows == 1)) _) _ h3 in
    let updated = update_where (at_status id (completed ∷ [])) (published_row now) rows in
    let (r, again, h5) = >>=-eq-ok (find_one updated id) _ h4 in
    let was = throw_if-eq-ok (not (same_status d.status completed)) _ a in
    let full = throw_if-eq-ok (not (length mine == d.winner_count)) _ b in
    let (tables, result) = ok_pair h5 in
    let rows_eq = ap (λ q. q.0) tables in
    (
      d,
      or_throw-eq-ok (find (has_id id) rows) _ found,
      ground arith,
      ground arith,
      sym (ap (λ q. q.1) tables),
      sym rows_eq,
      subst (λ x. find (has_id id) x ≡ some e) rows_eq
          (or_throw-eq-ok (find (has_id id) updated) _ again ∙ ap some result),
    )

notified :
    (d : LotteryDraw) (ws : List DrawWinner) (ts : List DrawTicket)
    (outbox : List NotificationOutbox)
    → All (λ w. Waits (create_many (notifications d ws ts) outbox) (draw_winner d.id w.id)) ws
      × All
          (λ t. Waits (create_many (notifications d ws ts) outbox) (draw_published d.id t.user_id))
          ts
unfolding notifications
notified d ws ts outbox =
    let told = create_many (notifications d ws ts) outbox in
    let people = participants ts [] in
    let (winners, others) =
      winners_wait d told ws (map (participant_notification d) people)
        (create_many-new (notifications d ws ts) outbox) in
    (winners, owners_wait d told people ts others (participants-IsIn ts []))

-- A draw that `publish` returns is the completed draw with that id, now published at the time, in
-- the table that it leaves, with as many winners as it is to have. Its outbox has a notification for
-- each winner and for each owner of an active ticket, and no key twice if it had none twice before.
pub publish-IsAnnounced :
    (now : ℕ) (winners : List DrawWinner) (tickets : List DrawTicket) (rows : List LotteryDraw)
    (outbox : List NotificationOutbox) (id : String) {u : List LotteryDraw}
    {o : List NotificationOutbox} {e : LotteryDraw}
    → HasKeysOnce outbox
    → publish now winners tickets (rows, outbox) id ≡ ok ((u, o), e)
    → (d : LotteryDraw) × (find (has_id id) rows ≡ some d)
      × (d.status ≡ completed)
      × (e ≡ published_row now d)
      × (find (has_id id) u ≡ some e)
      × IsAnnounced now id winners tickets o e
publish-IsAnnounced now winners tickets rows outbox id {u} {o} {e} once h =
    let (d, found, was, full, outbox_eq, rows_eq, there) =
      publish_lem now winners tickets rows outbox id h in
    let hit : at_status id (completed ∷ []) d ≡ true =
      rw (found_id id rows found, was) (ground (arith, str_eq_refl id)) in
    let updated =
      update_where-found (at_status id (completed ∷ [])) (published_row now) rows id d (λ x. refl)
        found in
    let row : e ≡ published_row now d =
      some-injective _ _ (sym there ∙ ap (find (has_id id)) rows_eq ∙ (rw hit at updated)) in
    let told = notified d (winners_of id winners) (active_tickets id tickets) outbox in
    (
      d,
      found,
      (same_status_iff d.status completed).0 was,
      row,
      there,
      subst (IsAnnounced now id winners tickets o) (sym row) (record {
        all_winners = full;
        winners_told = rw outbox_eq told.0;
        owners_told = rw outbox_eq told.1;
        told_once = rw outbox_eq (create_many-HasKeysOnce _ outbox once);
      }),
    )
