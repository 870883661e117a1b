-- ===== src/Draws/Runs.antt =====
-- Runs of the operations of lottery-draws.service.ts and of `reconcile` of
-- weekly-draw-sales.service.ts in any order, and what they make of a draw's status.
use amazingchance.Base.{
  ℕ, ◌≡◌, ◌⊎◌, refl, sym, ap, subst, ◌∙◌, inl, inr, String, true, false, not, ◌&&◌, ◌||◌, Option,
  some, some-injective, List, [], ◌∷◌, filter, find, any, update_where, count_where, str_eq, ltb_ℤ,
  pos, ◌==◌, if◌then◌else◌, Bool-cases, Option-cases, arith, ok, ok_pair, >>=-eq-ok, throw_if, All,
  All-filter, All-order_by, All-head, order_desc, eq_iff, str_eq_refl, order_asc, length,
}
use amazingchance.Draws.Types.{
  DrawStatus, scheduled, sales_open, sales_closed, completed, published, LotteryDraw, same_status,
  has_id, same_status_iff,
}
use amazingchance.Draws.SalesWindow.{effective_sales_cutoff_at}
use amazingchance.Draws.Service.{
  clashes, CreateLotteryDrawDto, UpdateLotteryDrawDto, insert_draw, create, find_one,
  validate_dates, column,
}
use amazingchance.Draws.Transitions.{at_status, with_status, update, changes, date_or, iso}
use amazingchance.Draws.Publication.{
  DrawWinner, DrawTicket, NotificationOutbox, publish, published_row,
}
use amazingchance.Draws.WeeklySales.{
  reconcile, open_due, roll_over, latest_candidate, next_draw, set_status, is_started, is_candidate,
}
use amazingchance.Draws.Lifecycle.{
  opened, closed, expired, Reaches, stays, one, Follows-same, Follows-trans, Keeps, AreUnique,
  update_where-Keeps, insert_draw-Keeps, publishes_from, Reaches-of_status,
}

pub create-Keeps :
    (new_id : String) (now : ℕ) (rows : List LotteryDraw) (dto : CreateLotteryDrawDto)
    {u : List LotteryDraw} {e : LotteryDraw}
    → AreUnique rows
    → create new_id now rows dto ≡ ok (u, e)
    → Keeps rows u
unfolding create
create-Keeps new_id now rows dto v h =
    let (at, _, h1) =
      >>=-eq-ok (validate_dates dto.sales_open_at dto.sales_close_at dto.scheduled_draw_at) _ h in
    let (opens, _, h2) = >>=-eq-ok (column dto.sales_open_at) _ h1 in
    let (close, _, h3) = >>=-eq-ok (column dto.sales_close_at) _ h2 in insert_draw-Keeps _ rows v h3

pub update-Keeps :
    (now : ℕ) (rows : List LotteryDraw) (id : String) (dto : UpdateLotteryDrawDto)
    {u : List LotteryDraw} {e : LotteryDraw}
    → AreUnique rows
    → update now rows id dto ≡ ok (u, e)
    → Keeps rows u
unfolding update
update-Keeps now rows id dto v h =
    let (d, _, h1) = >>=-eq-ok (find_one rows id) _ h in
    let (_, _, h2) = >>=-eq-ok (throw_if (not (same_status d.status scheduled)) _) _ h1 in
    let (opens, _, h3) = >>=-eq-ok (iso (date_or dto.sales_open_at d.sales_open_at)) _ h2 in
    let (close, _, h4) = >>=-eq-ok (iso (date_or dto.sales_close_at d.sales_close_at)) _ h3 in
    let (held, _, h5) =
      >>=-eq-ok (iso (date_or dto.scheduled_draw_at (some d.scheduled_draw_at))) _ h4 in
    let (at, _, h6) =
      >>=-eq-ok
        (validate_dates (date_or dto.sales_open_at d.sales_open_at)
          (date_or dto.sales_close_at d.sales_close_at) held)
        _ h5 in
    let (_, _, h7) =
      >>=-eq-ok (throw_if (not (count_where (at_status id (scheduled ∷ [])) rows == 1)) _) _ h6 in
    let updated =
      update_where (at_status id (scheduled ∷ [])) (changes now dto opens close at) rows in
    let (_, _, h8) = >>=-eq-ok (find_one updated id) _ h7 in
    subst (Keeps rows) (ok_pair h8).0 (
      update_where-Keeps (at_status id (scheduled ∷ [])) (changes now dto opens close at) rows
        (record { id_eq = λ d. refl; left_eq = λ d e. refl; right_eq = λ d e. refl }) v
        (λ i x found hit. stays))

pub publish-Keeps :
    (now : ℕ) (winners : List DrawWinner) (tickets : List DrawTicket) (rows : List LotteryDraw)
    (outbox : List NotificationOutbox) (id : String) {u : List LotteryDraw}
    {o : List NotificationOutbox} {e : LotteryDraw}
    → AreUnique rows
    → publish now winners tickets (rows, outbox) id ≡ ok ((u, o), e)
    → Keeps rows u
unfolding publish
publish-Keeps now winners tickets rows outbox id v h =
    let (d, _, h1) = >>=-eq-ok (find_one rows id) _ h in
    let mine = order_asc (λ w. w.rank) (filter (λ w. str_eq w.draw_id id) winners) in
    let (_, _, h2) = >>=-eq-ok (throw_if (not (same_status d.status completed)) _) _ h1 in
    let (_, _, h3) = >>=-eq-ok (throw_if (not (length mine == d.winner_count)) _) _ h2 in
    let (_, _, h4) =
      >>=-eq-ok (throw_if (not (count_where (at_status id (completed ∷ [])) rows == 1)) _) _ h3 in
    let updated = update_where (at_status id (completed ∷ [])) (published_row now) rows in
    let (_, _, h5) = >>=-eq-ok (find_one updated id) _ h4 in
    subst (Keeps rows) (ap (λ q. q.0) (ok_pair h5).0) (
      update_where-Keeps (at_status id (completed ∷ [])) (published_row now) rows
        (record { id_eq = λ d. refl; left_eq = λ d e. refl; right_eq = λ d e. refl }) v
        (λ i x found. Reaches-of_status id (completed ∷ []) published publishes_from x))

abbrev pub Mem : LotteryDraw → List LotteryDraw → Type 0
Mem d [] = ⊥
Mem d (x ∷ rows) = (x ≡ d) ⊎ Mem d rows

mem_cons :
    (x : LotteryDraw) (rows xs : List LotteryDraw)
    → All (λ y. Mem y rows) xs
    → All (λ y. Mem y (x ∷ rows)) xs
mem_cons x rows [] h = tt
mem_cons x rows (y ∷ xs) h = (inr h.0, mem_cons x rows xs h.1)

pub All-Mem_self : (rows : List LotteryDraw) → All (λ y. Mem y rows) rows
All-Mem_self [] = tt
All-Mem_self (x ∷ rows) = (inl refl, mem_cons x rows rows (All-Mem_self rows))

latest_candidate-Mem :
    (rows : List LotteryDraw) {d : LotteryDraw} → latest_candidate rows ≡ some d → Mem d rows
unfolding latest_candidate
latest_candidate-Mem rows h =
    All-head (λ y. Mem y rows) (order_desc (λ x. x.sequence_number) (filter is_candidate rows))
      (All-order_by (λ y. Mem y rows) _ (filter is_candidate rows)
        (All-filter (λ y. Mem y rows) is_candidate rows (All-Mem_self rows)))
      h

-- The keys of two rows that clash with nothing.
fresh_id :
    (x d : LotteryDraw) (rows : List LotteryDraw)
    → any (clashes x) rows ≡ false
    → Mem d rows
    → str_eq x.id d.id ≡ false
fresh_id x d [] h m = absurd m
fresh_id x d (y ∷ rows) h (inl e) =
    let not_y : str_eq x.id y.id ≡ false = ground arith in
    subst (λ z. str_eq x.id z.id ≡ false) e not_y
fresh_id x d (y ∷ rows) h (inr m) = fresh_id x d rows (ground arith) m

-- A row of a table with unique keys is found by its id.
find-Mem :
    (rows : List LotteryDraw) (d : LotteryDraw)
    → AreUnique rows
    → Mem d rows
    → find (has_id d.id) rows ≡ some d
find-Mem [] d v m = absurd m
find-Mem (x ∷ rows) d v (inl e) =
    let hit : has_id d.id x ≡ true = subst (λ y. str_eq x.id y.id ≡ true) e (str_eq_refl x.id) in
    rw hit (ap some e)
find-Mem (x ∷ rows) d v (inr m) = rw (fresh_id x d rows v.0 m) (find-Mem rows d v.1 m)

pub found_id :
    (id : String) (rows : List LotteryDraw) {d : LotteryDraw}
    → find (has_id id) rows ≡ some d
    → d.id ≡ id
found_id id [] h = cc
found_id id (x ∷ rows) h = elim (Bool-cases (has_id id x)) [
  | inl this ↦ ap (λ y. y.id) (sym (some-injective _ _ (rw this at h))) ∙ (eq_iff x.id id).0 this
  | inr other ↦ found_id id rows (rw other at h)
]

set_status-Keeps :
    (now : ℕ) (rows : List LotteryDraw) (latest : LotteryDraw) (status : DrawStatus)
    → AreUnique rows
    → Mem latest rows
    → Reaches latest.status status
    → Keeps rows (set_status now latest.id status rows)
set_status-Keeps now rows latest status v m r =
    update_where-Keeps (has_id latest.id) (with_status now status) rows
      (record { id_eq = λ d. refl; left_eq = λ d e. refl; right_eq = λ d e. refl }) v
      (λ id d found hit.
        let of_latest =
          subst (λ i. find (has_id i) rows ≡ some d)
            (sym (found_id id rows found) ∙ (eq_iff d.id latest.id).0 hit) found in
        subst (λ x. Reaches x.status status)
          (some-injective _ _ (sym (find-Mem rows latest v m) ∙ of_latest)) r)

open_due-Keeps :
    (now : ℕ) (rows : List LotteryDraw) (latest : LotteryDraw) {u : List LotteryDraw}
    {o : Option LotteryDraw}
    → AreUnique rows
    → Mem latest rows
    → open_due now rows latest ≡ ok (u, o)
    → Keeps rows u
unfolding open_due
open_due-Keeps now rows latest v m h =
    elim (Bool-cases (same_status latest.status scheduled && is_started now latest)) [
      | inl due ↦
          let was : latest.status ≡ scheduled =
            (same_status_iff latest.status scheduled).0 (ground arith) in
          subst (Keeps rows) (ok_pair (rw due at h)).0 (
            set_status-Keeps now rows latest sales_open v m
              (subst (λ s. Reaches s sales_open) (sym was) (one opened)))
      | inr not_due ↦ subst (Keeps rows) (ok_pair (rw not_due at h)).0 (v, Follows-same rows)
    ]

closed_rows-Keeps :
    (now : ℕ) (rows : List LotteryDraw) (latest : LotteryDraw)
    → AreUnique rows
    → Mem latest rows
    → Keeps rows (
        if same_status latest.status sales_open || same_status latest.status scheduled
        then set_status now latest.id sales_closed rows
        else rows)
closed_rows-Keeps now rows latest v m = elim (Bool-cases (same_status latest.status sales_open)) [
  | inl is_open ↦
      let was = (same_status_iff latest.status sales_open).0 is_open in
      rw is_open (
        set_status-Keeps now rows latest sales_closed v m
          (subst (λ s. Reaches s sales_closed) (sym was) (one closed)))
  | inr not_open ↦ elim (Bool-cases (same_status latest.status scheduled)) [
    | inl waiting ↦
        let was = (same_status_iff latest.status scheduled).0 waiting in
        rw (not_open, waiting)
          (set_status-Keeps now rows latest sales_closed v m
            (subst (λ s. Reaches s sales_closed) (sym was) (one expired)))
    | inr neither ↦ rw (not_open, neither) (v, Follows-same rows)
  ]
]

Keeps-trans : (rows u w : List LotteryDraw) → Keeps rows u → Keeps u w → Keeps rows w
Keeps-trans rows u w f g = (g.0, Follows-trans rows u w f.1 g.1)

roll_over-Keeps :
    (new_id : String) (now : ℕ) (rows : List LotteryDraw) (latest : LotteryDraw)
    {u : List LotteryDraw} {o : Option LotteryDraw}
    → AreUnique rows
    → Mem latest rows
    → roll_over new_id now rows latest ≡ ok (u, o)
    → Keeps rows u
unfolding roll_over
roll_over-Keeps new_id now rows latest {u} v m h =
    let shut =
      if same_status latest.status sales_open || same_status latest.status scheduled
      then set_status now latest.id sales_closed rows
      else rows in
    let k = closed_rows-Keeps now rows latest v m in
    let (p, inserted, e) = >>=-eq-ok (insert_draw (next_draw new_id now latest) shut) _ h in
    subst (Keeps rows) (ok_pair e).0 (
      Keeps-trans rows shut p.0 k
        (insert_draw-Keeps (next_draw new_id now latest) shut k.0 inserted))

pub reconcile-Keeps :
    (new_id : String) (now : ℕ) (rows : List LotteryDraw) {u : List LotteryDraw}
    {o : Option LotteryDraw}
    → AreUnique rows
    → reconcile new_id now rows ≡ ok (u, o)
    → Keeps rows u
unfolding reconcile
reconcile-Keeps new_id now rows v h = elim (Option-cases (latest_candidate rows)) [
  | inl nothing ↦ subst (Keeps rows) (ok_pair (rw nothing at h)).0 (v, Follows-same rows)
  | inr (latest, found) ↦
      let m = latest_candidate-Mem rows found in
      elim (Bool-cases (ltb_ℤ (pos now) (effective_sales_cutoff_at latest))) [
        | inl before ↦ open_due-Keeps now rows latest v m (rw (found, before) at h)
        | inr behind ↦ roll_over-Keeps new_id now rows latest v m (rw (found, behind) at h)
      ]
]
