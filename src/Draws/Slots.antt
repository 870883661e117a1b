-- ===== src/Draws/Slots.antt =====
-- The times and the draws of the rollover in weekly-draw-sales.service.ts.
use amazingchance.Base.{
  ℕ, ◌+◌, ◌-◌, ◌*◌, ◌/◌, ◌≤◌, ◌<◌, ℤ, pos, ltb_ℤ, leb_ℤ, ◌≡◌, ◌⊎◌, refl, sym, ap, subst, ◌∙◌,
  String, true, false, ◌&&◌, ◌||◌, none, some, some-injective, List, any, ltb, leb, Bool-cases,
  Option-cases, inl, inr, arith, if◌then◌else◌, ok, ok_pair, ok-injective, >>=-eq-ok, All-head,
  filter-passes, All-order_by, order_desc, filter,
}
use amazingchance.Draws.Types.{
  scheduled, sales_open, sales_closed, LotteryDraw, same_status, same_status_iff,
}
use amazingchance.Draws.SalesWindow.{
  given, effective_sales_cutoff_at, ticket_sales_block_reason, ticket_sales_block_reason_iff,
  cutoff_iff,
}
use amazingchance.Draws.Service.{insert_draw, clashes}
use amazingchance.Draws.WeeklySales.{
  week_ms, sales_cutoff_ms, next_weekly_slot, latest_candidate, is_candidate, open_due, roll_over,
  reconcile, next_draw, set_status, is_started,
}
use amazingchance.Draws.Transitions.{with_status}

-- The first of the weekly times behind `previous` at which sales can still be opened at `now`.
pub record IsFirstSlot (previous now slot : ℕ) : Type 0 where
  pub weeks : ℕ
  pub some_week : 1 ≤ weeks
  pub weekly_eq : slot ≡ previous + weeks * week_ms
  pub late_enough : now + sales_cutoff_ms + 1 < slot
  pub first : (weeks ≡ 1) ⊎ (slot ≤ now + sales_cutoff_ms + 1 + week_ms)

-- `nextWeeklySlot` gives the first time that is a whole number of weeks, one at least, behind the
-- previous draw and more than the cutoff and a millisecond behind now.
pub next_weekly_slot-IsFirstSlot :
    (previous now : ℕ) → IsFirstSlot previous now (next_weekly_slot previous now)
unfolding next_weekly_slot
next_weekly_slot-IsFirstSlot previous now =
    let next = previous + week_ms in
    let minimum = now + sales_cutoff_ms + 1 in
    let skipped = (minimum - next) / week_ms + 1 in
    elim (Bool-cases (leb next minimum)) [
      | inl late ↦
          let h : next ≤ minimum = ground arith in
          rw late (record {
            weeks = skipped + 1;
            some_week = omega arith;
            weekly_eq = omega arith;
            late_enough = omega arith;
            first = inr (omega arith);
          })
      | inr soon ↦
          let h : minimum < next = ground arith in
          rw soon (record {
            weeks = 1;
            some_week = omega arith;
            weekly_eq = omega arith;
            late_enough = omega arith;
            first = inl refl;
          })
    ]

-- A draw whose cutoff is ahead, and whose tickets are on sale unless it is closed or not yet open.
pub record IsReconciled (now : ℕ) (draw : LotteryDraw) : Type 0 where
  pub cutoff_ahead : ltb_ℤ (pos now) (effective_sales_cutoff_at draw) ≡ true
  pub sold :
      (draw.status ≡ sales_closed)
      ⊎ ((given draw.sales_open_at (λ opens. ltb now opens) ≡ true)
          ⊎ (ticket_sales_block_reason draw now ≡ none))

ahead : (a b : ℤ) → ltb_ℤ a b ≡ true → leb_ℤ b a ≡ false
ahead a b h = ground arith

not_behind : (a b : ℤ) → leb_ℤ b a ≡ false → ltb_ℤ a b ≡ true
not_behind a b h = ground arith

candidate :
    (rows : List LotteryDraw) {d : LotteryDraw}
    → latest_candidate rows ≡ some d
    → is_candidate d ≡ true
unfolding latest_candidate
candidate rows h =
    let fits = λ (x : LotteryDraw). is_candidate x ≡ true in
    All-head fits (order_desc (λ x. x.sequence_number) (filter is_candidate rows))
      (All-order_by fits _ (filter is_candidate rows) (filter-passes is_candidate rows)) h

-- An open draw before its cutoff is on sale, if it has started.
open_sold :
    (now : ℕ) (d : LotteryDraw)
    → ltb_ℤ (pos now) (effective_sales_cutoff_at d) ≡ true
    → d.status ≡ sales_open
    → (given d.sales_open_at (λ opens. ltb now opens) ≡ true)
      ⊎ (ticket_sales_block_reason d now ≡ none)
open_sold now d h is_open = elim (Bool-cases (given d.sales_open_at (λ opens. ltb now opens))) [
  | inl early ↦ inl early
  | inr started ↦
      let (not_closed, early_enough) =
        (cutoff_iff d now).0 (ahead (pos now) (effective_sales_cutoff_at d) h) in
      inr (
        (ticket_sales_block_reason_iff d now).1 (record {
          is_open = is_open;
          started = started;
          not_closed = not_closed;
          early_enough = early_enough;
        }))
]

next_draw-IsReconciled :
    (new_id : String) (now : ℕ) (latest : LotteryDraw)
    → IsReconciled now (next_draw new_id now latest)
next_draw-IsReconciled new_id now latest =
    let draw = next_draw new_id now latest in
    let v = next_weekly_slot-IsFirstSlot latest.scheduled_draw_at now in
    let window = (cutoff_iff draw now).1 (refl, omega (arith, v.late_enough)) in
    let ahead_of_now = not_behind (pos now) (effective_sales_cutoff_at draw) window in
    record { cutoff_ahead = ahead_of_now; sold = inr (open_sold now draw ahead_of_now refl) }

open_due-IsReconciled :
    (now : ℕ) (rows : List LotteryDraw) (latest : LotteryDraw) {u : List LotteryDraw}
    {d : LotteryDraw}
    → is_candidate latest ≡ true
    → ltb_ℤ (pos now) (effective_sales_cutoff_at latest) ≡ true
    → open_due now rows latest ≡ ok (u, some d)
    → IsReconciled now d
unfolding open_due effective_sales_cutoff_at
open_due-IsReconciled now rows latest {u} {d} fits h e =
    elim (Bool-cases (same_status latest.status scheduled && is_started now latest)) [
      | inl due ↦ subst (IsReconciled now) (some-injective _ _ (ok_pair (rw due at e)).1) (record {
        cutoff_ahead = h;
        sold = inr (open_sold now (with_status now sales_open latest) h refl);
      })
      | inr not_due ↦
          subst (IsReconciled now) (some-injective _ _ (ok_pair (rw not_due at e)).1) (record {
            cutoff_ahead = h;
            sold = elim (Bool-cases (same_status latest.status sales_closed)) [
              | inl closed ↦ inl ((same_status_iff latest.status sales_closed).0 closed)
              | inr not_closed ↦ elim (Bool-cases (same_status latest.status sales_open)) [
                | inl is_open ↦
                    inr (
                      open_sold now latest h ((same_status_iff latest.status sales_open).0 is_open))
                | inr not_open ↦ inr (inl (ground arith))
              ]
            ];
          })
    ]

insert_draw_lem :
    (draw : LotteryDraw) (rows : List LotteryDraw) {p : List LotteryDraw × LotteryDraw}
    → insert_draw draw rows ≡ ok p
    → p.1 ≡ draw
unfolding insert_draw
insert_draw_lem draw rows h = elim (Bool-cases (any (clashes draw) rows)) [
  | inl clash ↦ cc (rw clash at h)
  | inr fresh ↦ sym (ap (λ q. q.1) (ok-injective (rw fresh at h)))
]

roll_over-IsReconciled :
    (new_id : String) (now : ℕ) (rows : List LotteryDraw) (latest : LotteryDraw)
    {u : List LotteryDraw} {d : LotteryDraw}
    → roll_over new_id now rows latest ≡ ok (u, some d)
    → IsReconciled now d
unfolding roll_over
roll_over-IsReconciled new_id now rows latest h =
    let closed =
      if same_status latest.status sales_open || same_status latest.status scheduled
      then set_status now latest.id sales_closed rows
      else rows in
    let (p, inserted, e) = >>=-eq-ok (insert_draw (next_draw new_id now latest) closed) _ h in
    subst (IsReconciled now)
      (sym (insert_draw_lem _ closed inserted) ∙ some-injective _ _ (ok_pair e).1)
      (next_draw-IsReconciled new_id now latest)

-- A draw that `reconcile` returns has its cutoff ahead: tickets can be bought, unless its sales were
-- closed by hand before or are due to open later.
pub reconcile-IsReconciled :
    (new_id : String) (now : ℕ) (rows : List LotteryDraw) {u : List LotteryDraw} {d : LotteryDraw}
    → reconcile new_id now rows ≡ ok (u, some d)
    → IsReconciled now d
unfolding reconcile
reconcile-IsReconciled new_id now rows {u} {d} h = elim (Option-cases (latest_candidate rows)) [
  | inl nothing ↦ cc (rw nothing at h)
  | inr (latest, found) ↦ elim (Bool-cases (ltb_ℤ (pos now) (effective_sales_cutoff_at latest))) [
    | inl before ↦
        open_due-IsReconciled now rows latest (candidate rows found) before
          (rw (found, before) at h)
    | inr behind ↦ roll_over-IsReconciled new_id now rows latest (rw (found, behind) at h)
  ]
]
