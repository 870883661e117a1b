-- ===== src/Draws/Creation.antt =====
-- The draw that `create` of lottery-draws.service.ts makes.
use amazingchance.Base.{
  ℕ, ◌+◌, ◌≤◌, ◌<◌, pos, ltb_ℤ, ◌-ℤ◌, ◌≡◌, ◌⊎◌, refl, sym, ap, subst, ◌∙◌, inl, inr, String, Bool,
  false, Option, none, some, List, [], ◌∷◌, All, filter, order_desc, head?, head-order_desc,
  no_head-order_by, filter-AtMost, ltb, leb, Bool-cases, Option-cases, arith, ok, >>=-eq-ok,
  throw_if, throw_if-eq-ok, or_throw, ok-injective, ok_pair, any,
}
use amazingchance.Draws.Types.{DrawType, scheduled, LotteryDraw, same_draw_type}
use amazingchance.Draws.SalesWindow.{given, scheduled_sales_cutoff_at, sales_cutoff_ms}
use amazingchance.Draws.Service.{
  DateInput, read, CreateLotteryDrawDto, validate_dates, column, latest_of, insert_draw, clashes,
  create, number_of,
}

-- Dates in order: the opening of sales before their closing and before the draw, and the closing at
-- least ten minutes before the draw.
pub record AreInOrder (opens closes : Option ℕ) (held : ℕ) : Type 0 where
  pub opens_before : given opens (λ o. leb held o) ≡ false
  pub closes_in_time : given closes (λ c. ltb held (c + sales_cutoff_ms)) ≡ false
  pub opens_first : given opens (λ o. given closes (λ c. leb c o)) ≡ false

read-column :
    (input : DateInput) (test : ℕ → Bool) {date : Option ℕ}
    → column input ≡ ok date
    → read input test ≡ given date test
read-column none test h = ap (λ d. given d test) (ok-injective h)
read-column (some none) test h = cc
read-column (some (some at)) test h = ap (λ d. given d test) (ok-injective h)

given-same :
    (date : Option ℕ) (p q : ℕ → Bool) → ((n : ℕ) → p n ≡ q n) → given date p ≡ given date q
given-same none p q h = refl
given-same (some n) p q h = h n

past_cutoff :
    (held c : ℕ) → ltb_ℤ (scheduled_sales_cutoff_at held) (pos c) ≡ ltb held (c + sales_cutoff_ms)
unfolding scheduled_sales_cutoff_at ◌-ℤ◌
past_cutoff held c = ground arith

validated_dates :
    (opens closes : DateInput) (held : Option ℕ) {at : ℕ} {o c : Option ℕ}
    → validate_dates opens closes held ≡ ok at
    → column opens ≡ ok o
    → column closes ≡ ok c
    → AreInOrder o c at
unfolding validate_dates
validated_dates opens closes held {at} {o} {c} h ho hc =
    let (day, _, h1) = >>=-eq-ok (or_throw held _) _ h in
    let (_, p, h2) = >>=-eq-ok (throw_if (read opens (λ x. leb day x)) _) _ h1 in
    let (_, q, h3) =
      >>=-eq-ok (throw_if (read closes (λ x. ltb_ℤ (scheduled_sales_cutoff_at day) (pos x))) _) _
        h2 in
    let (_, r, h4) = >>=-eq-ok (throw_if (read opens (λ x. read closes (λ y. leb y x))) _) _ h3 in
    let before = throw_if-eq-ok (read opens (λ x. leb day x)) _ p in
    let in_time =
      throw_if-eq-ok (read closes (λ x. ltb_ℤ (scheduled_sales_cutoff_at day) (pos x))) _ q in
    let first = throw_if-eq-ok (read opens (λ x. read closes (λ y. leb y x))) _ r in
    subst (AreInOrder o c) (ok-injective h4) (record {
      opens_before = sym (read-column opens (λ x. leb day x) ho) ∙ before;
      closes_in_time =
          given-same c _ _ (λ n. sym (past_cutoff day n))
          ∙ sym (read-column closes (λ x. ltb_ℤ (scheduled_sales_cutoff_at day) (pos x)) hc)
          ∙ in_time;
      opens_first =
          given-same o _ _ (λ n. sym (read-column closes (λ y. leb y n) hc))
          ∙ sym (read-column opens (λ x. read closes (λ y. leb y x)) ho)
          ∙ first;
    })

-- Each row is of another type or has a smaller number.
abbrev pub IsNewest : DrawType → ℕ → List LotteryDraw → Type 0
IsNewest type number =
    All (λ x. (same_draw_type x.type type ≡ false) ⊎ (x.sequence_number < number))

below-IsNewest :
    (type : DrawType) (n : ℕ) (rows : List LotteryDraw)
    → All (λ x. (same_draw_type x.type type ≡ false) ⊎ (x.sequence_number ≤ n)) rows
    → IsNewest type (n + 1) rows
below-IsNewest type n [] h = tt
below-IsNewest type n (x ∷ rows) h = (ground (arith, h.0), below-IsNewest type n rows h.1)

none_kept :
    (type : DrawType) (rows : List LotteryDraw)
    → filter (λ d. same_draw_type d.type type) rows ≡ []
    → IsNewest type 1 rows
none_kept type [] h = tt
none_kept type (x ∷ rows) h = elim (Bool-cases (same_draw_type x.type type)) [
  | inl hit ↦ cc (rw hit at h)
  | inr miss ↦ (inl miss, none_kept type rows (rw miss at h))
]

numbered :
    (type : DrawType) (rows : List LotteryDraw)
    → IsNewest type (number_of (latest_of type rows) + 1) rows
unfolding latest_of
numbered type rows =
    let mine = filter (λ d. same_draw_type d.type type) rows in
    let number = λ (d : LotteryDraw). d.sequence_number in
    elim (Option-cases (head? (order_desc number mine))) [
      | inl nothing ↦
          rw nothing
            (none_kept type rows (no_head-order_by (λ x y. ltb (number x) (number y)) mine nothing))
      | inr (d, first) ↦ rw first (
          below-IsNewest type d.sequence_number rows (
            filter-AtMost number (λ x. same_draw_type x.type type) d rows
              (head-order_desc number mine first)))
    ]

inserted :
    (draw : LotteryDraw) (rows : List LotteryDraw) {u : List LotteryDraw} {d : LotteryDraw}
    → insert_draw draw rows ≡ ok (u, d)
    → (u ≡ d ∷ rows) × (d ≡ draw)
unfolding insert_draw
inserted draw rows h = elim (Bool-cases (any (clashes draw) rows)) [
  | inl clash ↦ cc (rw clash at h)
  | inr fresh ↦
      let (tables, row) = ok_pair (rw fresh at h) in (sym tables ∙ ap (λ x. x ∷ rows) row, sym row)
]

-- A draw that `create` returns is scheduled, its dates are in order, and it stands in front of the
-- rows that were there, none of its type with a sequence number as large.
pub create-IsNewest :
    (new_id : String) (now : ℕ) (rows : List LotteryDraw) (dto : CreateLotteryDrawDto)
    {u : List LotteryDraw} {d : LotteryDraw}
    → create new_id now rows dto ≡ ok (u, d)
    → (u ≡ d ∷ rows)
      × (d.status ≡ scheduled)
      × (d.type ≡ dto.type)
      × AreInOrder d.sales_open_at d.sales_close_at d.scheduled_draw_at
      × IsNewest d.type d.sequence_number rows
unfolding create
create-IsNewest new_id now rows dto {u} {d} h =
    let (at, dated, h1) =
      >>=-eq-ok (validate_dates dto.sales_open_at dto.sales_close_at dto.scheduled_draw_at) _ h in
    let (o, opens, h2) = >>=-eq-ok (column dto.sales_open_at) _ h1 in
    let (c, closes, h3) = >>=-eq-ok (column dto.sales_close_at) _ h2 in
    let (rows_eq, row) = inserted _ rows h3 in
    (
      rows_eq,
      ap (λ x. x.status) row,
      ap (λ x. x.type) row,
      subst (λ x. AreInOrder x.sales_open_at x.sales_close_at x.scheduled_draw_at) (sym row)
          (validated_dates dto.sales_open_at dto.sales_close_at dto.scheduled_draw_at dated opens
            closes),
      subst (λ x. IsNewest x.type x.sequence_number rows) (sym row) (numbered dto.type rows),
    )
