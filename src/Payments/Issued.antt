-- ===== src/Payments/Issued.antt =====
-- The tickets that `confirmPaymentInTransaction` of payment-orchestrator.service.ts issues.
use mathlib.Core.List.{append-nil, append_assoc}
use amazingchance.Base.{
  ℕ, zero, suc, ◌+◌, ◌<◌, ◌≡◌, refl, sym, ap, subst, ◌∙◌, inl, inr, Bool, true, not, some, List, [],
  ◌∷◌, ◌++◌, map, length, length-order_by, length-filter, filter, find, any, count_where,
  place_last, ltb, str_eq_refl, All, All-append, arith, ok, ok-injective, >>=-eq-ok, throw_if,
  or_throw, or_throw-eq-ok, plain_error, Option-cases,
}
use amazingchance.Draws.Types.{LotteryDraw, sales_open, same_status, has_id}
use amazingchance.Draws.SalesWindow.{
  ticket_sales_block_reason, IsOnSale, ticket_sales_block_reason_iff,
}
use amazingchance.Payments.Tables.{Payment, Purchase, Ticket, of_purchase}
use amazingchance.Payments.Completed.{tickets_of, match_range}
use amazingchance.Payments.Issuing.{
  Supplied, paid_at, check_sale, numbers_from, ticket_row, ticket_clashes, create_tickets,
}

-- A payment that passes the sales check was paid while the draw was on sale.
pub check_sale-IsOnSale :
    (draws : List LotteryDraw) (payment : Payment) (purchase : Purchase)
    → check_sale draws payment purchase ≡ ok tt
    → (draw : LotteryDraw) × (find (has_id purchase.draw_id) draws ≡ some draw)
      × IsOnSale draw (paid_at payment)
unfolding check_sale
check_sale-IsOnSale draws payment purchase h =
    let (draw, a, h0) = >>=-eq-ok (or_throw (find (has_id purchase.draw_id) draws) _) _ h in
    let (_, _, h1) = >>=-eq-ok (throw_if (not (same_status draw.status sales_open)) _) _ h0 in
    let reason = ticket_sales_block_reason draw (paid_at payment) in
    (
      draw,
      or_throw-eq-ok (find (has_id purchase.draw_id) draws) _ a,
      elim (Option-cases reason) [
        | inl allowed ↦ (ticket_sales_block_reason_iff draw (paid_at payment)).0 allowed
        | inr (why, blocked) ↦ absurd (cc (rw blocked at h1))
      ],
    )

pub length-numbers_from : (start n : ℕ) → length (numbers_from start n) ≡ n
unfolding numbers_from
length-numbers_from start zero = refl
length-numbers_from start (suc n) = ap suc (length-numbers_from (start + 1) n)

module _ (s : Supplied) (purchase : Purchase) where
  abbrev by_number : Ticket → Ticket → Bool
  by_number x y = ltb y.number_in_draw x.number_in_draw

  abbrev pub rows_from : ℕ → ℕ → List Ticket
  rows_from start n = map (ticket_row s purchase) (numbers_from start n)

  abbrev AreBelow : ℕ → List Ticket → Type 0
  AreBelow start = All (λ t. t.number_in_draw < start)

  AreBelow-more : (start : ℕ) (ts : List Ticket) → AreBelow start ts → AreBelow (start + 1) ts
  AreBelow-more start [] h = tt
  AreBelow-more start (t ∷ ts) h = (omega (arith, h.0), AreBelow-more start ts h.1)

  below-later :
      (start : ℕ) (ts : List Ticket)
      → AreBelow start ts
      → All (λ t. by_number (ticket_row s purchase start) t ≡ true) ts
  below-later start [] h = tt
  below-later start (t ∷ ts) h = (ground (arith, h.0), below-later start ts h.1)

  tickets_of-cons :
      (start : ℕ) (tickets : List Ticket)
      → AreBelow start (tickets_of purchase.id tickets)
      → tickets_of purchase.id (ticket_row s purchase start ∷ tickets)
        ≡ tickets_of purchase.id tickets ++ ticket_row s purchase start ∷ []
  tickets_of-cons start tickets h = rw (str_eq_refl purchase.id) (
      place_last by_number (ticket_row s purchase start) (tickets_of purchase.id tickets)
        (below-later start (tickets_of purchase.id tickets) h))

  create_tickets-rows :
      (start n : ℕ) (tickets : List Ticket) {made : List Ticket}
      → AreBelow start (tickets_of purchase.id tickets)
      → create_tickets (rows_from start n) tickets ≡ ok made
      → tickets_of purchase.id made ≡ tickets_of purchase.id tickets ++ rows_from start n
  unfolding create_tickets numbers_from
  create_tickets-rows start zero tickets below h =
      ap (tickets_of purchase.id) (sym (ok-injective h))
      ∙ sym (append-nil (tickets_of purchase.id tickets))
  create_tickets-rows start (suc n) tickets below h =
      let row = ticket_row s purchase start in
      let (_, _, h1) =
        >>=-eq-ok (throw_if (any (ticket_clashes row) tickets) (plain_error "P2002")) _ h in
      let there = tickets_of-cons start tickets below in
      let next : AreBelow (start + 1) (tickets_of purchase.id (row ∷ tickets)) =
        subst (AreBelow (start + 1)) (sym there) (
          All-append (λ t. t.number_in_draw < start + 1) (tickets_of purchase.id tickets) (row ∷ [])
            (AreBelow-more start (tickets_of purchase.id tickets) below) (omega arith, tt)) in
      create_tickets-rows (start + 1) n (row ∷ tickets) next h1
      ∙ ap (λ ts. ts ++ rows_from (start + 1) n) there
      ∙ append_assoc (tickets_of purchase.id tickets) (row ∷ []) (rows_from (start + 1) n)

  count-create_tickets :
      (start n : ℕ) (tickets : List Ticket) {made : List Ticket}
      → create_tickets (rows_from start n) tickets ≡ ok made
      → count_where (of_purchase purchase.id) made
        ≡ count_where (of_purchase purchase.id) tickets + n
  unfolding create_tickets numbers_from
  count-create_tickets start zero tickets h =
      ap (count_where (of_purchase purchase.id)) (sym (ok-injective h)) ∙ omega arith
  count-create_tickets start (suc n) tickets h =
      let row = ticket_row s purchase start in
      let (_, _, h1) =
        >>=-eq-ok (throw_if (any (ticket_clashes row) tickets) (plain_error "P2002")) _ h in
      let kept : count_where (of_purchase purchase.id) (row ∷ tickets)
          ≡ suc (count_where (of_purchase purchase.id) tickets) =
        rw (str_eq_refl purchase.id) (omega arith) in
      omega (arith, count-create_tickets (start + 1) n (row ∷ tickets) h1, kept)

  nothing : (ts : List Ticket) → length ts ≡ 0 → ts ≡ []
  nothing [] h = refl
  nothing (t ∷ ts) h = absurd (omega arith)

  -- Where the purchase has as many tickets as were made, it had none before.
  pub create_tickets-all :
      (start n : ℕ) (tickets : List Ticket) {made : List Ticket}
      → create_tickets (rows_from start n) tickets ≡ ok made
      → count_where (of_purchase purchase.id) made ≡ n
      → tickets_of purchase.id made ≡ rows_from start n
  create_tickets-all start n tickets h counted =
      let before = nothing (tickets_of purchase.id tickets) (
        omega (
          arith,
          counted,
          count-create_tickets start n tickets h,
          length-order_by by_number (filter (of_purchase purchase.id) tickets),
          length-filter (of_purchase purchase.id) tickets,
        )) in
      create_tickets-rows start n tickets (subst (AreBelow start) (sym before) tt) h
      ∙ ap (λ ts. ts ++ rows_from start n) before

  pub rows-match_range : (start n : ℕ) → match_range start (rows_from start n) ≡ true
  unfolding match_range numbers_from
  rows-match_range start zero = refl
  rows-match_range start (suc n) = ground (arith, rows-match_range (start + 1) n)
