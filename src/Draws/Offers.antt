-- ===== src/Draws/Offers.antt =====
-- What `getAvailability` of weekly-draw-sales.service.ts says of the draws, told without its query.
use amazingchance.Base.{
  ℕ, ◌≡◌, ◌↔◌, ◌⊎◌, refl, sym, ap, subst, ◌∙◌, inl, inr, String, true, false, Option, none, some,
  List, Bool-cases, ok, ok_pair, >>=-eq-ok,
}
use amazingchance.Draws.Types.{weekly, LotteryDraw}
use amazingchance.Draws.SalesWindow.{
  ticket_sales_block_reason, ticket_sales_block_reason_iff, IsOnSale,
}
use amazingchance.Draws.Service.{latest_of}
use amazingchance.Draws.WeeklySales.{reconcile}
use amazingchance.Draws.Lifecycle.{AreUnique}
use amazingchance.Draws.Runs.{reconcile-Keeps}
use amazingchance.Draws.Availability.{
  is_available, WeeklySalesAvailability, empty_availability, of_draw, first_open, starts_later,
  without_open, when_blocked, availability_of, get_availability,
}
use amazingchance.Draws.Earliest.{
  IsFirstOpen, later, first_open-IsFirstOpen, none_open, first_is_one,
}

not_available : (now : ℕ) (o : Option LotteryDraw) → (without_open now o).available ≡ true → ⊥
unfolding empty_availability
not_available now none h = cc
not_available now (some d) h = elim (Bool-cases (starts_later now d)) [
  | inl later ↦ cc (rw later at h)
  | inr started ↦ cc (rw started at h)
]

blocked :
    (now : ℕ) (d : LotteryDraw) (o : Option String)
    → (when_blocked now d o).available ≡ true
    → o ≡ none
blocked now d none h = refl
blocked now d (some reason) h = cc

-- The draw that is offered: the first one, if it is on sale.
abbrev pub IsOffered : List LotteryDraw → ℕ → LotteryDraw → Type 0
IsOffered rows now d = IsFirstOpen rows d × IsOnSale d now

offered :
    (now : ℕ) (u : List LotteryDraw) (a : WeeklySalesAvailability) (o : Option LotteryDraw)
    → first_open u ≡ o
    → a ≡ availability_of now u o
    → a.available ≡ true
    → (d : LotteryDraw) × IsOffered u now d × (a ≡ of_draw true is_available d)
offered now u a none there told sold =
    absurd (not_available now (latest_of weekly u) (ap (λ x. x.available) (sym told) ∙ sold))
offered now u a (some d) there told sold =
    let free =
      blocked now d (ticket_sales_block_reason d now) (ap (λ x. x.available) (sym told) ∙ sold) in
    (
      d,
      (first_open-IsFirstOpen u there, (ticket_sales_block_reason_iff d now).0 free),
      told ∙ ap (when_blocked now d) free,
    )

offered_available :
    (now : ℕ) (u : List LotteryDraw) (d : LotteryDraw) (o : Option LotteryDraw)
    → AreUnique u
    → first_open u ≡ o
    → IsOffered u now d
    → (availability_of now u o).available ≡ true
offered_available now u d none v there f = absurd (none_open u d there f.0)
offered_available now u d (some e) v there f =
    let same = first_is_one u d e v f.0 (first_open-IsFirstOpen u there) in
    let free = (ticket_sales_block_reason_iff e now).1 (subst (λ x. IsOnSale x now) same f.1) in
    rw free refl

-- In a table with unique keys, tickets are told to be available just when, after the round, the weekly
-- draw with open sales that is held first is on sale. It is then that draw, with its price and its
-- cutoff, that is told of.
pub get_availability_iff :
    (new_id : String) (now : ℕ) (rows : List LotteryDraw) {u : List LotteryDraw}
    {a : WeeklySalesAvailability}
    → AreUnique rows
    → get_availability new_id now rows ≡ ok (u, a)
    → ((a.available ≡ true) ↔ ((d : LotteryDraw) × IsOffered u now d))
      × ((a.available ≡ false)
          ⊎ ((d : LotteryDraw) × IsOffered u now d × (a ≡ of_draw true is_available d)))
unfolding get_availability
get_availability_iff new_id now rows {u} {a} v h =
    let (p, ran, e) = >>=-eq-ok (reconcile new_id now rows) _ h in
    let (rows_eq, told) = ok_pair e in
    let unique : AreUnique u = subst AreUnique rows_eq (reconcile-Keeps new_id now rows v ran).0 in
    let told_of : a ≡ availability_of now u (first_open u) =
      subst (λ x. a ≡ availability_of now x (first_open x)) rows_eq (sym told) in
    (
      (
        λ sold. let (d, o, _) = offered now u a (first_open u) refl told_of sold in (d, o),
        λ (d, o).
            ap (λ x. x.available) told_of ∙ offered_available now u d (first_open u) unique refl o,
      ),
      elim (Bool-cases a.available) [
        | inl sold ↦ inr (offered now u a (first_open u) refl told_of sold)
        | inr unsold ↦ inl unsold
      ],
    )
