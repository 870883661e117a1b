-- ===== src/Draws/Earliest.antt =====
-- The weekly draw that weekly-draw-sales.service.ts offers, told without its query.
use amazingchance.Base.{
  no_head-order_by, head-order_by, ◌≤◌, ◌<◌, ◌≡◌, ◌↔◌, ◌⊎◌, refl, sym, ap, subst, ◌∙◌, inl, inr,
  Bool, true, false, none, some, List, [], ◌∷◌, filter, any, order_by, All, All-head, All-order_by,
  All-filter, filter-passes, ltb, ==_iff, Bool-cases, arith,
}
use amazingchance.Draws.Types.{
  DrawType, weekly, annual, sales_open, LotteryDraw, same_draw_type, same_status_iff,
}
use amazingchance.Draws.Service.{clashes, same_number}
use amazingchance.Draws.Lifecycle.{AreUnique}
use amazingchance.Draws.Runs.{Mem, All-Mem_self}
use amazingchance.Draws.Availability.{held_later, is_open_weekly, first_open}

-- Held no later, and of no larger number at one time.
abbrev pub Precedes : LotteryDraw → LotteryDraw → Type 0
Precedes d e =
    (d.scheduled_draw_at < e.scheduled_draw_at)
    ⊎ ((d.scheduled_draw_at ≡ e.scheduled_draw_at) × (d.sequence_number ≤ e.sequence_number))

-- The weekly draw with open sales that is held first.
pub record IsFirstOpen (rows : List LotteryDraw) (d : LotteryDraw) : Type 0 where
  pub there : Mem d rows
  pub is_weekly : d.type ≡ weekly
  pub is_open : d.status ≡ sales_open
  pub first :
      (e : LotteryDraw) → Mem e rows → e.type ≡ weekly → e.status ≡ sales_open → Precedes d e

pub Precedes-refl : (d : LotteryDraw) → Precedes d d
Precedes-refl d = inr (refl, omega arith)

pub Precedes-trans : (c d e : LotteryDraw) → Precedes c d → Precedes d e → Precedes c e
Precedes-trans c d e (inl h) (inl k) = inl (omega (arith, h, k))
Precedes-trans c d e (inl h) (inr k) = inl (omega (arith, h, k.0))
Precedes-trans c d e (inr h) (inl k) = inl (omega (arith, h.0, k))
Precedes-trans c d e (inr h) (inr k) = inr (h.0 ∙ k.0, omega (arith, h.1, k.1))

pub not_later : (d e : LotteryDraw) → held_later d e ≡ false → Precedes d e
not_later d e h = elim (Bool-cases (ltb d.scheduled_draw_at e.scheduled_draw_at)) [
  | inl before ↦ inl (ground arith)
  | inr behind ↦ inr (ground arith, ground arith)
]

pub later : (d e : LotteryDraw) → held_later d e ≡ true → Precedes e d
later d e h = elim (Bool-cases (ltb e.scheduled_draw_at d.scheduled_draw_at)) [
  | inl before ↦ inl (ground arith)
  | inr behind ↦ inr (ground arith, ground arith)
]

pub kept_by_filter :
    (P : LotteryDraw → Type 0) (p : LotteryDraw → Bool) (xs : List LotteryDraw) (d : LotteryDraw)
    → All P (filter p xs)
    → Mem d xs
    → p d ≡ true
    → P d
kept_by_filter P p [] d h m passes = absurd m
kept_by_filter P p (x ∷ xs) d h (inl e) passes = subst P e ((rw (ap p e ∙ passes) at h).0)
kept_by_filter P p (x ∷ xs) d h (inr m) passes = elim (Bool-cases (p x)) [
  | inl hit ↦ kept_by_filter P p xs d (rw hit at h).1 m passes
  | inr miss ↦ kept_by_filter P p xs d (rw miss at h) m passes
]

pub weekly_iff : (t : DrawType) → (same_draw_type t weekly ≡ true) ↔ (t ≡ weekly)
weekly_iff weekly = (λ h. refl, λ h. refl)
weekly_iff annual = (λ h. cc h, λ h. cc h)

pub open_weekly_iff :
    (d : LotteryDraw) → (is_open_weekly d ≡ true) ↔ ((d.type ≡ weekly) × (d.status ≡ sales_open))
open_weekly_iff d = (
  λ h. (
    (weekly_iff d.type).0 (ground arith),
    (same_status_iff d.status sales_open).0 (ground arith),
  ),
  λ (t, s). rw ((weekly_iff d.type).1 t, (same_status_iff d.status sales_open).1 s) refl,
)

pub first_open-IsFirstOpen :
    (rows : List LotteryDraw) {d : LotteryDraw} → first_open rows ≡ some d → IsFirstOpen rows d
unfolding first_open
first_open-IsFirstOpen rows {d} h =
    let found = filter is_open_weekly rows in
    let kept =
      All-head (λ x. is_open_weekly x ≡ true) (order_by held_later found)
        (All-order_by (λ x. is_open_weekly x ≡ true) held_later found
          (filter-passes is_open_weekly rows))
        h in
    let (type_eq, status_eq) = (open_weekly_iff d).0 kept in
    let precedes =
      head-order_by held_later Precedes Precedes-refl Precedes-trans later not_later found h in
    record {
      there =
          All-head (λ x. Mem x rows) (order_by held_later found)
            (All-order_by (λ x. Mem x rows) held_later found
              (All-filter (λ x. Mem x rows) is_open_weekly rows (All-Mem_self rows)))
            h;
      is_weekly = type_eq;
      is_open = status_eq;
      first = λ e m t s.
          kept_by_filter (Precedes d) is_open_weekly rows e precedes m
            ((open_weekly_iff e).1 (t, s));
    }

-- Where the query finds nothing, there is none.
pub none_open :
    (rows : List LotteryDraw) (d : LotteryDraw) → first_open rows ≡ none → IsFirstOpen rows d → ⊥
unfolding first_open
none_open rows d h f =
    let found = filter is_open_weekly rows in
    let nothing = no_head-order_by held_later found h in
    kept_by_filter (λ x. ⊥) is_open_weekly rows d (subst (All (λ x. ⊥)) (sym nothing) tt) f.there
      ((open_weekly_iff d).1 (f.is_weekly, f.is_open))

-- Two rows of one number are one.
pub clash_none :
    (x d : LotteryDraw) (rows : List LotteryDraw)
    → any (clashes x) rows ≡ false
    → Mem d rows
    → same_number x d ≡ false
clash_none x d [] h m = absurd m
clash_none x d (y ∷ rows) h (inl e) = subst (λ z. same_number x z ≡ false) e (ground arith)
clash_none x d (y ∷ rows) h (inr m) = clash_none x d rows (ground arith) m

pub same_number_comm : (x y : LotteryDraw) → same_number x y ≡ true → same_number y x ≡ true
same_number_comm x y h = ground arith

pub one_row :
    (rows : List LotteryDraw) (x y : LotteryDraw)
    → AreUnique rows
    → Mem x rows
    → Mem y rows
    → same_number x y ≡ true
    → x ≡ y
one_row [] x y v m n h = absurd m
one_row (z ∷ rows) x y v (inl e) (inl k) h = sym e ∙ k
one_row (z ∷ rows) x y v (inl e) (inr n) h =
    absurd (cc (subst (λ w. same_number w y ≡ false) e (clash_none z y rows v.0 n), h))
one_row (z ∷ rows) x y v (inr m) (inl k) h = absurd (
    cc (subst (λ w. same_number w x ≡ false) k (clash_none z x rows v.0 m), same_number_comm x y h))
one_row (z ∷ rows) x y v (inr m) (inr n) h = one_row rows x y v.1 m n h

pub first_is_one :
    (rows : List LotteryDraw) (d e : LotteryDraw)
    → AreUnique rows
    → IsFirstOpen rows d
    → IsFirstOpen rows e
    → d ≡ e
first_is_one rows d e v f g =
    one_row rows d e v f.there g.there
      (numbers (f.first e g.there g.is_weekly g.is_open) (g.first d f.there f.is_weekly f.is_open))
  where
    numbers : Precedes d e → Precedes e d → same_number d e ≡ true
    numbers (inl h) (inl k) = absurd (omega (arith, h, k))
    numbers (inl h) (inr k) = absurd (omega (arith, h, k.0))
    numbers (inr h) (inl k) = absurd (omega (arith, h.0, k))
    numbers (inr h) (inr k) =
        let both : d.sequence_number ≡ e.sequence_number = omega (arith, h.1, k.1) in
        rw (f.is_weekly, g.is_weekly, (==_iff d.sequence_number e.sequence_number).1 both) refl
