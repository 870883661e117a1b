-- ===== src/Workers/Queue.antt =====
-- Which draw the queries of automated-draw-lifecycle.service.ts find.
use amazingchance.Base.{
  head-order_by, no_head-order_by, ℕ, ◌≤◌, ◌≡◌, refl, inl, inr, Bool, true, none, some, List, [],
  ◌∷◌, filter, any, head?, order_by, All, All-head, All-order_by, All-filter, filter-passes, Misses,
  filter-Misses, Bool-cases, Option-cases, arith,
}
use amazingchance.Draws.Types.{LotteryDraw}
use amazingchance.Draws.Runs.{Mem, All-Mem_self}
use amazingchance.Workers.Lifecycle.{later_by, first_by}

module _ (key : LotteryDraw → ℕ) where
  abbrev pub AreAfter : LotteryDraw → List LotteryDraw → Type 0
  AreAfter m = All (λ x. key m ≤ key x)

  first_is-AreAfter :
      (xs : List LotteryDraw) {m : LotteryDraw}
      → head? (order_by (later_by key) xs) ≡ some m
      → AreAfter m xs
  first_is-AreAfter xs h =
      head-order_by (later_by key) (λ m x. key m ≤ key x) (λ x. omega arith)
        (λ x y z h k. omega (arith, h, k)) (λ x y h. ground arith) (λ x y h. ground arith) xs h

  -- The row that `findFirst` finds is in the table and passes the test, and none that does comes
  -- before it.
  pub first_by_lem :
      (keeps : LotteryDraw → Bool) (draws : List LotteryDraw) {d : LotteryDraw}
      → first_by key keeps draws ≡ some d
      → (keeps d ≡ true) × AreAfter d (filter keeps draws) × Mem d draws
  unfolding first_by
  first_by_lem keeps draws h = (
    All-head (λ x. keeps x ≡ true) (order_by (later_by key) (filter keeps draws))
        (All-order_by (λ x. keeps x ≡ true) (later_by key) (filter keeps draws)
          (filter-passes keeps draws))
        h,
    first_is-AreAfter (filter keeps draws) h,
    All-head (λ x. Mem x draws) (order_by (later_by key) (filter keeps draws))
        (All-order_by (λ x. Mem x draws) (later_by key) (filter keeps draws)
          (All-filter (λ x. Mem x draws) keeps draws (All-Mem_self draws)))
        h,
  )

  pub first_by-none :
      (keeps : LotteryDraw → Bool) (draws : List LotteryDraw)
      → Misses keeps draws
      → first_by key keeps draws ≡ none
  unfolding first_by
  first_by-none keeps draws h = rw (filter-Misses keeps draws h) refl

  pub first_by-some :
      (keeps : LotteryDraw → Bool) (draws : List LotteryDraw)
      → any keeps draws ≡ true
      → (d : LotteryDraw) × (first_by key keeps draws ≡ some d)
  unfolding first_by
  first_by-some keeps draws h =
      elim (Option-cases (head? (order_by (later_by key) (filter keeps draws)))) [
        | inr found ↦ found
        | inl missing ↦
            absurd (some_row draws h (no_head-order_by (later_by key) (filter keeps draws) missing))
      ]
    where
      some_row : (xs : List LotteryDraw) → any keeps xs ≡ true → filter keeps xs ≡ [] → ⊥
      some_row [] found e = cc found
      some_row (x ∷ xs) found e = elim (Bool-cases (keeps x)) [
        | inl hit ↦ cc (rw hit at e)
        | inr miss ↦ some_row xs (rw miss at found) (rw miss at e)
      ]
