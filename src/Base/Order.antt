-- ===== src/Base/Order.antt =====
-- The row that comes first in an order.
use Prim.Native.Nat.{ℕ, ◌≤◌}
use native.Mathlib.Omega.{arith}
use mathlib.Core.Path.{◌≡◌, refl, sym, ap, subst}
use mathlib.Core.Logic.{◌⊎◌, inl, inr}
use mathlib.Core.Bool.{Bool, true, false}
use mathlib.Core.List.{List, [], ◌∷◌}
use mathlib.Core.Option.{none, some, some-injective}
use amazingchance.Base.Tests.{ltb, Bool-cases}
use amazingchance.Base.Lists.{All, head?, length}
use amazingchance.Base.Tables.{order_desc, order_by, place, length-order_by, filter}

module _ {A : Type 0} (later : A → A → Bool) where
  order_by-nil : (xs : List A) → order_by later xs ≡ [] → xs ≡ []
  order_by-nil [] h = refl
  order_by-nil (x ∷ xs) h = absurd (omega (arith, length-order_by later (x ∷ xs), ap length h))

  pub no_head-order_by : (xs : List A) → head? (order_by later xs) ≡ none → xs ≡ []
  no_head-order_by xs h = order_by-nil xs (no_head (order_by later xs) h)
    where
      no_head : (ys : List A) → head? ys ≡ none → ys ≡ []
      no_head [] e = refl
      no_head (y ∷ ys) e = cc

  -- For an order that `later` decides.
  module _ (Before : A → A → Type 0) (same : (x : A) → Before x x)
      (joins : (x y z : A) → Before x y → Before y z → Before x z)
      (behind : (x y : A) → later x y ≡ true → Before y x)
      (ahead : (x y : A) → later x y ≡ false → Before x y) where
    All-joins : (m n : A) (xs : List A) → Before m n → All (Before n) xs → All (Before m) xs
    All-joins m n [] le h = tt
    All-joins m n (x ∷ xs) le h = (joins m n x le h.0, All-joins m n xs le h.1)

    head-place :
        (x : A) (xs ys : List A) {m : A}
        → ((y : A) → head? ys ≡ some y → All (Before y) xs)
        → (ys ≡ [] → xs ≡ [])
        → head? (place later x ys) ≡ some m
        → All (Before m) (x ∷ xs)
    head-place x xs [] top empty h =
        subst (λ m. All (Before m) (x ∷ xs)) (some-injective _ _ h)
          (same x, subst (All (Before x)) (sym (empty refl)) tt)
    head-place x xs (y ∷ ys) top empty h = elim (Bool-cases (later x y)) [
      | inl after ↦
          subst (λ m. All (Before m) (x ∷ xs)) (some-injective _ _ (rw after at h))
            (behind x y after, top y refl)
      | inr before ↦
          subst (λ m. All (Before m) (x ∷ xs)) (some-injective _ _ (rw before at h))
            (same x, All-joins x y xs (ahead x y before) (top y refl))
    ]

    -- The first row in the order is before all of them.
    pub head-order_by :
        (xs : List A) {m : A} → head? (order_by later xs) ≡ some m → All (Before m) xs
    head-order_by [] h = cc
    head-order_by (x ∷ xs) h =
        head-place x xs (order_by later xs) (λ y. head-order_by xs) (order_by-nil xs) h

module _ {A : Type 0} (key : A → ℕ) where
  abbrev pub AtMost : A → List A → Type 0
  AtMost m = All (λ x. key x ≤ key m)

  abbrev has_less : A → A → Bool
  has_less x y = ltb (key x) (key y)

  -- The first row in descending order has the largest key.
  pub head-order_desc : (xs : List A) {m : A} → head? (order_desc key xs) ≡ some m → AtMost m xs
  head-order_desc xs h =
      head-order_by has_less (λ m x. key x ≤ key m) (λ x. omega arith)
        (λ x y z h k. omega (arith, h, k)) (λ x y h. ground arith) (λ x y h. ground arith) xs h

  -- What holds of the rows that a filter keeps holds of every row that passes.
  pub filter-AtMost :
      (p : A → Bool) (m : A) (xs : List A)
      → AtMost m (filter p xs)
      → All (λ x. (p x ≡ false) ⊎ (key x ≤ key m)) xs
  filter-AtMost p m [] h = tt
  filter-AtMost p m (x ∷ xs) h = elim (Bool-cases (p x)) [
    | inl hit ↦
        let k : AtMost m (x ∷ filter p xs) = rw hit at h in (inr k.0, filter-AtMost p m xs k.1)
    | inr miss ↦ (inl miss, filter-AtMost p m xs (rw miss at h))
  ]
