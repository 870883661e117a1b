-- ===== src/Base/Tables.antt =====
-- Database tables as lists of rows: what a `where` clause finds, keeps, counts and updates.
use Prim.Native.Nat.{ℕ, suc, ◌+◌}
use native.Mathlib.Omega.{arith}
use mathlib.Core.Path.{◌≡◌, refl, sym, ap, subst, ◌∙◌}
use mathlib.Core.Logic.{inl, inr}
use mathlib.Core.Bool.{Bool, true, false, ◌&&◌, ◌||◌}
use mathlib.Core.List.{List, [], ◌∷◌, ◌++◌}
use mathlib.Core.Option.{Option, none, some, some-injective}
use amazingchance.Base.Tests.{if◌then◌else◌, Bool-cases, ltb}
use amazingchance.Base.Lists.{All, length}

module _ {ℓ} {A : Type ℓ} where
  -- The rows that a `where` clause keeps; `filter` of the source.
  abbrev pub filter : (A → Bool) → List A → List A
  filter p [] = []
  filter p (x ∷ xs) = if p x then x ∷ filter p xs else filter p xs

  -- `find`, and the first row that a `where` clause keeps.
  abbrev pub find : (A → Bool) → List A → Option A
  find p [] = none
  find p (x ∷ xs) = if p x then some x else find p xs

  -- `some` and `every`.
  abbrev pub any : (A → Bool) → List A → Bool
  any p [] = false
  any p (x ∷ xs) = p x || any p xs

  abbrev pub every : (A → Bool) → List A → Bool
  every p [] = true
  every p (x ∷ xs) = p x && every p xs

  -- The new value in every row that a `where` clause keeps.
  abbrev pub update_where : (A → Bool) → (A → A) → List A → List A
  update_where p f [] = []
  update_where p f (x ∷ xs) = (if p x then f x else x) ∷ update_where p f xs

  abbrev pub count_where : (A → Bool) → List A → ℕ
  count_where p [] = 0
  count_where p (x ∷ xs) = (if p x then 1 else 0) + count_where p xs

  -- `orderBy`: `later x y` tells that `x` comes behind `y`.
  abbrev pub place : (A → A → Bool) → A → List A → List A
  place later x [] = x ∷ []
  place later x (y ∷ ys) = if later x y then y ∷ place later x ys else x ∷ y ∷ ys

  abbrev pub order_by : (A → A → Bool) → List A → List A
  order_by later [] = []
  order_by later (x ∷ xs) = place later x (order_by later xs)

  -- `orderBy: { key: 'desc' }` and `orderBy: { key: 'asc' }`.
  abbrev pub order_desc : (A → ℕ) → List A → List A
  order_desc key = order_by (λ x y. ltb (key x) (key y))

  abbrev pub order_asc : (A → ℕ) → List A → List A
  order_asc key = order_by (λ x y. ltb (key y) (key x))

  pub length-place :
      (later : A → A → Bool) (x : A) (xs : List A) → length (place later x xs) ≡ suc (length xs)
  length-place later x [] = refl
  length-place later x (y ∷ ys) = ground (arith, length-place later x ys)

  pub length-order_by :
      (later : A → A → Bool) (xs : List A) → length (order_by later xs) ≡ length xs
  length-order_by later [] = refl
  length-order_by later (x ∷ xs) =
      length-place later x (order_by later xs) ∙ ap suc (length-order_by later xs)

  pub length-filter : (p : A → Bool) (xs : List A) → length (filter p xs) ≡ count_where p xs
  length-filter p [] = refl
  length-filter p (x ∷ xs) = ground (arith, length-filter p xs)

module _ {ℓ κ} {A : Type ℓ} (P : A → Type κ) where
  pub All-place :
      (later : A → A → Bool) (x : A) (xs : List A) → P x → All P xs → All P (place later x xs)
  All-place later x [] h k = (h, tt)
  All-place later x (y ∷ ys) h k = elim (Bool-cases (later x y)) [
    | inl behind ↦ rw behind (k.0, All-place later x ys h k.1)
    | inr before ↦ rw before (h, k)
  ]

  pub All-order_by : (later : A → A → Bool) (xs : List A) → All P xs → All P (order_by later xs)
  All-order_by later [] h = tt
  All-order_by later (x ∷ xs) h =
      All-place later x (order_by later xs) h.0 (All-order_by later xs h.1)

  -- What holds of every row holds of a row that is found, which passes the test.
  pub All-find :
      (p : A → Bool) (xs : List A) {a : A} → All P xs → find p xs ≡ some a → P a × (p a ≡ true)
  All-find p [] h e = cc
  All-find p (x ∷ xs) h e = elim (Bool-cases (p x)) [
    | inl hit ↦ subst (λ a. P a × (p a ≡ true)) (some-injective _ _ (rw hit at e)) (h.0, hit)
    | inr miss ↦ All-find p xs h.1 (rw miss at e)
  ]

  pub All-filter : (p : A → Bool) (xs : List A) → All P xs → All P (filter p xs)
  All-filter p [] h = tt
  All-filter p (x ∷ xs) h = elim (Bool-cases (p x)) [
    | inl hit ↦ rw hit (h.0, All-filter p xs h.1)
    | inr miss ↦ rw miss (All-filter p xs h.1)
  ]

-- Every row that a filter keeps passes its test.
pub filter-passes {ℓ} :
    {A : Type ℓ} (p : A → Bool) (xs : List A) → All (λ a. p a ≡ true) (filter p xs)
filter-passes p [] = tt
filter-passes p (x ∷ xs) = elim (Bool-cases (p x)) [
  | inl hit ↦ rw hit (hit, filter-passes p xs)
  | inr miss ↦ rw miss (filter-passes p xs)
]

module _ {ℓ} {A : Type ℓ} (p : A → Bool) where
  -- No row passes the test.
  abbrev pub Misses : List A → Type 0
  Misses = All (λ a. p a ≡ false)

  pub find-none-Misses : (xs : List A) → find p xs ≡ none → Misses xs
  find-none-Misses [] h = tt
  find-none-Misses (x ∷ xs) h = elim (Bool-cases (p x)) [
    | inl hit ↦ cc (rw hit at h)
    | inr miss ↦ (miss, find-none-Misses xs (rw miss at h))
  ]

  pub filter-Misses : (xs : List A) → Misses xs → filter p xs ≡ []
  filter-Misses [] h = refl
  filter-Misses (x ∷ xs) h = rw h.0 (filter-Misses xs h.1)

  pub find-Misses : (xs : List A) → Misses xs → find p xs ≡ none
  find-Misses [] h = refl
  find-Misses (x ∷ xs) h = rw h.0 (find-Misses xs h.1)

  pub update_where-Misses : (f : A → A) (xs : List A) → Misses xs → update_where p f xs ≡ xs
  update_where-Misses f [] h = refl
  update_where-Misses f (x ∷ xs) h = rw h.0 (ap (◌∷◌ x) (update_where-Misses f xs h.1))

  pub filter-All : (xs : List A) → All (λ a. p a ≡ true) xs → filter p xs ≡ xs
  filter-All [] h = refl
  filter-All (x ∷ xs) h = rw h.0 (ap (◌∷◌ x) (filter-All xs h.1))

  pub filter-append : (xs ys : List A) → filter p (xs ++ ys) ≡ filter p xs ++ filter p ys
  filter-append [] ys = refl
  filter-append (x ∷ xs) ys = elim (Bool-cases (p x)) [
    | inl hit ↦ rw hit (ap (◌∷◌ x) (filter-append xs ys))
    | inr miss ↦ rw miss (filter-append xs ys)
  ]

-- Two filters in a row are one by both tests.
pub filter-filter {ℓ} :
    {A : Type ℓ} (p q r : A → Bool) (xs : List A)
    → ((a : A) → r a ≡ (p a && q a))
    → filter p (filter q xs) ≡ filter r xs
filter-filter p q r [] h = refl
filter-filter p q r (x ∷ xs) h = ground (arith, h x, filter-filter p q r xs h)

-- A row that is found by columns that an update keeps is found again, updated if it was to be.
pub find-update_where {ℓ} :
    {A : Type ℓ} (q p : A → Bool) (f : A → A) (xs : List A) {a : A}
    → ((x : A) → q (f x) ≡ q x)
    → find q xs ≡ some a
    → find q (update_where p f xs) ≡ some (if p a then f a else a)
find-update_where q p f [] keeps h = cc
find-update_where q p f (x ∷ xs) keeps h = elim (Bool-cases (q x)) [
  | inl this ↦
      let is_x = ap (λ y. some (if p y then f y else y)) (some-injective _ _ (rw this at h)) in
      elim (Bool-cases (p x)) [
        | inl hit ↦ rw (hit, keeps x ∙ this) (rw hit at is_x)
        | inr miss ↦ rw (miss, this) (rw miss at is_x)
      ]
  | inr other ↦
      let rest = find-update_where q p f xs keeps (rw other at h) in
      elim (Bool-cases (p x)) [
        | inl hit ↦ rw (hit, keeps x ∙ other) rest
        | inr miss ↦ rw (miss, other) rest
      ]
]

pub find-passes {ℓ} :
    {A : Type ℓ} (p : A → Bool) (xs : List A) {a : A} → find p xs ≡ some a → p a ≡ true
find-passes p [] h = cc
find-passes p (x ∷ xs) h = elim (Bool-cases (p x)) [
  | inl this ↦ subst (λ a. p a ≡ true) (some-injective _ _ (rw this at h)) this
  | inr other ↦ find-passes p xs (rw other at h)
]

-- A row behind all others is placed last.
pub place_last {ℓ} :
    {A : Type ℓ} (later : A → A → Bool) (x : A) (xs : List A)
    → All (λ y. later x y ≡ true) xs
    → place later x xs ≡ xs ++ x ∷ []
place_last later x [] h = refl
place_last later x (y ∷ ys) h = rw h.0 (ap (◌∷◌ y) (place_last later x ys h.1))

count-none {ℓ} :
    {A : Type ℓ} (p q : A → Bool) (xs : List A)
    → count_where p xs ≡ 0
    → count_where (λ x. p x && q x) xs ≡ 0
count-none p q [] h = refl
count-none p q (x ∷ xs) h = ground (arith, count-none p q xs)

-- Rows with one id, of which a found one passes a second test.
pub count-found {ℓ} :
    {A : Type ℓ} (p q : A → Bool) (xs : List A) {a : A}
    → count_where p xs ≡ 1
    → find p xs ≡ some a
    → q a ≡ true
    → count_where (λ x. p x && q x) xs ≡ 1
count-found p q [] one there passes = absurd (cc there)
count-found p q (x ∷ xs) one there passes = elim (Bool-cases (p x)) [
  | inl this ↦
      let is_x = some-injective _ _ (rw this at there) in
      let no_more : count_where p xs ≡ 0 = ground (arith, one, this) in
      let rest = count-none p q xs no_more in
      rw (this, subst (λ y. q y ≡ true) (sym is_x) passes) (omega (arith, rest))
  | inr other ↦
      let rest = count-found p q xs (ground (arith, one, other)) (rw other at there) passes in
      rw other (omega (arith, rest))
]

pub count-found_not {ℓ} :
    {A : Type ℓ} (p q : A → Bool) (xs : List A) {a : A}
    → count_where p xs ≡ 1
    → find p xs ≡ some a
    → q a ≡ false
    → count_where (λ x. p x && q x) xs ≡ 0
count-found_not p q [] one there fails = refl
count-found_not p q (x ∷ xs) one there fails = elim (Bool-cases (p x)) [
  | inl this ↦
      let is_x = some-injective _ _ (rw this at there) in
      let no_more : count_where p xs ≡ 0 = ground (arith, one, this) in
      rw (this, subst (λ y. q y ≡ false) (sym is_x) fails)
        (omega (arith, count-none p q xs no_more))
  | inr other ↦
      rw other (
        omega
          (arith, count-found_not p q xs (ground (arith, one, other)) (rw other at there) fails))
]

pub count-update_where {ℓ} :
    {A : Type ℓ} (p q : A → Bool) (f : A → A) (xs : List A)
    → ((x : A) → p (f x) ≡ p x)
    → count_where p (update_where q f xs) ≡ count_where p xs
count-update_where p q f [] keeps = refl
count-update_where p q f (x ∷ xs) keeps = ground (arith, keeps x, count-update_where p q f xs keeps)

pub count-Misses {ℓ} :
    {A : Type ℓ} (p : A → Bool) (xs : List A) → Misses p xs → count_where p xs ≡ 0
count-Misses p [] h = refl
count-Misses p (x ∷ xs) h = ground (arith, h.0, count-Misses p xs h.1)
