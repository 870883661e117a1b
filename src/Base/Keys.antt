-- ===== src/Base/Keys.antt =====
-- Tables whose rows differ in a key.
use native.Mathlib.Omega.{arith}
use mathlib.Core.Path.{◌≡◌, refl, subst}
use mathlib.Core.Logic.{◌⊎◌, inl, inr}
use mathlib.Core.Bool.{Bool, true, false}
use mathlib.Core.List.{List, [], ◌∷◌}
use mathlib.Core.Option.{some, some-injective}
use amazingchance.Base.Tests.{Bool-cases}
use amazingchance.Base.Tables.{any, find, count_where}

abbrev pub IsIn : {A : Type 0} → A → List A → Type 0
IsIn a [] = ⊥
IsIn a (x ∷ xs) = (x ≡ a) ⊎ IsIn a xs

-- No two rows have the same key.
abbrev pub AllDiffer : {A : Type 0} → (A → A → Bool) → List A → Type 0
AllDiffer same [] = Unit
AllDiffer same (x ∷ xs) = (any (same x) xs ≡ false) × AllDiffer same xs

pub find-IsIn : {A : Type 0} (q : A → Bool) (xs : List A) {a : A} → find q xs ≡ some a → IsIn a xs
find-IsIn q [] h = cc
find-IsIn q (x ∷ xs) h = elim (Bool-cases (q x)) [
  | inl this ↦ inl (some-injective _ _ (rw this at h))
  | inr other ↦ inr (find-IsIn q xs (rw other at h))
]

differs :
    {A : Type 0} (same : A → A → Bool) (x a : A) (xs : List A)
    → any (same x) xs ≡ false
    → IsIn a xs
    → same x a ≡ false
differs same x a [] h m = absurd m
differs same x a (y ∷ ys) h (inl e) =
    let not_y : same x y ≡ false = ground arith in subst (λ z. same x z ≡ false) e not_y
differs same x a (y ∷ ys) h (inr m) = differs same x a ys (ground arith) m

no_other :
    {A : Type 0} (p : A → Bool) (same : A → A → Bool) (xs : List A) (a : A)
    → ((x : A) → p x ≡ true → same x a ≡ true)
    → ((x : A) → same x a ≡ same a x)
    → any (same a) xs ≡ false
    → count_where p xs ≡ 0
no_other p same [] a key sym_key h = refl
no_other p same (x ∷ xs) a key sym_key h = elim (Bool-cases (p x)) [
  | inl hit ↦
      let not_x : same a x ≡ false = ground arith in absurd (cc (key x hit, sym_key x, not_x))
  | inr miss ↦ rw miss (omega (arith, no_other p same xs a key sym_key (ground arith)))
]

-- One row passes a test that implies a key, and the rows differ in the key: it is the one with it.
pub count_where-only :
    {A : Type 0} (p : A → Bool) (same : A → A → Bool) (xs : List A) (a : A)
    → ((x : A) → p x ≡ true → same x a ≡ true)
    → ((x : A) → same x a ≡ same a x)
    → AllDiffer same xs
    → IsIn a xs
    → count_where p xs ≡ 1
    → p a ≡ true
count_where-only p same [] a key sym_key d m n = absurd m
count_where-only p same (x ∷ xs) a key sym_key d (inl e) n = elim (Bool-cases (p x)) [
  | inl hit ↦ subst (λ y. p y ≡ true) e hit
  | inr miss ↦
      let none_else =
        no_other p same xs a key sym_key (subst (λ y. any (same y) xs ≡ false) e d.0) in
      absurd (omega (arith, none_else, rw miss at n))
]
count_where-only p same (x ∷ xs) a key sym_key d (inr m) n = elim (Bool-cases (p x)) [
  | inl hit ↦ absurd (cc (key x hit, differs same x a xs d.0 m))
  | inr miss ↦ count_where-only p same xs a key sym_key d.1 m (omega (arith, (rw miss at n)))
]
