-- ===== src/Base/Exceptions.antt =====
-- The result of a handler: a value, or the exception that it throws. The constructors are the
-- exception classes of the source; a message is kept without the values that it interpolates.
use Prim.Native.String.{String}
use mathlib.Core.Path.{◌≡◌, refl, ap}
use mathlib.Core.Logic.{◌⊎◌, inl, inr}
use mathlib.Core.Bool.{Bool, true, false}
use mathlib.Core.List.{List, [], ◌∷◌}
use mathlib.Core.Option.{Option, none, some}

pub data Exception : Type 0 where
  bad_request conflict not_found range_error plain_error : String → Exception

pub data Outcome {ℓ} (A : Type ℓ) : Type ℓ where
  ok : A → Outcome A
  err : Exception → Outcome A

-- `if (test) throw exception`
abbrev pub throw_if : Bool → Exception → Outcome (Unit {0})
throw_if false exception = ok tt
throw_if true exception = err exception

abbrev pub or_throw {ℓ} : {A : Type ℓ} → Option A → Exception → Outcome A
or_throw (some found) exception = ok found
or_throw none exception = err exception

infixl 5 ◌>>=◌
-- What runs after a call that may throw.
abbrev pub ◌>>=◌ {ℓ κ} : {A : Type ℓ} {B : Type κ} → Outcome A → (A → Outcome B) → Outcome B
err exception >>= continue = err exception
ok value >>= continue = continue value

infixl 5 ◌>>◌
abbrev pub ◌>>◌ {κ} : {C : Type κ} → Outcome (Unit {0}) → Outcome C → Outcome C
check >> continue = check >>= λ _. continue

-- A transaction that throws is rolled back: the state is the one before it.
abbrev pub state_after {ℓ κ} : {S : Type ℓ} {A : Type κ} → S → Outcome (S × A) → S
state_after s (ok (t, a)) = t
state_after s (err e) = s

-- What returned had each part of it return.
pub >>=-eq-ok {ℓ κ} :
    {A : Type ℓ} {B : Type κ} (call : Outcome A) (continue : A → Outcome B) {result : B}
    → (call >>= continue) ≡ ok result
    → (value : A) × (call ≡ ok value) × (continue value ≡ ok result)
>>=-eq-ok (err exception) continue h = cc
>>=-eq-ok (ok value) continue h = (value, refl, h)

pub Outcome-cases {ℓ} :
    {A : Type ℓ} (m : Outcome A) → ((a : A) × (m ≡ ok a)) ⊎ ((e : Exception) × (m ≡ err e))
Outcome-cases (ok a) = inl (a, refl)
Outcome-cases (err e) = inr (e, refl)

-- `if (found) return hit(found)`
abbrev pub if_found {ℓ κ} : {A : Type ℓ} {B : Type κ} → Option A → (A → B) → B → B
if_found none hit miss = miss
if_found (some a) hit miss = hit a

-- To split on what was found, with the equation at hand.
pub if_found_cases {ℓ κ μ} :
    {A : Type ℓ} {B : Type κ} (P : B → Type μ) (o : Option A) (hit : A → B) (miss : B)
    → ((a : A) → o ≡ some a → P (hit a))
    → (o ≡ none → P miss)
    → P (if_found o hit miss)
if_found_cases P none hit miss h m = m refl
if_found_cases P (some a) hit miss h m = h a refl

pub ok-injective {ℓ} : {A : Type ℓ} {a b : A} → ok a ≡ ok b → a ≡ b
ok-injective h = cc

pub err-injective {ℓ} : {A : Type ℓ} {e x : Exception} → ◌≡◌ {A = Outcome A} (err e) (err x) → e ≡ x
err-injective h = cc

-- What a state and a value are, of a transaction that succeeded in two ways.
pub ok_pair {ℓ κ} :
    {S : Type ℓ} {A : Type κ} {s t : S} {a b : A}
    → ◌≡◌ {A = Outcome (S × A)} (ok (s, a)) (ok (t, b))
    → (s ≡ t) × (a ≡ b)
ok_pair h = let e = ok-injective h in (ap (λ p. p.0) e, ap (λ p. p.1) e)

-- The row that a query for two finds, if it finds just one.
abbrev pub only_row {ℓ} : {A : Type ℓ} → Exception → Exception → List A → Outcome A
only_row none_found several_found [] = err none_found
only_row none_found several_found (x ∷ []) = ok x
only_row none_found several_found (x ∷ y ∷ xs) = err several_found

pub only_row_lem {ℓ} :
    {A : Type ℓ} (e f : Exception) (xs : List A) {a : A} → only_row e f xs ≡ ok a → xs ≡ a ∷ []
only_row_lem e f [] h = cc
only_row_lem e f (x ∷ []) h = ap (λ y. y ∷ []) (ok-injective h)
only_row_lem e f (x ∷ y ∷ xs) h = cc

pub throw_if-eq-ok : (b : Bool) (e : Exception) {t : Unit {0}} → throw_if b e ≡ ok t → b ≡ false
throw_if-eq-ok true e h = cc
throw_if-eq-ok false e h = refl

pub or_throw-eq-ok {ℓ} :
    {A : Type ℓ} (o : Option A) (e : Exception) {a : A} → or_throw o e ≡ ok a → o ≡ some a
or_throw-eq-ok none e h = cc
or_throw-eq-ok (some b) e h = ap some (ok-injective h)
