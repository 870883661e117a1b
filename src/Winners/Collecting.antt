-- ===== src/Winners/Collecting.antt =====
-- What the loop of `selectWinnerPositions` of winner-selection.util.ts collects.
use amazingchance.Base.{
  ℕ, suc, ◌-◌, ◌<◌, ℤ, ◌==ℤ◌, ==ℤ_iff, ==_iff, ◌≢◌, ◌≡◌, refl, sym, ap, ◌∙◌, inl, inr, Bool, true,
  false, not, ◌&&◌, ◌||◌, List, [], ◌∷◌, ◌++◌, length, length-append, filter, take, ◌==◌, take-nil,
  filter-filter, arith, Bool-cases, ok, ok-injective,
}
use mathlib.Core.List.{append_assoc, append-nil}
use amazingchance.Winners.Selection.{contains, is_outside, collect}

abbrev pub other_than : ℤ → ℤ → Bool
other_than p q = not (q ==ℤ p)

-- The positions without repetitions, each where it stands first.
unfoldable pub first_occurrences : List ℤ → List ℤ
first_occurrences [] = []
first_occurrences (p ∷ ps) = p ∷ filter (other_than p) (first_occurrences ps)

abbrev pub unseen : List ℤ → List ℤ → List ℤ
unseen u ps = filter (λ q. not (contains q u)) (first_occurrences ps)

pub contains-append : (q p : ℤ) (u : List ℤ) → contains q (u ++ p ∷ []) ≡ (contains q u || p ==ℤ q)
contains-append q p [] = ground arith
contains-append q p (x ∷ u) = ground (arith, contains-append q p u)

pub ==ℤ_comm : (p q : ℤ) → (p ==ℤ q) ≡ (q ==ℤ p)
==ℤ_comm p q = ground arith

-- Behind a position that was seen, nothing changes.
pub unseen_seen : (p : ℤ) (u ps : List ℤ) → contains p u ≡ true → unseen u (p ∷ ps) ≡ unseen u ps
unfolding first_occurrences
unseen_seen p u ps h = rw h (
    filter-filter (λ q. not (contains q u)) (other_than p) (λ q. not (contains q u))
      (first_occurrences ps) pointwise)
  where
    pointwise : (q : ℤ) → not (contains q u) ≡ (not (contains q u) && other_than p q)
    pointwise q = elim (Bool-cases (q ==ℤ p)) [
      | inl same ↦ rw ((==ℤ_iff q p).0 same) (rw h refl)
      | inr apart ↦ rw apart (ground arith)
    ]

-- A new position is taken, and is seen from there on.
pub unseen_new :
    (p : ℤ) (u ps : List ℤ) → contains p u ≡ false → unseen u (p ∷ ps) ≡ p ∷ unseen (u ++ p ∷ []) ps
unfolding first_occurrences
unseen_new p u ps h = rw h (
    ap (◌∷◌ p) (
      filter-filter (λ q. not (contains q u)) (other_than p) (λ q. not (contains q (u ++ p ∷ [])))
        (first_occurrences ps) pointwise))
  where
    pointwise : (q : ℤ) → not (contains q (u ++ p ∷ [])) ≡ (not (contains q u) && other_than p q)
    pointwise q = ground (arith, contains-append q p u, ==ℤ_comm p q)

pub take_front :
    (wanted : ℕ) (u xs : List ℤ) (p : ℤ)
    → suc (length u) < wanted
    → (u ++ p ∷ []) ++ take (wanted - length (u ++ p ∷ [])) xs
      ≡ u ++ take (wanted - length u) (p ∷ xs)
take_front wanted u xs p h =
    let rest : wanted - length u ≡ suc (wanted - length (u ++ p ∷ [])) =
      omega (arith, length-append u (p ∷ [])) in
    rw rest (append_assoc u (p ∷ []) (take (wanted - length (u ++ p ∷ [])) xs))

-- What the loop did at a position, if it did not throw.
pub data Steps (wanted count : ℕ) (p : ℤ) (ps u r : List ℤ) : Type 0 where
  skipped : contains p u ≡ true → collect wanted count ps u ≡ ok r → Steps wanted count p ps u r
  finished :
      contains p u ≡ false
      → length (u ++ p ∷ []) ≡ wanted
      → r ≡ u ++ p ∷ []
      → Steps wanted count p ps u r
  went_on :
      contains p u ≡ false
      → length (u ++ p ∷ []) ≢ wanted
      → collect wanted count ps (u ++ p ∷ []) ≡ ok r
      → Steps wanted count p ps u r

pub collect_step :
    (wanted count : ℕ) (p : ℤ) (ps u : List ℤ) {r : List ℤ}
    → collect wanted count (p ∷ ps) u ≡ ok r
    → (is_outside count p ≡ false) × Steps wanted count p ps u r
unfolding collect
collect_step wanted count p ps u h = elim (Bool-cases (is_outside count p)) [
  | inl outside ↦ absurd (cc (rw outside at h))
  | inr inside ↦ (
    inside,
    elim (Bool-cases (contains p u)) [
      | inl seen ↦ skipped seen (rw seen at (rw inside at h))
      | inr new ↦ elim (Bool-cases (length (u ++ p ∷ []) == wanted)) [
        | inl full ↦
            finished new ((==_iff (length (u ++ p ∷ [])) wanted).0 full)
              (sym (ok-injective (rw full at (rw new at (rw inside at h)))))
        | inr more ↦
            went_on new (λ e. cc (more, (==_iff (length (u ++ p ∷ [])) wanted).1 e))
              (rw more at (rw new at (rw inside at h)))
      ]
    ],
  )
]

pub collect_end :
    (wanted count : ℕ) (u : List ℤ) {r : List ℤ} → collect wanted count [] u ≡ ok r → r ≡ u
unfolding collect
collect_end wanted count u h = sym (ok-injective h)

pub take-unseen_nil : (n : ℕ) (u : List ℤ) → take n (unseen u []) ≡ []
unfolding first_occurrences
take-unseen_nil n u = take-nil n

pub collect-unseen :
    (wanted count : ℕ) (ps u : List ℤ) {r : List ℤ}
    → length u < wanted
    → collect wanted count ps u ≡ ok r
    → r ≡ u ++ take (wanted - length u) (unseen u ps)
collect-unseen wanted count [] u room h =
    collect_end wanted count u h
    ∙ sym (append-nil u)
    ∙ ap (◌++◌ u) (sym (take-unseen_nil (wanted - length u) u))
collect-unseen wanted count (p ∷ ps) u {r} room h = elim (collect_step wanted count p ps u h).1 [
  | skipped seen again ↦
      collect-unseen wanted count ps u room again
      ∙ ap (λ xs. u ++ take (wanted - length u) xs) (sym (unseen_seen p u ps seen))
  | finished new full e ↦
      let one : wanted - length u ≡ 1 = omega (arith, length-append u (p ∷ [])) in
      e
      ∙ sym (ap (λ n. u ++ take n (p ∷ unseen (u ++ p ∷ []) ps)) one)
      ∙ ap (λ xs. u ++ take (wanted - length u) xs) (sym (unseen_new p u ps new))
  | went_on new more again ↦
      collect-unseen wanted count ps (u ++ p ∷ []) (omega (arith, length-append u (p ∷ []))) again
      ∙ take_front wanted u (unseen (u ++ p ∷ []) ps) p (omega (arith, length-append u (p ∷ [])))
      ∙ ap (λ xs. u ++ take (wanted - length u) xs) (sym (unseen_new p u ps new))
]
