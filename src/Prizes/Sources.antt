-- ===== src/Prizes/Sources.antt =====
-- The payments that the pools of prize-pool.service.ts are made of, told without its queries.
use amazingchance.Base.{
  some-injective, ℕ, ◌≡◌, ◌≢◌, ◌↔◌, ◌⊎◌, refl, sym, ap, subst, inl, inr, String, Bool, true, ◌&&◌,
  some, none, List, [], ◌∷◌, any, str_eq, eq_iff, ◌==◌, ==_iff, Bool-cases, arith,
}
use amazingchance.Ledger.Types.{
  Metadata, MetadataValue, text_value, number_value, other_value, AppendLedgerTransactionInput,
  same_type_iff, payment_allocation,
}
use amazingchance.Ledger.Store.{stored_row}
use amazingchance.Draws.Types.{weekly, LotteryDraw, same_draw_type}
use amazingchance.Draws.Service.{utc_full_year}
use amazingchance.Draws.Runs.{Mem}
use amazingchance.Draws.Earliest.{weekly_iff}
use amazingchance.Prizes.Pool.{is_text, has_member, has_draw_id, is_weekly_source, is_annual_source}

-- The first member of a name has a value.
abbrev pub HasMember : String → MetadataValue → List (String × MetadataValue) → Type 0
HasMember name v [] = ⊥
HasMember name v (p ∷ ps) = ((p.0 ≡ name) × (p.1 ≡ v)) ⊎ ((p.0 ≢ name) × HasMember name v ps)

-- Metadata that are an object with the id of a draw as its `drawId`.
abbrev pub IsOfDraw : String → Metadata → Type 0
IsOfDraw draw_id metadata =
    (members : List (String × MetadataValue)) × (metadata ≡ some members)
    × HasMember "drawId" (text_value draw_id) members

-- A payment's allocation for a draw.
pub record IsWeeklySource (currency draw_id : String) (input : AppendLedgerTransactionInput)
    : Type 0 where
  pub allocates : input.type ≡ payment_allocation
  pub in_currency : input.currency ≡ currency
  pub of_draw : IsOfDraw draw_id input.metadata

-- A payment's allocation for a weekly draw that is held in a year.
pub record IsAnnualSource (currency : String) (year : ℕ) (draws : List LotteryDraw)
    (input : AppendLedgerTransactionInput) : Type 0 where
  pub allocates : input.type ≡ payment_allocation
  pub in_currency : input.currency ≡ currency
  pub draw : LotteryDraw
  pub there : Mem draw draws
  pub of_draw : IsOfDraw draw.id input.metadata
  pub is_weekly : draw.type ≡ weekly
  pub held_in : utc_full_year draw.scheduled_draw_at ≡ year

is_text_iff : (s : String) (v : MetadataValue) → (is_text s v ≡ true) ↔ (v ≡ text_value s)
is_text_iff s (text_value t) = (λ h. ap text_value ((eq_iff t s).0 h), λ h. (eq_iff t s).1 (cc h))
is_text_iff s (number_value z) = (λ h. cc h, λ h. cc h)
is_text_iff s other_value = (λ h. cc h, λ h. cc h)

has_member_iff :
    (s : String) (members : List (String × MetadataValue))
    → (has_member s members ≡ true) ↔ HasMember "drawId" (text_value s) members
has_member_iff s [] = (λ h. cc h, λ h. absurd h)
has_member_iff s (p ∷ ps) = elim (Bool-cases (str_eq p.0 "drawId")) [
  | inl named ↦
      let name = (eq_iff p.0 "drawId").0 named in
      (
        λ h. inl (name, (is_text_iff s p.1).0 (rw named at h)),
        λ h.
            rw named
              (elim h [ inl (_, e) ↦ (is_text_iff s p.1).1 e | inr (n, _) ↦ absurd (n name) ]),
      )
  | inr other ↦ (
    λ h. inr (
      λ e. absurd (cc (other, (eq_iff p.0 "drawId").1 e)),
      (has_member_iff s ps).0 (rw other at h),
    ),
    λ h. rw other (elim h [
      | inl (e, _) ↦ absurd (cc (other, (eq_iff p.0 "drawId").1 e))
      | inr (_, rest) ↦ (has_member_iff s ps).1 rest
    ]),
  )
]

has_draw_id_iff : (s : String) (m : Metadata) → (has_draw_id s m ≡ true) ↔ IsOfDraw s m
has_draw_id_iff s none = (λ h. cc h, λ (_, e, _). cc e)
has_draw_id_iff s (some members) = (
  λ h. (members, refl, (has_member_iff s members).0 h),
  λ (ms, e, h).
      (has_member_iff s members).1
        (subst (HasMember "drawId" (text_value s)) (sym (some-injective _ _ e)) h),
)

any_iff :
    (p : LotteryDraw → Bool) (draws : List LotteryDraw)
    → (any p draws ≡ true) ↔ ((d : LotteryDraw) × Mem d draws × (p d ≡ true))
any_iff p [] = (λ h. cc h, λ (_, m, _). absurd m)
any_iff p (x ∷ draws) = elim (Bool-cases (p x)) [
  | inl hit ↦ (λ h. (x, inl refl, hit), λ h. rw hit refl)
  | inr miss ↦ (
    λ h. let (d, m, k) = (any_iff p draws).0 (rw miss at h) in (d, inr m, k),
    λ (d, m, k).
        rw miss (elim m [
          | inl e ↦ absurd (cc (miss, ap p e, k))
          | inr n ↦ (any_iff p draws).1 (d, n, k)
        ]),
  )
]

module _ (id : String) (now : ℕ) (input : AppendLedgerTransactionInput) where
  pub is_weekly_source_iff :
      (currency draw_id : String)
      → (is_weekly_source currency draw_id (stored_row id now input) ≡ true)
        ↔ IsWeeklySource currency draw_id input
  is_weekly_source_iff currency draw_id = (
    λ h. record {
      allocates = (same_type_iff input.type payment_allocation).0 (ground arith);
      in_currency = (eq_iff input.currency currency).0 (ground arith);
      of_draw = (has_draw_id_iff draw_id input.metadata).0 (ground arith);
    },
    λ s.
        rw
          (
            (same_type_iff input.type payment_allocation).1 s.allocates,
            (eq_iff input.currency currency).1 s.in_currency,
            (has_draw_id_iff draw_id input.metadata).1 s.of_draw,
          )
          refl,
  )

  abbrev is_of_year : ℕ → LotteryDraw → Bool
  is_of_year year d =
      has_draw_id d.id input.metadata
      && same_draw_type d.type weekly
      && utc_full_year d.scheduled_draw_at == year

  pub is_annual_source_iff :
      (currency : String) (year : ℕ) (draws : List LotteryDraw)
      → (is_annual_source currency year draws (stored_row id now input) ≡ true)
        ↔ IsAnnualSource currency year draws input
  is_annual_source_iff currency year draws = (to_source, from_source)
    where
      to_source :
          is_annual_source currency year draws (stored_row id now input) ≡ true
          → IsAnnualSource currency year draws input
      to_source h =
          let (d, m, k) = (any_iff (is_of_year year) draws).0 (ground arith) in
          record {
            allocates = (same_type_iff input.type payment_allocation).0 (ground arith);
            in_currency = (eq_iff input.currency currency).0 (ground arith);
            draw = d;
            there = m;
            of_draw = (has_draw_id_iff d.id input.metadata).0 (ground arith);
            is_weekly = (weekly_iff d.type).0 (ground arith);
            held_in = (==_iff (utc_full_year d.scheduled_draw_at) year).0 (ground arith);
          }

      from_source :
          IsAnnualSource currency year draws input
          → is_annual_source currency year draws (stored_row id now input) ≡ true
      from_source s =
          let k : is_of_year year s.draw ≡ true =
            rw
              (
                (has_draw_id_iff s.draw.id input.metadata).1 s.of_draw,
                (weekly_iff s.draw.type).1 s.is_weekly,
                (==_iff (utc_full_year s.draw.scheduled_draw_at) year).1 s.held_in,
              )
              refl in
          rw
            (
              (same_type_iff input.type payment_allocation).1 s.allocates,
              (eq_iff input.currency currency).1 s.in_currency,
              (any_iff (is_of_year year) draws).1 (s.draw, s.there, k),
            )
            refl
