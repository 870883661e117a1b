-- ===== src/Snapshots/Encoding.antt =====
-- How the canonical encoding of snapshot-cryptography.service.ts is read back.
use amazingchance.Base.{
  ℕ, zero, suc, ◌+◌, ◌-◌, ◌*◌, ◌/◌, ◌%◌, ◌≤◌, ◌<◌, ◌≡◌, refl, sym, ap, ap₂, ◌∙◌, ◌⊎◌, inl, inr,
  List, [], ◌∷◌, ◌++◌, map, length, ltb, All, All-append, Bool-cases, arith,
}
use amazingchance.Snapshots.Cryptography.{
  Bytes, CanonicalSnapshotEntry, digits_of, to_decimal, join, encode_field, bar, newline,
  serialize_entry,
}
use mathlib.Core.List.{append_assoc, append-nil}

-- The number that digits denote.
abbrev value_of : ℕ → Bytes → ℕ
value_of acc [] = acc
value_of acc (c ∷ cs) = value_of (acc * 10 + (c - b'0')) cs

value_of-append :
    (acc c : ℕ) (cs : Bytes) → value_of acc (cs ++ c ∷ []) ≡ value_of acc cs * 10 + (c - b'0')
value_of-append acc c [] = refl
value_of-append acc c (d ∷ cs) = value_of-append (acc * 10 + (d - b'0')) c cs

value_of-digits_of : (fuel n : ℕ) → n < fuel → value_of 0 (digits_of fuel n) ≡ n
unfolding digits_of
value_of-digits_of zero n h = absurd (omega arith)
value_of-digits_of (suc fuel) n h = elim (Bool-cases (ltb n 10)) [
  | inl one ↦ rw one (omega arith)
  | inr more ↦
      let big : 10 ≤ n = ground arith in
      rw
        (
          more,
          value_of-append 0 (b'0' + n % 10) (digits_of fuel (n / 10)),
          value_of-digits_of fuel (n / 10) (omega arith),
        )
        (omega arith)
]

to_decimal-injective : (m n : ℕ) → to_decimal m ≡ to_decimal n → m ≡ n
unfolding to_decimal
to_decimal-injective m n h =
    sym (value_of-digits_of (suc m) m (omega arith))
    ∙ ap (value_of 0) h
    ∙ value_of-digits_of (suc n) n (omega arith)

abbrev IsDigit : ℕ → Type 0
IsDigit c = (b'0' ≤ c) × (c < b':')

digits_of-IsDigit : (fuel n : ℕ) → All IsDigit (digits_of fuel n)
unfolding digits_of
digits_of-IsDigit zero n = tt
digits_of-IsDigit (suc fuel) n = elim (Bool-cases (ltb n 10)) [
  | inl one ↦ rw one ((omega arith, ground arith), tt)
  | inr more ↦ rw more (
      All-append IsDigit (digits_of fuel (n / 10)) _ (digits_of-IsDigit fuel (n / 10))
        ((omega arith, omega arith), tt))
]

head_eq : {x y : ℕ} {xs ys : Bytes} → x ∷ xs ≡ y ∷ ys → x ≡ y
head_eq h = cc

tail_eq : {x y : ℕ} {xs ys : Bytes} → x ∷ xs ≡ y ∷ ys → xs ≡ ys
tail_eq h = cc

-- Digits end where the first other byte stands.
split_digits :
    (stop : ℕ) (xs ys us vs : Bytes)
    → (stop < b'0') ⊎ (b':' ≤ stop)
    → All IsDigit xs
    → All IsDigit ys
    → xs ++ stop ∷ us ≡ ys ++ stop ∷ vs
    → (xs ≡ ys) × (us ≡ vs)
split_digits stop [] [] us vs s h k e = (refl, tail_eq e)
split_digits stop [] (y ∷ ys) us vs s h k e = absurd (ground (arith, head_eq e, k.0))
split_digits stop (x ∷ xs) [] us vs s h k e = absurd (ground (arith, head_eq e, h.0))
split_digits stop (x ∷ xs) (y ∷ ys) us vs s h k e =
    let rest = split_digits stop xs ys us vs s h.1 k.1 (tail_eq e) in
    (ap₂ ◌∷◌ (head_eq e) rest.0, rest.1)

split_decimal :
    (stop m n : ℕ) (us vs : Bytes)
    → (stop < b'0') ⊎ (b':' ≤ stop)
    → to_decimal m ++ stop ∷ us ≡ to_decimal n ++ stop ∷ vs
    → (m ≡ n) × (us ≡ vs)
split_decimal stop m n us vs s e =
    let parts =
      split_digits stop (to_decimal m) (to_decimal n) us vs s
        (unfold to_decimal in digits_of-IsDigit (suc m) m)
        (unfold to_decimal in digits_of-IsDigit (suc n) n) e in
    (to_decimal-injective m n parts.0, parts.1)

-- Texts of one length end at the same place.
pub split_length :
    (xs ys us vs : Bytes) → length xs ≡ length ys → xs ++ us ≡ ys ++ vs → (xs ≡ ys) × (us ≡ vs)
split_length [] [] us vs l e = (refl, e)
split_length [] (y ∷ ys) us vs l e = absurd (omega arith)
split_length (x ∷ xs) [] us vs l e = absurd (omega arith)
split_length (x ∷ xs) (y ∷ ys) us vs l e =
    let rest = split_length xs ys us vs (omega arith) (tail_eq e) in
    (ap₂ ◌∷◌ (head_eq e) rest.0, rest.1)

split_field :
    (v w us vs : Bytes) → encode_field v ++ us ≡ encode_field w ++ vs → (v ≡ w) × (us ≡ vs)
unfolding encode_field
split_field v w us vs e =
    let opened =
      sym (append_assoc (to_decimal (length v)) (b':' ∷ v) us)
      ∙ e
      ∙ append_assoc (to_decimal (length w)) (b':' ∷ w) vs in
    let parts =
      split_decimal b':' (length v) (length w) (v ++ us) (w ++ vs) (inr (omega arith)) opened in
    split_length v w us vs parts.0 parts.1

-- The text of an entry shows where it ends.
split_entry :
    (a b : CanonicalSnapshotEntry) (us vs : Bytes)
    → serialize_entry a ++ us ≡ serialize_entry b ++ vs
    → (a ≡ b) × (us ≡ vs)
unfolding serialize_entry join
split_entry a b us vs e =
    let last = encode_field a.owner_public_ref in
    let last' = encode_field b.owner_public_ref in
    let mid = encode_field a.ticket_public_id in
    let mid' = encode_field b.ticket_public_id in
    let opened =
      sym (append_assoc (to_decimal a.position) (bar ∷ mid ++ bar ∷ last) us)
      ∙ e
      ∙ append_assoc (to_decimal b.position) (bar ∷ mid' ++ bar ∷ last') vs in
    let (p, rest) = split_decimal bar a.position b.position _ _ (inr (omega arith)) opened in
    let (t, more) =
      split_field a.ticket_public_id b.ticket_public_id (bar ∷ last ++ us) (bar ∷ last' ++ vs)
        (sym (append_assoc mid (bar ∷ last) us) ∙ rest ∙ append_assoc mid' (bar ∷ last') vs) in
    let (o, end) = split_field a.owner_public_ref b.owner_public_ref us vs (tail_eq more) in
    (cc, end)

-- Two entries with one text are the same entry.
pub serialize_entry-injective :
    (a b : CanonicalSnapshotEntry) → serialize_entry a ≡ serialize_entry b → a ≡ b
serialize_entry-injective a b e = (split_entry a b [] [] (ap (λ s. s ++ []) e)).0

-- Each entry's text behind a newline.
abbrev pub lines : List CanonicalSnapshotEntry → Bytes
lines [] = []
lines (e ∷ es) = newline ∷ serialize_entry e ++ lines es

pub join-lines :
    (x : Bytes) (es : List CanonicalSnapshotEntry)
    → join newline (x ∷ map serialize_entry es) ≡ x ++ lines es
unfolding join
join-lines x [] = sym (append-nil x)
join-lines x (e ∷ es) = ap (λ s. x ++ newline ∷ s) (join-lines (serialize_entry e) es)

lines-injective : (xs ys : List CanonicalSnapshotEntry) → lines xs ≡ lines ys → xs ≡ ys
lines-injective [] [] e = refl
lines-injective [] (b ∷ ys) e = cc
lines-injective (a ∷ xs) [] e = cc
lines-injective (a ∷ xs) (b ∷ ys) e =
    let (same, rest) = split_entry a b (lines xs) (lines ys) (tail_eq e) in
    ap₂ ◌∷◌ same (lines-injective xs ys rest)

ends_line :
    (es : List CanonicalSnapshotEntry) → (us : Bytes) × (lines es ++ newline ∷ [] ≡ newline ∷ us)
ends_line [] = ([], refl)
ends_line (e ∷ es) = (_, refl)

pub counted_lines-injective :
    (m n : ℕ) (xs ys : List CanonicalSnapshotEntry)
    → to_decimal m ++ lines xs ≡ to_decimal n ++ lines ys
    → xs ≡ ys
counted_lines-injective m n xs ys e =
    let (us, p) = ends_line xs in
    let (vs, q) = ends_line ys in
    let whole =
      ap (λ s. to_decimal m ++ s) (sym p)
      ∙ sym (append_assoc (to_decimal m) (lines xs) (newline ∷ []))
      ∙ ap (λ s. s ++ newline ∷ []) e
      ∙ append_assoc (to_decimal n) (lines ys) (newline ∷ [])
      ∙ ap (λ s. to_decimal n ++ s) q in
    let same : m ≡ n = (split_decimal newline m n us vs (inl (omega arith)) whole).0 in
    lines-injective xs ys
      (split_length (to_decimal m) (to_decimal n) (lines xs) (lines ys)
        (ap (λ k. length (to_decimal k)) same) e).1
