-- ===== src/Draws/Lifecycle.antt =====
-- The status of a draw under the operations of lottery-draws.service.ts and the `reconcile` of
-- weekly-draw-sales.service.ts: a state machine, and runs of it in any order.
use amazingchance.Base.{
  ℕ, ◌≡◌, refl, sym, ap, subst, ◌∙◌, inl, inr, String, Bool, true, false, some, List, [], ◌∷◌, find,
  find-update_where, any, update_where, count_where, str_eq, eq_iff, ◌==◌, if◌then◌else◌,
  Bool-cases, arith, Outcome, Exception, ◌>>=◌, ok, err, ok_pair, ok-injective, >>=-eq-ok, or_throw,
}
use amazingchance.Draws.Types.{
  DrawStatus, scheduled, sales_open, sales_closed, completed, published, cancelled, LotteryDraw,
  same_status, has_id,
}
use amazingchance.Draws.Service.{insert_draw, find_one, clashes}
use amazingchance.Draws.Transitions.{at_status, with_status, transition_status}

-- The changes of status that the operations make.
pub data Step : DrawStatus → DrawStatus → Type 0 where
  opened : Step scheduled sales_open
  closed : Step sales_open sales_closed
  expired : Step scheduled sales_closed
  called_off : Step scheduled cancelled
  stopped : Step sales_open cancelled
  announced : Step completed published

-- Any number of changes.
pub data Reaches : DrawStatus → DrawStatus → Type 0 where
  stays : {s : DrawStatus} → Reaches s s
  moves : {s t u : DrawStatus} → Step s t → Reaches t u → Reaches s u

pub trans : {s t u : DrawStatus} → Reaches s t → Reaches t u → Reaches s u
trans stays r = r
trans (moves a q) r = moves a (trans q r)

pub one : {s t : DrawStatus} → Step s t → Reaches s t
one a = moves a stays

-- What became of the draw with an id: it is still there, its status reached from the one it had.
abbrev pub Follows : List LotteryDraw → List LotteryDraw → Type 0
Follows rows u =
    (id : String) (d : LotteryDraw)
    → find (has_id id) rows ≡ some d
    → (e : LotteryDraw) × (find (has_id id) u ≡ some e) × Reaches d.status e.status

pub Follows-same : (rows : List LotteryDraw) → Follows rows rows
Follows-same rows id d h = (d, h, stays)

pub Follows-trans : (rows u v : List LotteryDraw) → Follows rows u → Follows u v → Follows rows v
Follows-trans rows u v f g id d h =
    let (e, at_e, r) = f id d h in let (k, at_k, s) = g id e at_e in (k, at_k, trans r s)

pub update_where-found :
    (p : LotteryDraw → Bool) (f : LotteryDraw → LotteryDraw) (rows : List LotteryDraw) (id : String)
    (d : LotteryDraw)
    → ((x : LotteryDraw) → (f x).id ≡ x.id)
    → find (has_id id) rows ≡ some d
    → find (has_id id) (update_where p f rows) ≡ some (if p d then f d else d)
update_where-found p f rows id d same h =
    find-update_where (has_id id) p f rows (λ x. ap (λ i. str_eq i id) (same x)) h

-- The unique keys of the table.
abbrev pub AreUnique : List LotteryDraw → Type 0
AreUnique [] = Unit
AreUnique (d ∷ rows) = (any (clashes d) rows ≡ false) × AreUnique rows

-- What an operation on a table with unique keys keeps.
abbrev pub Keeps : List LotteryDraw → List LotteryDraw → Type 0
Keeps rows u = AreUnique u × Follows rows u

-- An update of columns outside the keys.
pub record IsKeyless (f : LotteryDraw → LotteryDraw) : Type 0 where
  pub id_eq : (d : LotteryDraw) → (f d).id ≡ d.id
  pub left_eq : (d e : LotteryDraw) → clashes (f d) e ≡ clashes d e
  pub right_eq : (d e : LotteryDraw) → clashes d (f e) ≡ clashes d e

any-clashes-update_where :
    (p : LotteryDraw → Bool) (f : LotteryDraw → LotteryDraw) (d : LotteryDraw)
    (rows : List LotteryDraw)
    → IsKeyless f
    → any (clashes d) (update_where p f rows) ≡ any (clashes d) rows
any-clashes-update_where p f d [] k = refl
any-clashes-update_where p f d (x ∷ rows) k =
    let rest = any-clashes-update_where p f d rows k in
    elim (Bool-cases (p x)) [
      | inl hit ↦ rw (hit, rest, k.right_eq d x) refl
      | inr miss ↦ rw (miss, rest) refl
    ]

any-clashes_eq :
    (f : LotteryDraw → LotteryDraw) (d : LotteryDraw) (rows : List LotteryDraw)
    → IsKeyless f
    → any (clashes (f d)) rows ≡ any (clashes d) rows
any-clashes_eq f d [] k = refl
any-clashes_eq f d (x ∷ rows) k = rw (k.left_eq d x, any-clashes_eq f d rows k) refl

pub update_where-AreUnique :
    (p : LotteryDraw → Bool) (f : LotteryDraw → LotteryDraw) (rows : List LotteryDraw)
    → IsKeyless f
    → AreUnique rows
    → AreUnique (update_where p f rows)
update_where-AreUnique p f [] k v = tt
update_where-AreUnique p f (x ∷ rows) k v =
    let fresh : any (clashes x) (update_where p f rows) ≡ false =
      any-clashes-update_where p f x rows k ∙ v.0 in
    (
      elim (Bool-cases (p x)) [
        | inl hit ↦ rw hit (any-clashes_eq f x (update_where p f rows) k ∙ fresh)
        | inr miss ↦ rw miss fresh
      ],
      update_where-AreUnique p f rows k v.1,
    )

-- An update outside the keys whose changes of status, where it finds a draw by its id, are
-- `Reaches`.
pub update_where-Keeps :
    (p : LotteryDraw → Bool) (f : LotteryDraw → LotteryDraw) (rows : List LotteryDraw)
    → IsKeyless f
    → AreUnique rows
    → ((id : String) (d : LotteryDraw)
        → find (has_id id) rows ≡ some d
        → p d ≡ true
        → Reaches d.status (f d).status)
    → Keeps rows (update_where p f rows)
update_where-Keeps p f rows k v r = (
  update_where-AreUnique p f rows k v,
  λ id d found.
      let now_there = update_where-found p f rows id d k.id_eq found in
      elim (Bool-cases (p d)) [
        | inl hit ↦ (f d, rw hit at now_there, r id d found hit)
        | inr miss ↦ (d, rw miss at now_there, stays)
      ],
)

insert_draw-rows :
    (draw : LotteryDraw) (rows : List LotteryDraw) {p : List LotteryDraw × LotteryDraw}
    → insert_draw draw rows ≡ ok p
    → (p.0 ≡ draw ∷ rows) × (any (clashes draw) rows ≡ false)
unfolding insert_draw
insert_draw-rows draw rows h = elim (Bool-cases (any (clashes draw) rows)) [
  | inl clash ↦ cc (rw clash at h)
  | inr fresh ↦ (sym (ap (λ q. q.0) (ok-injective (rw fresh at h))), fresh)
]

-- A row that is found has not the id of a new one.
other_id :
    (draw : LotteryDraw) (rows : List LotteryDraw) (id : String) (d : LotteryDraw)
    → any (clashes draw) rows ≡ false
    → find (has_id id) rows ≡ some d
    → has_id id draw ≡ false
other_id draw [] id d fresh h = cc
other_id draw (x ∷ rows) id d fresh h = elim (Bool-cases (has_id id x)) [
  | inl this ↦
      let not_x : str_eq draw.id x.id ≡ false = ground arith in
      subst (λ i. str_eq draw.id i ≡ false) ((eq_iff x.id id).0 this) not_x
  | inr other ↦ other_id draw rows id d (ground arith) (rw other at h)
]

pub insert_draw-Keeps :
    (draw : LotteryDraw) (rows : List LotteryDraw) {p : List LotteryDraw × LotteryDraw}
    → AreUnique rows
    → insert_draw draw rows ≡ ok p
    → Keeps rows p.0
insert_draw-Keeps draw rows {p} v h =
    let (rows_eq, fresh) = insert_draw-rows draw rows h in
    (
      rw rows_eq (fresh, v),
      λ id d found. (d, rw (rows_eq, other_id draw rows id d fresh found) found, stays),
    )

pub Reaches-of_status :
    (id : String) (statuses : List DrawStatus) (next : DrawStatus)
    → ((s : DrawStatus) → any (same_status s) statuses ≡ true → Reaches s next)
    → (d : LotteryDraw) → at_status id statuses d ≡ true
    → Reaches d.status next
Reaches-of_status id statuses next r d h = r d.status (ground arith)

no_ok :
    {A : Type 0} {B : Type 0} (m : Outcome A) (e : Exception) {b : B}
    → (m >>= λ _. err e) ≡ ok b
    → ⊥
no_ok (ok a) e h = cc
no_ok (err f) e h = cc

pub transition_status-Keeps :
    (now : ℕ) (rows : List LotteryDraw) (id : String) (statuses : List DrawStatus)
    (next : DrawStatus) {u : List LotteryDraw} {e : LotteryDraw}
    → ((s : DrawStatus) → any (same_status s) statuses ≡ true → Reaches s next)
    → AreUnique rows
    → transition_status now rows id statuses next ≡ ok (u, e)
    → Keeps rows u
unfolding transition_status
transition_status-Keeps now rows id statuses next {u} r v h =
    elim (Bool-cases (count_where (at_status id statuses) rows == 1)) [
      | inl changed ↦
          let updated = update_where (at_status id statuses) (with_status now next) rows in
          let (_, _, k) = >>=-eq-ok (find_one updated id) _ (rw changed at h) in
          let keyless : IsKeyless (with_status now next) = record {
            id_eq = λ d. refl;
            left_eq = λ d e. refl;
            right_eq = λ d e. refl;
          } in
          subst (Keeps rows) (ok_pair k).0 (
            update_where-Keeps (at_status id statuses) (with_status now next) rows keyless v
              (λ i d found. Reaches-of_status id statuses next r d))
      | inr refused ↦ absurd (no_ok (or_throw (find (has_id id) rows) _) _ (rw refused at h))
    ]

pub opens_from :
    (s : DrawStatus) → any (same_status s) (scheduled ∷ []) ≡ true → Reaches s sales_open
opens_from scheduled h = one opened
opens_from _ h = cc

pub closes_from :
    (s : DrawStatus) → any (same_status s) (sales_open ∷ []) ≡ true → Reaches s sales_closed
closes_from sales_open h = one closed
closes_from _ h = cc

pub cancels_from :
    (s : DrawStatus)
    → any (same_status s) (scheduled ∷ sales_open ∷ []) ≡ true
    → Reaches s cancelled
cancels_from scheduled h = one called_off
cancels_from sales_open h = one stopped
cancels_from _ h = cc

pub publishes_from :
    (s : DrawStatus) → any (same_status s) (completed ∷ []) ≡ true → Reaches s published
publishes_from completed h = one announced
publishes_from _ h = cc
