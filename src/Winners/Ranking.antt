-- ===== src/Winners/Ranking.antt =====
-- The rows that `finalizeInTransaction` of winner-selection.service.ts writes to `draw_winners`, in
-- the order in which it reads them back.
use mathlib.Core.List.{append-nil, append_assoc}
use amazingchance.Base.{
  place_last, ℕ, suc, ◌+◌, ◌≤◌, ℤ, ◌==ℤ◌, ==ℤ_iff, String, ◌≡◌, refl, sym, ap, ap₂, subst, ◌∙◌,
  Bool, true, List, [], ◌∷◌, ◌++◌, map, length, length-order_by, filter, find, any, ltb,
  str_eq_refl, All, All-append, find-passes, arith, ok, ok-injective, >>=-eq-ok, throw_if, or_throw,
  or_throw-eq-ok, plain_error,
}
use amazingchance.Winners.Tables.{SnapshotEntry, DrawWinner, winner_of_draw}
use amazingchance.Winners.Recognition.{Generated}
use amazingchance.Winners.Existing.{winners_of}
use amazingchance.Winners.Evidence.{ordered_entries}
use amazingchance.Winners.Finalizer.{winner_clashes, winner_row, create_winners}

-- The rows of entries, ranked from an index on.
abbrev pub ranked : Generated → String → ℕ → List SnapshotEntry → List DrawWinner
ranked g draw_id index [] = []
ranked g draw_id index (e ∷ es) =
    winner_row g draw_id (index + 1) e ∷ ranked g draw_id (index + 1) es

module _ (g : Generated) (draw_id : String) where
  abbrev by_rank : DrawWinner → DrawWinner → Bool
  by_rank x y = ltb y.rank x.rank

  abbrev AreBefore : ℕ → List DrawWinner → Type 0
  AreBefore index = All (λ w. w.rank ≤ index)

  AreBefore-more :
      (index : ℕ) (ws : List DrawWinner) → AreBefore index ws → AreBefore (index + 1) ws
  AreBefore-more index [] h = tt
  AreBefore-more index (w ∷ ws) h = (omega (arith, h.0), AreBefore-more index ws h.1)

  before-later :
      (index : ℕ) (e : SnapshotEntry) (ws : List DrawWinner)
      → AreBefore index ws
      → All (λ w. by_rank (winner_row g draw_id (index + 1) e) w ≡ true) ws
  before-later index e [] h = tt
  before-later index e (w ∷ ws) h = (ground (arith, h.0), before-later index e ws h.1)

  winners_of-cons :
      (index : ℕ) (e : SnapshotEntry) (winners : List DrawWinner)
      → AreBefore index (winners_of draw_id winners)
      → winners_of draw_id (winner_row g draw_id (index + 1) e ∷ winners)
        ≡ winners_of draw_id winners ++ winner_row g draw_id (index + 1) e ∷ []
  winners_of-cons index e winners h = rw (str_eq_refl draw_id) (
      place_last by_rank (winner_row g draw_id (index + 1) e) (winners_of draw_id winners)
        (before-later index e (winners_of draw_id winners) h))

  pub create_winners-ranked :
      (index : ℕ) (es : List SnapshotEntry) (winners : List DrawWinner) {made : List DrawWinner}
      → AreBefore index (winners_of draw_id winners)
      → create_winners g draw_id index es winners ≡ ok made
      → winners_of draw_id made ≡ winners_of draw_id winners ++ ranked g draw_id index es
  unfolding create_winners
  create_winners-ranked index [] winners {made} before h =
      ap (winners_of draw_id) (sym (ok-injective h)) ∙ sym (append-nil (winners_of draw_id winners))
  create_winners-ranked index (e ∷ es) winners {made} before h =
      let row = winner_row g draw_id (index + 1) e in
      let (_, _, h1) =
        >>=-eq-ok (throw_if (any (winner_clashes row) winners) (plain_error "P2002")) _ h in
      let there = winners_of-cons index e winners before in
      let next : AreBefore (index + 1) (winners_of draw_id (row ∷ winners)) =
        subst (AreBefore (index + 1)) (sym there) (
          All-append (λ w. w.rank ≤ index + 1) (winners_of draw_id winners) (row ∷ [])
            (AreBefore-more index (winners_of draw_id winners) before) (omega arith, tt)) in
      create_winners-ranked (index + 1) es (row ∷ winners) next h1
      ∙ ap (λ ws. ws ++ ranked g draw_id (index + 1) es) there
      ∙ append_assoc (winners_of draw_id winners) (row ∷ []) (ranked g draw_id (index + 1) es)

  -- Whatever the order of the table, as many rows are added as there are entries.
  length-create_winners :
      (index : ℕ) (es : List SnapshotEntry) (winners : List DrawWinner) {made : List DrawWinner}
      → create_winners g draw_id index es winners ≡ ok made
      → length (filter (winner_of_draw draw_id) made)
        ≡ length (filter (winner_of_draw draw_id) winners) + length es
  unfolding create_winners
  length-create_winners index [] winners h =
      ap (λ ws. length (filter (winner_of_draw draw_id) ws)) (sym (ok-injective h)) ∙ omega arith
  length-create_winners index (e ∷ es) winners h =
      let row = winner_row g draw_id (index + 1) e in
      let (_, _, h1) =
        >>=-eq-ok (throw_if (any (winner_clashes row) winners) (plain_error "P2002")) _ h in
      let kept : length (filter (winner_of_draw draw_id) (row ∷ winners))
          ≡ suc (length (filter (winner_of_draw draw_id) winners)) =
        rw (str_eq_refl draw_id) refl in
      omega (arith, length-create_winners (index + 1) es (row ∷ winners) h1, kept)

  no_rows : (ws : List DrawWinner) → length ws ≡ 0 → ws ≡ []
  no_rows [] h = refl
  no_rows (w ∷ ws) h = absurd (omega arith)

  -- Where the draw has as many winners as entries won, it had none before.
  pub create_winners-all :
      (es : List SnapshotEntry) (winners : List DrawWinner) {made : List DrawWinner}
      → create_winners g draw_id 0 es winners ≡ ok made
      → length (winners_of draw_id made) ≡ length es
      → winners_of draw_id made ≡ ranked g draw_id 0 es
  create_winners-all es winners {made} h counted =
      let before = no_rows (winners_of draw_id winners) (
        omega (
          arith,
          counted,
          length-create_winners 0 es winners h,
          length-order_by by_rank (filter (winner_of_draw draw_id) made),
          length-order_by by_rank (filter (winner_of_draw draw_id) winners),
        )) in
      create_winners-ranked 0 es winners (subst (AreBefore 0) (sym before) tt) h
      ∙ ap (λ ws. ws ++ ranked g draw_id 0 es) before

  pub positions_ranked :
      (index : ℕ) (es : List SnapshotEntry)
      → map (λ w. w.random_position) (ranked g draw_id index es) ≡ map (λ e. e.position) es
  positions_ranked index [] = refl
  positions_ranked index (e ∷ es) = ap (◌∷◌ e.position) (positions_ranked (index + 1) es)

pub ordered_entries_positions :
    (entries : List SnapshotEntry) (ps : List ℤ) {es : List SnapshotEntry}
    → ordered_entries entries ps ≡ ok es
    → map (λ e. e.position) es ≡ ps
unfolding ordered_entries
ordered_entries_positions entries [] h = ap (map (λ e. e.position)) (sym (ok-injective h))
ordered_entries_positions entries (p ∷ ps) h =
    let (e, a, h0) = >>=-eq-ok (or_throw (find (λ e. e.position ==ℤ p) entries) _) _ h in
    let (es, b, h1) = >>=-eq-ok (ordered_entries entries ps) _ h0 in
    let here = or_throw-eq-ok (find (λ e. e.position ==ℤ p) entries) _ a in
    let passes = find-passes (λ e. e.position ==ℤ p) entries here in
    ap (map (λ e. e.position)) (sym (ok-injective h1))
    ∙ ap₂ ◌∷◌ ((==ℤ_iff e.position p).0 passes) (ordered_entries_positions entries ps b)
