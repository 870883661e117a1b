-- ===== src/Snapshots/Numbering.antt =====
-- The numbered entries that `build` of snapshot-builder.service.ts writes, as the finalizer reads them.
use amazingchance.Base.{
  ℕ, suc, ◌+◌, String, ◌≡◌, refl, sym, ap, ap₂, subst, ◌∙◌, true, false, List, [], ◌∷◌, ◌++◌, map,
  length, length-map, filter, filter-append, filter-All, filter-Misses, Misses, place, order_asc,
  ltb, str_eq, str_eq_refl, ◌==◌, ==_iff, All, arith,
}
use mathlib.Core.List.{append-nil}
use amazingchance.Snapshots.Cryptography.{Bytes, CanonicalSnapshotEntry}
use amazingchance.Snapshots.Finalizer.{SnapshotEntryRow, SnapshotTables, entries_of, are_continuous}
use amazingchance.Snapshots.Builder.{SoldTicket, entry_rows}

-- Entries in the order of their positions stay in it.
pub place_first :
    (e : CanonicalSnapshotEntry) (es : List CanonicalSnapshotEntry)
    → are_continuous e.position es ≡ true
    → place (λ x y. ltb y.position x.position) e es ≡ e ∷ es
unfolding are_continuous
place_first e [] h = refl
place_first e (x ∷ es) h =
    let behind : ltb x.position e.position ≡ false = ground arith in rw behind refl

pub order_continuous :
    (index : ℕ) (es : List CanonicalSnapshotEntry)
    → are_continuous index es ≡ true
    → order_asc (λ e. e.position) es ≡ es
unfolding are_continuous
order_continuous index [] h = refl
order_continuous index (e ∷ es) h =
    let at : e.position ≡ index + 1 = ground arith in
    let rest : are_continuous (index + 1) es ≡ true = ground arith in
    ap (place (λ x y. ltb y.position x.position) e) (order_continuous (index + 1) es rest)
    ∙ place_first e es (subst (λ n. are_continuous n es ≡ true) (sym at) rest)

module _ (hmac : Bytes → Bytes → Bytes) (owner_secret : Bytes) (new_id draw_id : String) where
  abbrev pub rows : ℕ → List SoldTicket → List SnapshotEntryRow
  rows = entry_rows hmac owner_secret new_id draw_id

  abbrev pub entry_of : SnapshotEntryRow → CanonicalSnapshotEntry
  entry_of r = r.entry

  pub rows_own :
      (index : ℕ) (ts : List SoldTicket)
      → All (λ r. str_eq r.snapshot_id new_id ≡ true) (rows index ts)
  unfolding entry_rows
  rows_own index [] = tt
  rows_own index (t ∷ ts) = (str_eq_refl new_id, rows_own (index + 1) ts)

  pub rows_continuous :
      (index : ℕ) (ts : List SoldTicket)
      → are_continuous index (map entry_of (rows index ts)) ≡ true
  unfolding entry_rows are_continuous
  rows_continuous index [] = refl
  rows_continuous index (t ∷ ts) = ground (arith, rows_continuous (index + 1) ts)

  pub length-rows : (index : ℕ) (ts : List SoldTicket) → length (rows index ts) ≡ length ts
  unfolding entry_rows
  length-rows index [] = refl
  length-rows index (t ∷ ts) = ap suc (length-rows (index + 1) ts)

  abbrev pub built_entries : List SoldTicket → List CanonicalSnapshotEntry
  built_entries ts = map entry_of (rows 0 ts)

  pub built_counted : (ts : List SoldTicket) → (length (built_entries ts) == length ts) ≡ true
  built_counted ts = (==_iff _ _).1 (length-map entry_of (rows 0 ts) ∙ length-rows 0 ts)

  pub entries_built :
      (ts : List SoldTicket) (u db : SnapshotTables)
      → Misses (λ r. str_eq r.snapshot_id new_id) db.entries
      → u.entries ≡ rows 0 ts ++ db.entries
      → entries_of u new_id ≡ map entry_of (rows 0 ts)
  unfolding entries_of
  entries_built ts u db none_old e =
      ap
        (λ es.
          order_asc (λ x. x.position) (map entry_of (filter (λ r. str_eq r.snapshot_id new_id) es)))
        e
      ∙ ap (λ es. order_asc (λ x. x.position) (map entry_of es))
          (filter-append (λ r. str_eq r.snapshot_id new_id) (rows 0 ts) db.entries
            ∙ ap₂ ◌++◌ (filter-All (λ r. str_eq r.snapshot_id new_id) (rows 0 ts) (rows_own 0 ts))
                (filter-Misses (λ r. str_eq r.snapshot_id new_id) db.entries none_old)
            ∙ append-nil (rows 0 ts))
      ∙ order_continuous 0 (map entry_of (rows 0 ts)) (rows_continuous 0 ts)
