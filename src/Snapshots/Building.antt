-- ===== src/Snapshots/Building.antt =====
-- What `build` of snapshot-builder.service.ts leaves behind.
use amazingchance.Base.{
  count-found, count-update_where, ℕ, String, ◌≡◌, refl, sym, ap, ◌∙◌, inl, inr, true, false, not,
  none, some, List, [], ◌∷◌, ◌++◌, length, Misses, find, find-passes, find-update_where, any,
  update_where, count_where, str_eq, str_eq_refl, eq_iff, ◌==◌, Option-cases, arith, ok,
  ok-injective, ok_pair, >>=-eq-ok, throw_if, throw_if-eq-ok, or_throw, or_throw-eq-ok,
}
use amazingchance.Draws.Types.{LotteryDraw, sales_closed, snapshot_building, same_status, has_id}
use amazingchance.Draws.Transitions.{at_status, with_status}
use amazingchance.Snapshots.Cryptography.{Bytes}
use amazingchance.Snapshots.Finalizer.{
  building, LockedSnapshotRow, SnapshotTables, of_draw, entries_of, is_unfinished,
}
use amazingchance.Snapshots.Builder.{
  SoldTicket, SoldPurchase, BuildSnapshotResult, canonical_format, active_tickets, is_blocking,
  entry_rows, build_new, existing_snapshot, build,
}
use amazingchance.Snapshots.Numbering.{rows, built_entries, entries_built}

unfinished_none :
    (id : String) (rows : List LockedSnapshotRow)
    → Misses (λ s. str_eq s.id id) rows
    → count_where (is_unfinished id) rows ≡ 0
unfinished_none id [] h = refl
unfinished_none id (s ∷ rows) h = rw h.0 (omega (arith, unfinished_none id rows h.1))

-- The row of a snapshot that was built.
abbrev pub built_row : String → String → ℕ → LockedSnapshotRow
built_row new_id draw_id ticket_count = record {
  id = new_id;
  draw_id = draw_id;
  status = building;
  ticket_count = ticket_count;
  canonical_format = canonical_format;
  hash_algorithm = "SHA-256";
  snapshot_hash = none;
  merkle_root = none;
  finalized_at = none;
}

-- The parts of a call of `build` that makes a snapshot.
pub record IsBuilt (hmac : Bytes → Bytes → Bytes) (owner_secret : Bytes) (now : ℕ)
    (new_id draw_id : String) (db u : SnapshotTables) (r : BuildSnapshotResult) : Type 0 where
  pub draw : LotteryDraw
  pub tickets : List SoldTicket
  pub at_draw : find (has_id draw_id) db.draws ≡ some draw
  pub was_closed : same_status draw.status sales_closed ≡ true
  pub snapshots_eq : u.snapshots ≡ built_row new_id draw_id (length tickets) ∷ db.snapshots
  pub entries_eq : u.entries ≡ entry_rows hmac owner_secret new_id draw_id 0 tickets ++ db.entries
  pub draws_eq :
      u.draws
      ≡ update_where
          (at_status draw_id (sales_closed ∷ []))
          (with_status now snapshot_building)
          db.draws
  pub counted : r.ticket_count ≡ length tickets

module _ (hmac : Bytes → Bytes → Bytes) (owner_secret : Bytes) (now : ℕ) (new_id : String)
    (purchases : List SoldPurchase) (all_tickets : List SoldTicket) (db : SnapshotTables)
    (draw_id : String) where
  existing_already :
      (s : LockedSnapshotRow) {r : BuildSnapshotResult}
      → existing_snapshot hmac owner_secret db s ≡ ok r
      → r.already_built ≡ true
  unfolding existing_snapshot
  existing_already s h =
      let (_, _, h1) =
        >>=-eq-ok
          (throw_if
            (not (count_where (λ e. str_eq e.snapshot_id s.id) db.entries == s.ticket_count)) _)
          _ h in
      ap (λ r. r.already_built) (sym (ok-injective h1))

  new_parts :
      (draw : LotteryDraw) {u : SnapshotTables} {r : BuildSnapshotResult}
      → find (has_id draw_id) db.draws ≡ some draw
      → build_new hmac owner_secret now new_id purchases all_tickets db draw ≡ ok (u, r)
      → IsBuilt hmac owner_secret now new_id draw_id db u r
  unfolding build_new
  new_parts draw {u} {r} there h =
      let same_id : draw.id ≡ draw_id =
        (eq_iff draw.id draw_id).0 (find-passes (has_id draw_id) db.draws there) in
      let (_, a, h1) = >>=-eq-ok (throw_if (not (same_status draw.status sales_closed)) _) _ h in
      let (_, _, h2) =
        >>=-eq-ok (throw_if (any (is_blocking draw.id all_tickets) purchases) _) _ h1 in
      let (_, _, h3) =
        >>=-eq-ok
          (throw_if (not (count_where (at_status draw.id (sales_closed ∷ [])) db.draws == 1)) _) _
          h2 in
      let closed = throw_if-eq-ok (not (same_status draw.status sales_closed)) _ a in
      let done = ok_pair h3 in
      let tickets = active_tickets draw.id all_tickets in
      record {
        draw = draw;
        tickets = tickets;
        at_draw = there;
        was_closed = ground arith;
        snapshots_eq = ap (λ (x : SnapshotTables). x.snapshots) (sym done.0) ∙ rw same_id refl;
        entries_eq =
            ap (λ (x : SnapshotTables). x.entries) (sym done.0)
            ∙ ap (λ d. entry_rows hmac owner_secret new_id d 0 tickets ++ db.entries) same_id;
        draws_eq =
            ap (λ (x : SnapshotTables). x.draws) (sym done.0)
            ∙ ap
                (λ d.
                  update_where (at_status d (sales_closed ∷ [])) (with_status now snapshot_building)
                    db.draws)
                same_id;
        counted = ap (λ (x : BuildSnapshotResult). x.ticket_count) (sym done.1);
      }

  pub build-IsBuilt :
      {u : SnapshotTables} {r : BuildSnapshotResult}
      → build hmac owner_secret now new_id purchases all_tickets db draw_id ≡ ok (u, r)
      → r.already_built ≡ false
      → IsBuilt hmac owner_secret now new_id draw_id db u r
  unfolding build
  build-IsBuilt {u} {r} h fresh =
      let (draw, a, h1) = >>=-eq-ok (or_throw (find (has_id draw_id) db.draws) _) _ h in
      let there = or_throw-eq-ok (find (has_id draw_id) db.draws) _ a in
      elim (Option-cases (find (of_draw draw_id) db.snapshots)) [
        | inl missing ↦ new_parts draw there (rw missing at h1)
        | inr (s, found) ↦
            let (r', b, h2) =
              >>=-eq-ok (existing_snapshot hmac owner_secret db s) _ (rw found at h1) in
            let same = ap (λ (x : BuildSnapshotResult). x.already_built) (ok_pair h2).1 in
            absurd (cc (fresh, sym same ∙ existing_already s b))
      ]

module _ (hmac : Bytes → Bytes → Bytes) (owner_secret : Bytes) (now : ℕ) (new_id : String)
    (db : SnapshotTables) (draw_id : String) where
  -- What `finalize` reads behind `build`.
  module _ {u : SnapshotTables} {r : BuildSnapshotResult}
      (b : IsBuilt hmac owner_secret now new_id draw_id db u r) where
    pub at_draw_built :
        find (has_id draw_id) u.draws ≡ some (with_status now snapshot_building b.draw)
    at_draw_built =
        ap (find (has_id draw_id)) b.draws_eq
        ∙ find-update_where (has_id draw_id) (at_status draw_id (sales_closed ∷ []))
            (with_status now snapshot_building) db.draws (λ x. refl) b.at_draw
        ∙ rw (find-passes (has_id draw_id) db.draws b.at_draw, b.was_closed) refl

    pub one_building :
        count_where (has_id draw_id) db.draws ≡ 1
        → count_where (at_status draw_id (snapshot_building ∷ [])) u.draws ≡ 1
    one_building one_draw =
        count-found (has_id draw_id) (λ d. any (same_status d.status) (snapshot_building ∷ []))
          u.draws
          (ap (count_where (has_id draw_id)) b.draws_eq
            ∙ count-update_where (has_id draw_id) (at_status draw_id (sales_closed ∷ []))
                (with_status now snapshot_building) db.draws (λ x. refl)
            ∙ one_draw)
          at_draw_built refl

    pub at_snapshot_built :
        find (of_draw draw_id) u.snapshots ≡ some (built_row new_id draw_id (length b.tickets))
    at_snapshot_built = ap (find (of_draw draw_id)) b.snapshots_eq ∙ rw (str_eq_refl draw_id) refl

    pub one_unfinished_built :
        Misses (λ s. str_eq s.id new_id) db.snapshots
        → count_where (is_unfinished new_id) u.snapshots ≡ 1
    one_unfinished_built no_snapshots =
        ap (count_where (is_unfinished new_id)) b.snapshots_eq
        ∙ rw (str_eq_refl new_id) (omega (arith, unfinished_none new_id db.snapshots no_snapshots))

    pub entries_of_built :
        Misses (λ e. str_eq e.snapshot_id new_id) db.entries
        → entries_of u new_id ≡ built_entries hmac owner_secret new_id draw_id b.tickets
    entries_of_built no_entries =
        entries_built hmac owner_secret new_id draw_id b.tickets u db no_entries b.entries_eq
