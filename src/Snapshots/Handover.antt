-- ===== src/Snapshots/Handover.antt =====
-- `build` of snapshot-builder.service.ts, followed by `finalize` of snapshot-finalizer.service.ts.
use amazingchance.Base.{
  ℕ, String, ◌≡◌, refl, sym, false, List, [], ◌∷◌, length, Misses, update_where, count_where,
  str_eq, codes, ok,
}
use amazingchance.Draws.Types.{snapshot_building, snapshot_finalized, has_id}
use amazingchance.Draws.Transitions.{at_status, with_status}
use amazingchance.Snapshots.Cryptography.{Bytes, create_commitment}
use amazingchance.Snapshots.Finalizer.{
  SnapshotTables, FinalizeSnapshotResult, assert_continuous_positions, is_unfinished, finalized_row,
  finalize_building, finalize,
}
use amazingchance.Snapshots.Builder.{
  SoldTicket, SoldPurchase, BuildSnapshotResult, canonical_format, build,
}
use amazingchance.Snapshots.Numbering.{built_entries, built_counted, rows_continuous}
use amazingchance.Snapshots.Building.{
  build-IsBuilt, at_draw_built, one_building, at_snapshot_built, one_unfinished_built,
  entries_of_built,
}

module _ (hmac : Bytes → Bytes → Bytes) (owner_secret : Bytes) (now : ℕ) (new_id : String)
    (purchases : List SoldPurchase) (all_tickets : List SoldTicket) (db : SnapshotTables)
    (draw_id : String) where
  -- A snapshot that was built can be finalized: `finalize` behind `build`, for a new id in tables where
  -- draws have different ids, returns the commitment to as many tickets as `build` counted.
  pub build-finalize :
      (sha256 : Bytes → Bytes) (later : ℕ) {u : SnapshotTables} {r : BuildSnapshotResult}
      → Misses (λ e. str_eq e.snapshot_id new_id) db.entries
      → Misses (λ s. str_eq s.id new_id) db.snapshots
      → count_where (has_id draw_id) db.draws ≡ 1
      → build hmac owner_secret now new_id purchases all_tickets db draw_id ≡ ok (u, r)
      → r.already_built ≡ false
      → (w : SnapshotTables) × (q : FinalizeSnapshotResult) × (finalize sha256 later u draw_id
          ≡ ok (w, q))
        × (q.ticket_count ≡ r.ticket_count)
        × (q.already_finalized ≡ false)
  unfolding finalize finalize_building assert_continuous_positions
  build-finalize sha256 later {u} {r} no_entries no_snapshots one_draw h fresh =
      let b = build-IsBuilt hmac owner_secret now new_id purchases all_tickets db draw_id h fresh in
      let built = built_entries hmac owner_secret new_id draw_id b.tickets in
      let counted = built_counted hmac owner_secret new_id draw_id b.tickets in
      let continuous = rows_continuous hmac owner_secret new_id draw_id 0 b.tickets in
      let at_draw = at_draw_built hmac owner_secret now new_id db draw_id b in
      let one_left = one_building hmac owner_secret now new_id db draw_id b one_draw in
      let at_snapshot = at_snapshot_built hmac owner_secret now new_id db draw_id b in
      let one_unfinished =
        one_unfinished_built hmac owner_secret now new_id db draw_id b no_snapshots in
      let entries = entries_of_built hmac owner_secret now new_id db draw_id b no_entries in
      let c = create_commitment sha256 canonical_format (codes draw_id) built in
      (
        record u {
          snapshots = update_where (is_unfinished new_id) (finalized_row later c) u.snapshots;
          draws =
              update_where (at_status draw_id (snapshot_building ∷ []))
                (with_status later snapshot_finalized) u.draws;
        },
        record {
          snapshot_id = new_id;
          draw_id = draw_id;
          ticket_count = length b.tickets;
          hash_algorithm = "SHA-256";
          snapshot_hash = c.snapshot_hash;
          merkle_root = c.merkle_root;
          finalized_at = later;
          already_finalized = false;
        },
        rw (at_snapshot, at_draw, entries, counted, continuous, one_unfinished, one_left) refl,
        sym b.counted,
        refl,
      )
