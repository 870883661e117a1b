-- ===== src/Snapshots/Repetition.antt =====
-- A second call of `finalize` of snapshot-finalizer.service.ts.
use amazingchance.Base.{
  ℕ, ◌≡◌, refl, sym, ap, subst, ◌∙◌, inl, inr, String, true, not, some, order_asc, filter, List, [],
  ◌∷◌, map, length, find, find-update_where, str_eq, ◌==◌, codes, Bool-cases, arith, ok,
  ok-injective, >>=-eq-ok, throw_if, throw_if-eq-ok, or_throw, or_throw-eq-ok,
}
use amazingchance.Draws.Types.{LotteryDraw, snapshot_building, snapshot_finalized, has_id}
use amazingchance.Draws.Transitions.{at_status, with_status}
use amazingchance.Snapshots.Cryptography.{
  Bytes, bytes_eq, create_commitment, is_sha256_hex, create_leaf_hash, CanonicalSnapshotEntry,
}
use amazingchance.Snapshots.Proofs.{leaves-IsHex}
use amazingchance.Snapshots.Completeness.{create_merkle_root-IsHex, commitment_root}
use amazingchance.Snapshots.Finalizer.{
  LockedSnapshotRow, SnapshotEntryRow, SnapshotTables, FinalizeSnapshotResult, of_draw, entries_of,
  are_continuous, assert_continuous_positions, present, verify_finalized_snapshot, is_finalized,
  is_unfinished, finalized_row, finalize,
}
use amazingchance.Snapshots.Rows.{
  as_before, HasUniqueIds, found_draw, unfinished, verify_row, commitment_of, finalized_call,
  IsWritten, written,
}

entries_same :
    (db u : SnapshotTables) (id : String)
    → u.entries ≡ db.entries
    → entries_of u id ≡ entries_of db id
unfolding entries_of
entries_same db u id e =
    ap
      (λ rows.
        order_asc (λ (x : CanonicalSnapshotEntry). x.position)
          (map (λ (r : SnapshotEntryRow). r.entry) (filter (λ r. str_eq r.snapshot_id id) rows)))
      e

verified_already :
    (s : LockedSnapshotRow) (hash root : Bytes) {r : FinalizeSnapshotResult}
    → verify_finalized_snapshot s hash root ≡ ok r
    → verify_finalized_snapshot s hash root ≡ ok (as_before r)
unfolding verify_finalized_snapshot
verified_already s hash root {r} h =
    let (kept_hash, _, h1) = >>=-eq-ok (or_throw (present s.snapshot_hash) _) _ h in
    let (kept_root, _, h2) = >>=-eq-ok (or_throw (present s.merkle_root) _) _ h1 in
    let (at, _, h3) = >>=-eq-ok (or_throw s.finalized_at _) _ h2 in
    let (_, _, h4) = >>=-eq-ok (throw_if (not (bytes_eq kept_hash hash)) _) _ h3 in
    let (_, _, h5) = >>=-eq-ok (throw_if (not (bytes_eq kept_root root)) _) _ h4 in
    let made = ok-injective h5 in h ∙ ap ok (sym made ∙ ap as_before made)

module _ (sha256 : Bytes → Bytes) (hex : (b : Bytes) → is_sha256_hex (sha256 b) ≡ true) where
  snapshot_hash-IsHex :
      (f d : Bytes) (es : List CanonicalSnapshotEntry)
      → is_sha256_hex (create_commitment sha256 f d es).snapshot_hash ≡ true
  unfolding create_commitment
  snapshot_hash-IsHex f d es = hex _

  merkle_root-IsHex :
      (f d : Bytes) (es : List CanonicalSnapshotEntry)
      → is_sha256_hex (create_commitment sha256 f d es).merkle_root ≡ true
  merkle_root-IsHex f d es =
      ap is_sha256_hex (commitment_root sha256 hex f d es)
      ∙ create_merkle_root-IsHex sha256 hex (map (create_leaf_hash sha256) es)
          (leaves-IsHex sha256 hex es)

  written_again :
      (now later : ℕ) (db : SnapshotTables) (draw_id : String) (s : LockedSnapshotRow)
      (d : LotteryDraw) {u : SnapshotTables} {r : FinalizeSnapshotResult}
      → HasUniqueIds db.snapshots
      → find (of_draw draw_id) db.snapshots ≡ some s
      → find (has_id draw_id) db.draws ≡ some d
      → (length (entries_of db s.id) == s.ticket_count) ≡ true
      → are_continuous 0 (entries_of db s.id) ≡ true
      → IsWritten now db draw_id s (commitment_of sha256 db draw_id s) u r
      → finalize sha256 later u draw_id ≡ ok (u, as_before r)
  written_again now later db draw_id s d {u} {r} unique at_s at_d counted in_order w =
      let c = commitment_of sha256 db draw_id s in
      let row = finalized_row now c s in
      let hit = unfinished db.snapshots draw_id s unique at_s w.one_row in
      let of_s : s.draw_id ≡ draw_id = found_draw db.snapshots draw_id at_s in
      let there =
        find-update_where (of_draw draw_id) (is_unfinished s.id) (finalized_row now c) db.snapshots
          (λ x. refl) at_s in
      let at_row : find (of_draw draw_id) u.snapshots ≡ some row =
        ap (find (of_draw draw_id)) w.snapshots_eq ∙ (rw hit at there) in
      let at_draw =
        ap (find (has_id draw_id)) w.draws_eq
        ∙ find-update_where (has_id draw_id) (at_status draw_id (snapshot_building ∷ []))
            (with_status now snapshot_finalized) db.draws (λ x. refl) at_d in
      let same = entries_same db u s.id w.entries_eq in
      let same_commitment = ap (create_commitment sha256 s.canonical_format (codes draw_id)) same in
      let checked =
        verify_row row c.snapshot_hash c.merkle_root now refl refl refl
          (snapshot_hash-IsHex s.canonical_format (codes draw_id) (entries_of db s.id))
          (merkle_root-IsHex s.canonical_format (codes draw_id) (entries_of db s.id)) in
      finalized_call sha256 later u draw_id row _ at_row at_draw
        (ap (λ es. length es == s.ticket_count) same ∙ counted)
        (ap (are_continuous 0) same ∙ in_order) refl
        (ap (λ x. verify_finalized_snapshot row x.snapshot_hash x.merkle_root) same_commitment
          ∙ checked
          ∙ ap ok (
              ap
                (λ i. record {
                  snapshot_id = s.id;
                  draw_id = i;
                  ticket_count = s.ticket_count;
                  hash_algorithm = s.hash_algorithm;
                  snapshot_hash = c.snapshot_hash;
                  merkle_root = c.merkle_root;
                  finalized_at = now;
                  already_finalized = true;
                })
                of_s
              ∙ sym (ap as_before w.result_eq)))

-- With a hash function of 64 hexadecimal digits, and no two snapshots with one id: after a call of
-- `finalize` that returns, the next call for the draw returns the same result, marked as finalized
-- before, and changes nothing.
pub finalize-again :
    (sha256 : Bytes → Bytes) (now later : ℕ) (db : SnapshotTables) (draw_id : String)
    {u : SnapshotTables} {r : FinalizeSnapshotResult}
    → ((b : Bytes) → is_sha256_hex (sha256 b) ≡ true)
    → HasUniqueIds db.snapshots
    → finalize sha256 now db draw_id ≡ ok (u, r)
    → finalize sha256 later u draw_id ≡ ok (u, as_before r)
unfolding finalize assert_continuous_positions
finalize-again sha256 now later db draw_id {u} {r} hex unique h =
    let (s, there, h1) = >>=-eq-ok (or_throw (find (of_draw draw_id) db.snapshots) _) _ h in
    let (d, drawn, h2) = >>=-eq-ok (or_throw (find (has_id draw_id) db.draws) _) _ h1 in
    let es = entries_of db s.id in
    let (_, a, h3) = >>=-eq-ok (throw_if (not (length es == s.ticket_count)) _) _ h2 in
    let (_, b, h4) = >>=-eq-ok (throw_if (not (are_continuous 0 es)) _) _ h3 in
    let not_counted = throw_if-eq-ok (not (length es == s.ticket_count)) _ a in
    let not_ordered = throw_if-eq-ok (not (are_continuous 0 es)) _ b in
    let counted : (length es == s.ticket_count) ≡ true = ground arith in
    let in_order : are_continuous 0 es ≡ true = ground arith in
    let at_s = or_throw-eq-ok (find (of_draw draw_id) db.snapshots) _ there in
    let at_d = or_throw-eq-ok (find (has_id draw_id) db.draws) _ drawn in
    let c = commitment_of sha256 db draw_id s in
    elim (Bool-cases (is_finalized s.status)) [
      | inl done ↦
          let (q, checked, e) =
            >>=-eq-ok (verify_finalized_snapshot s c.snapshot_hash c.merkle_root) _
              (rw done at h4) in
          let again =
            finalized_call sha256 later db draw_id s d at_s at_d counted in_order done
              (verified_already s c.snapshot_hash c.merkle_root checked) in
          subst (λ x. finalize sha256 later x.0 draw_id ≡ ok (x.0, as_before x.1)) (ok-injective e)
            again
      | inr open_yet ↦
          written_again sha256 hex now later db draw_id s d unique at_s at_d counted in_order
            (written now db draw_id s d c (rw open_yet at h4))
    ]
