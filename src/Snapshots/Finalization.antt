-- ===== src/Snapshots/Finalization.antt =====
-- The result of `finalize` of snapshot-finalizer.service.ts and the tables that it came from.
use amazingchance.Snapshots.Climbs.{bytes_eq-eq, Collision}
use amazingchance.Base.{
  ℕ, zero, suc, ◌+◌, ◌≡◌, ◌⊎◌, sym, ap, subst, ◌∙◌, inl, inr, String, true, not, some, List, [],
  ◌∷◌, length, find, count_where, str_eq, ◌==◌, codes, get_elem?, Bool-cases, arith, ok, ok_pair,
  ok-injective, >>=-eq-ok, throw_if, throw_if-eq-ok, or_throw, or_throw-eq-ok, some-injective,
}
use amazingchance.Draws.Types.{LotteryDraw, snapshot_building, same_status, has_id}
use amazingchance.Draws.Transitions.{at_status}
use amazingchance.Snapshots.Cryptography.{
  Bytes, bytes_eq, CanonicalSnapshotEntry, SnapshotCommitment, create_commitment,
}
use amazingchance.Snapshots.Binding.{snapshot_hash-binding}
use amazingchance.Snapshots.Finalizer.{
  LockedSnapshotRow, SnapshotTables, FinalizeSnapshotResult, of_draw, entries_of, are_continuous,
  assert_continuous_positions, present, verify_finalized_snapshot, is_building, is_finalized,
  is_unfinished, finalize_building, finalize,
}

-- Positions that count up from an index are that of the entry, and one.
continuous_at :
    (index i : ℕ) (es : List CanonicalSnapshotEntry) (e : CanonicalSnapshotEntry)
    → are_continuous index es ≡ true
    → get_elem? es i ≡ some e
    → e.position ≡ index + i + 1
unfolding are_continuous
continuous_at index i [] e h at = cc
continuous_at index zero (x ∷ es) e h at =
    let same = ap (λ y. y.position) (some-injective _ _ at) in
    let first : x.position ≡ index + 1 = ground arith in omega (arith, same, first)
continuous_at index (suc i) (x ∷ es) e h at =
    omega (arith, continuous_at (index + 1) i es e (ground arith) at)

verified_commitment :
    (s : LockedSnapshotRow) (hash root : Bytes) {r : FinalizeSnapshotResult}
    → verify_finalized_snapshot s hash root ≡ ok r
    → (r.snapshot_hash ≡ hash) × (r.merkle_root ≡ root)
unfolding verify_finalized_snapshot
verified_commitment s hash root h =
    let (kept_hash, _, h1) = >>=-eq-ok (or_throw (present s.snapshot_hash) _) _ h in
    let (kept_root, _, h2) = >>=-eq-ok (or_throw (present s.merkle_root) _) _ h1 in
    let (at, _, h3) = >>=-eq-ok (or_throw s.finalized_at _) _ h2 in
    let (_, a, h4) = >>=-eq-ok (throw_if (not (bytes_eq kept_hash hash)) _) _ h3 in
    let (_, b, h5) = >>=-eq-ok (throw_if (not (bytes_eq kept_root root)) _) _ h4 in
    let same_hash = throw_if-eq-ok (not (bytes_eq kept_hash hash)) _ a in
    let same_root = throw_if-eq-ok (not (bytes_eq kept_root root)) _ b in
    let result = sym (ok-injective h5) in
    (
      ap (λ x. x.snapshot_hash) result ∙ bytes_eq-eq kept_hash hash (ground arith),
      ap (λ x. x.merkle_root) result ∙ bytes_eq-eq kept_root root (ground arith),
    )

written_commitment :
    (now : ℕ) (db : SnapshotTables) (draw_id : String) (s : LockedSnapshotRow) (d : LotteryDraw)
    (c : SnapshotCommitment) {u : SnapshotTables} {r : FinalizeSnapshotResult}
    → finalize_building now db draw_id s d c ≡ ok (u, r)
    → (r.snapshot_hash ≡ c.snapshot_hash) × (r.merkle_root ≡ c.merkle_root)
unfolding finalize_building
written_commitment now db draw_id s d c h =
    let (_, _, h1) = >>=-eq-ok (throw_if (not (is_building s.status)) _) _ h in
    let (_, _, h2) = >>=-eq-ok (throw_if (not (same_status d.status snapshot_building)) _) _ h1 in
    let (_, _, h3) = >>=-eq-ok (throw_if (not (str_eq s.hash_algorithm "SHA-256")) _) _ h2 in
    let (_, _, h4) =
      >>=-eq-ok (throw_if (not (count_where (is_unfinished s.id) db.snapshots == 1)) _) _ h3 in
    let (_, _, h5) =
      >>=-eq-ok
        (throw_if (not (count_where (at_status draw_id (snapshot_building ∷ [])) db.draws == 1)) _)
        _ h4 in
    let result = sym (ok_pair h5).1 in
    (ap (λ x. x.snapshot_hash) result, ap (λ x. x.merkle_root) result)

-- What a result tells of the draw's snapshot and its entries in the tables.
pub record IsCommitted (sha256 : Bytes → Bytes) (db : SnapshotTables) (draw_id : String)
    (s : LockedSnapshotRow) (r : FinalizeSnapshotResult) : Type 0 where
  pub found : find (of_draw draw_id) db.snapshots ≡ some s
  pub complete : length (entries_of db s.id) ≡ s.ticket_count
  pub numbered : are_continuous 0 (entries_of db s.id) ≡ true
  pub hash_eq :
      r.snapshot_hash
      ≡ (create_commitment sha256 s.canonical_format
          (codes draw_id)
          (entries_of db s.id)).snapshot_hash
  pub root_eq :
      r.merkle_root
      ≡ (create_commitment sha256 s.canonical_format
          (codes draw_id)
          (entries_of db s.id)).merkle_root

finalize_lem :
    (sha256 : Bytes → Bytes) (now : ℕ) (db : SnapshotTables) (draw_id : String) {u : SnapshotTables}
    {r : FinalizeSnapshotResult}
    → finalize sha256 now db draw_id ≡ ok (u, r)
    → (s : LockedSnapshotRow) × IsCommitted sha256 db draw_id s r
unfolding finalize assert_continuous_positions
finalize_lem sha256 now db draw_id {u} {r} h =
    let (s, there, h1) = >>=-eq-ok (or_throw (find (of_draw draw_id) db.snapshots) _) _ h in
    let (d, _, h2) = >>=-eq-ok (or_throw (find (has_id draw_id) db.draws) _) _ h1 in
    let es = entries_of db s.id in
    let (_, a, h3) = >>=-eq-ok (throw_if (not (length es == s.ticket_count)) _) _ h2 in
    let (_, b, h4) = >>=-eq-ok (throw_if (not (are_continuous 0 es)) _) _ h3 in
    let counted = throw_if-eq-ok (not (length es == s.ticket_count)) _ a in
    let in_order = throw_if-eq-ok (not (are_continuous 0 es)) _ b in
    let c = create_commitment sha256 s.canonical_format (codes draw_id) es in
    let (hash, root) : (r.snapshot_hash ≡ c.snapshot_hash) × (r.merkle_root ≡ c.merkle_root) =
      elim (Bool-cases (is_finalized s.status)) [
        | inl done ↦
            let (q, checked, e) =
              >>=-eq-ok (verify_finalized_snapshot s c.snapshot_hash c.merkle_root) _
                (rw done at h4) in
            subst (λ x. (x.snapshot_hash ≡ c.snapshot_hash) × (x.merkle_root ≡ c.merkle_root))
              (ok_pair e).1 (verified_commitment s c.snapshot_hash c.merkle_root checked)
        | inr open_yet ↦ written_commitment now db draw_id s d c (rw open_yet at h4)
      ] in
    (
      s,
      record {
        found = or_throw-eq-ok (find (of_draw draw_id) db.snapshots) _ there;
        complete = ground arith;
        numbered = ground arith;
        hash_eq = hash;
        root_eq = root;
      },
    )

-- Two calls of `finalize` for a draw that return one snapshot hash, for a snapshot of one format, were
-- for the same entries in the same order, whatever happened to the tables between them, or two
-- different texts with one digest are found.
pub finalize-binding :
    (sha256 : Bytes → Bytes) (now later : ℕ) (db after : SnapshotTables) (draw_id : String)
    (s t : LockedSnapshotRow) {u w : SnapshotTables} {r q : FinalizeSnapshotResult}
    → finalize sha256 now db draw_id ≡ ok (u, r)
    → finalize sha256 later after draw_id ≡ ok (w, q)
    → find (of_draw draw_id) db.snapshots ≡ some s
    → find (of_draw draw_id) after.snapshots ≡ some t
    → s.canonical_format ≡ t.canonical_format
    → r.snapshot_hash ≡ q.snapshot_hash
    → (entries_of db s.id ≡ entries_of after t.id) ⊎ Collision sha256
finalize-binding sha256 now later db after draw_id s t {u} {w} {r} {q} h k at_s at_t format hash =
    let (s', v) = finalize_lem sha256 now db draw_id h in
    let (t', x) = finalize_lem sha256 later after draw_id k in
    let is_s = some-injective _ _ (sym v.found ∙ at_s) in
    let is_t = some-injective _ _ (sym x.found ∙ at_t) in
    let es = entries_of db s.id in
    let fs = entries_of after t.id in
    let hash_s =
      subst
        (λ y.
          r.snapshot_hash
          ≡ (create_commitment sha256 y.canonical_format (codes draw_id)
              (entries_of db y.id)).snapshot_hash)
        is_s v.hash_eq in
    let hash_t =
      subst
        (λ y.
          q.snapshot_hash
          ≡ (create_commitment sha256 y.canonical_format (codes draw_id)
              (entries_of after y.id)).snapshot_hash)
        is_t x.hash_eq in
    snapshot_hash-binding sha256 s.canonical_format (codes draw_id) es fs (
      sym hash_s
      ∙ hash
      ∙ hash_t
      ∙ ap (λ f. (create_commitment sha256 f (codes draw_id) fs).snapshot_hash) (sym format))

-- A call of `finalize` that returns, at the first time or again, has found the snapshot of the draw
-- with as many entries as it has tickets; the entry at each index has the position one more; and the
-- hash and the root that it returns are those of the commitment to these entries.
pub finalize-IsCommitted :
    (sha256 : Bytes → Bytes) (now : ℕ) (db : SnapshotTables) (draw_id : String) {u : SnapshotTables}
    {r : FinalizeSnapshotResult}
    → finalize sha256 now db draw_id ≡ ok (u, r)
    → (s : LockedSnapshotRow) × IsCommitted sha256 db draw_id s r
      × ((i : ℕ) (e : CanonicalSnapshotEntry)
          → get_elem? (entries_of db s.id) i ≡ some e
          → e.position ≡ i + 1)
finalize-IsCommitted sha256 now db draw_id h =
    let (s, v) = finalize_lem sha256 now db draw_id h in
    (s, v, λ i e at. omega (arith, continuous_at 0 i (entries_of db s.id) e v.numbered at))
