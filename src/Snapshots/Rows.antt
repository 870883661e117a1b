-- ===== src/Snapshots/Rows.antt =====
-- The rows that `finalize` of snapshot-finalizer.service.ts reads and writes.
use amazingchance.Base.{
  ℕ, ◌≡◌, refl, sym, ap, subst, ◌∙◌, inl, inr, String, true, false, not, some, some-injective, List,
  [], ◌∷◌, length, find, find-IsIn, AllDiffer, count_where-only, update_where, count_where, str_eq,
  eq_iff, ◌==◌, codes, Bool-cases, arith, ok, ok_pair, >>=-eq-ok, throw_if, throw_if-eq-ok,
}
use amazingchance.Draws.Types.{
  LotteryDraw, snapshot_building, snapshot_finalized, same_status, has_id,
}
use amazingchance.Draws.Transitions.{at_status, with_status}
use amazingchance.Snapshots.Cryptography.{
  Bytes, SnapshotCommitment, create_commitment, is_sha256_hex,
}
use amazingchance.Snapshots.Proofs.{bytes_eq_refl}
use amazingchance.Snapshots.Finalizer.{
  LockedSnapshotRow, SnapshotTables, FinalizeSnapshotResult, of_draw, entries_of, are_continuous,
  assert_continuous_positions, present, verify_finalized_snapshot, is_building, is_finalized,
  is_unfinished, finalized_row, finalize_building, finalize,
}

-- A result marked as finalized before.
abbrev pub as_before : FinalizeSnapshotResult → FinalizeSnapshotResult
as_before r = record r { already_finalized = true }

-- No two snapshots have one id.
abbrev pub HasUniqueIds : List LockedSnapshotRow → Type 0
HasUniqueIds = AllDiffer (λ s t. str_eq s.id t.id)

pub present-IsHex : (b : Bytes) → is_sha256_hex b ≡ true → present (some b) ≡ some b
unfolding is_sha256_hex
present-IsHex [] h = cc
present-IsHex (x ∷ b) h = refl

pub str_eq_sym : (s t : String) → str_eq s t ≡ str_eq t s
str_eq_sym s t = elim (Bool-cases (str_eq s t)) [
  | inl same ↦ subst (λ x. str_eq s x ≡ str_eq x s) ((eq_iff s t).0 same) refl
  | inr other ↦ elim (Bool-cases (str_eq t s)) [
    | inl same ↦ subst (λ x. str_eq x t ≡ str_eq t x) ((eq_iff t s).0 same) refl
    | inr too ↦ other ∙ sym too
  ]
]

pub found_draw :
    (rows : List LockedSnapshotRow) (draw_id : String) {s : LockedSnapshotRow}
    → find (of_draw draw_id) rows ≡ some s
    → s.draw_id ≡ draw_id
found_draw [] draw_id h = cc
found_draw (x ∷ rows) draw_id h = elim (Bool-cases (of_draw draw_id x)) [
  | inl this ↦
      ap (λ y. y.draw_id) (sym (some-injective _ _ (rw this at h)))
      ∙ (eq_iff x.draw_id draw_id).0 this
  | inr other ↦ found_draw rows draw_id (rw other at h)
]

-- The one row that was counted as unfinished is the snapshot.
pub unfinished :
    (rows : List LockedSnapshotRow) (draw_id : String) (s : LockedSnapshotRow)
    → HasUniqueIds rows
    → find (of_draw draw_id) rows ≡ some s
    → count_where (is_unfinished s.id) rows ≡ 1
    → is_unfinished s.id s ≡ true
unfinished rows draw_id s d found n =
    count_where-only (is_unfinished s.id) (λ x y. str_eq x.id y.id) rows s (λ x h. ground arith)
      (λ x. str_eq_sym x.id s.id) d (find-IsIn (of_draw draw_id) rows found) n

-- The checks of a finalized row against the hash and the root that it holds.
pub verify_row :
    (s : LockedSnapshotRow) (hash root : Bytes) (at : ℕ)
    → s.snapshot_hash ≡ some hash
    → s.merkle_root ≡ some root
    → s.finalized_at ≡ some at
    → is_sha256_hex hash ≡ true
    → is_sha256_hex root ≡ true
    → verify_finalized_snapshot s hash root
      ≡ ok (record {
        snapshot_id = s.id;
        draw_id = s.draw_id;
        ticket_count = s.ticket_count;
        hash_algorithm = s.hash_algorithm;
        snapshot_hash = hash;
        merkle_root = root;
        finalized_at = at;
        already_finalized = true;
      })
unfolding verify_finalized_snapshot
verify_row s hash root at a b c x y =
    rw (a, b, c, present-IsHex hash x, present-IsHex root y, bytes_eq_refl hash, bytes_eq_refl root)
      refl

abbrev pub commitment_of :
    (Bytes → Bytes) → SnapshotTables → String → LockedSnapshotRow → SnapshotCommitment
commitment_of sha256 db draw_id s =
    create_commitment sha256 s.canonical_format (codes draw_id) (entries_of db s.id)

-- A call that finds a finalized snapshot.
pub finalized_call :
    (sha256 : Bytes → Bytes) (now : ℕ) (db : SnapshotTables) (draw_id : String)
    (s : LockedSnapshotRow) (d : LotteryDraw) {r : FinalizeSnapshotResult}
    → find (of_draw draw_id) db.snapshots ≡ some s
    → find (has_id draw_id) db.draws ≡ some d
    → (length (entries_of db s.id) == s.ticket_count) ≡ true
    → are_continuous 0 (entries_of db s.id) ≡ true
    → is_finalized s.status ≡ true
    → verify_finalized_snapshot s
        (commitment_of sha256 db draw_id s).snapshot_hash
        (commitment_of sha256 db draw_id s).merkle_root
      ≡ ok r
    → finalize sha256 now db draw_id ≡ ok (db, r)
unfolding finalize assert_continuous_positions
finalized_call sha256 now db draw_id s d a b c e f g = rw (a, b, c, e, f, g) refl

-- What `finalize_building` has checked and written.
pub record IsWritten (now : ℕ) (db : SnapshotTables) (draw_id : String) (s : LockedSnapshotRow)
    (c : SnapshotCommitment) (u : SnapshotTables) (r : FinalizeSnapshotResult) : Type 0 where
  pub one_row : count_where (is_unfinished s.id) db.snapshots ≡ 1
  pub snapshots_eq :
      u.snapshots ≡ update_where (is_unfinished s.id) (finalized_row now c) db.snapshots
  pub draws_eq :
      u.draws
      ≡ update_where
          (at_status draw_id (snapshot_building ∷ []))
          (with_status now snapshot_finalized)
          db.draws
  pub entries_eq : u.entries ≡ db.entries
  pub result_eq : r ≡ record {
    snapshot_id = s.id;
    draw_id = draw_id;
    ticket_count = s.ticket_count;
    hash_algorithm = s.hash_algorithm;
    snapshot_hash = c.snapshot_hash;
    merkle_root = c.merkle_root;
    finalized_at = now;
    already_finalized = false;
  }

pub written :
    (now : ℕ) (db : SnapshotTables) (draw_id : String) (s : LockedSnapshotRow) (d : LotteryDraw)
    (c : SnapshotCommitment) {u : SnapshotTables} {r : FinalizeSnapshotResult}
    → finalize_building now db draw_id s d c ≡ ok (u, r)
    → IsWritten now db draw_id s c u r
unfolding finalize_building
written now db draw_id s d c h =
    let (_, _, h1) = >>=-eq-ok (throw_if (not (is_building s.status)) _) _ h in
    let (_, _, h2) = >>=-eq-ok (throw_if (not (same_status d.status snapshot_building)) _) _ h1 in
    let (_, _, h3) = >>=-eq-ok (throw_if (not (str_eq s.hash_algorithm "SHA-256")) _) _ h2 in
    let (_, k, h4) =
      >>=-eq-ok (throw_if (not (count_where (is_unfinished s.id) db.snapshots == 1)) _) _ h3 in
    let (_, _, h5) =
      >>=-eq-ok
        (throw_if (not (count_where (at_status draw_id (snapshot_building ∷ [])) db.draws == 1)) _)
        _ h4 in
    let one = throw_if-eq-ok (not (count_where (is_unfinished s.id) db.snapshots == 1)) _ k in
    let (tables, result) = ok_pair h5 in
    let tables' = sym tables in
    record {
      one_row = ground arith;
      snapshots_eq = ap (λ x. x.snapshots) tables';
      draws_eq = ap (λ x. x.draws) tables';
      entries_eq = ap (λ x. x.entries) tables';
      result_eq = sym result;
    }
