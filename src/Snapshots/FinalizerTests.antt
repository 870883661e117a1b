-- ===== src/Snapshots/FinalizerTests.antt =====
-- The snapshot of two tickets, finalized twice, and the theorems at it.
use amazingchance.Snapshots.Rows.{as_before}
use amazingchance.Snapshots.Climbs.{Collision}
use amazingchance.Base.{
  ℕ, ◌+◌, false, ◌≡◌, ◌⊎◌, refl, none, some, [], ◌∷◌, get_elem?, codes, ok, err, conflict,
}
use amazingchance.Draws.Types.{LotteryDraw, snapshot_building, snapshot_finalized}
use amazingchance.Draws.Transitions.{with_status}
use amazingchance.Draws.Tests.{draw}
use amazingchance.Snapshots.Cryptography.{
  CanonicalSnapshotEntry, SnapshotCommitment, create_commitment,
}
use amazingchance.Snapshots.Tests.{digest, digest_hex, tickets, first_ticket, second_ticket}
use amazingchance.Snapshots.Finalizer.{
  LockedSnapshotRow, building, SnapshotTables, FinalizeSnapshotResult, entries_of, are_continuous,
  assert_continuous_positions, finalized_row, finalize_building, finalize,
}
use amazingchance.Snapshots.Finalization.{IsCommitted, finalize-IsCommitted, finalize-binding}
use amazingchance.Snapshots.Repetition.{finalize-again}

abbrev snapshot : LockedSnapshotRow
snapshot = record {
  id = "s1";
  draw_id = "d1";
  status = building;
  ticket_count = 2;
  canonical_format = codes "v1";
  hash_algorithm = "SHA-256";
  snapshot_hash = none;
  merkle_root = none;
  finalized_at = none;
}

abbrev in_building : LotteryDraw
in_building = record draw { status = snapshot_building }

abbrev built : SnapshotTables
built = record {
  snapshots = snapshot ∷ [];
  entries =
      record { snapshot_id = "s1"; entry = second_ticket }
      ∷ record { snapshot_id = "s1"; entry = first_ticket }
      ∷ [];
  draws = in_building ∷ [];
}

abbrev committed : SnapshotCommitment
committed = create_commitment digest (codes "v1") (codes "d1") tickets

abbrev done : SnapshotTables
done = record built {
  snapshots = finalized_row 50 committed snapshot ∷ [];
  draws = with_status 50 snapshot_finalized in_building ∷ [];
}

abbrev result : FinalizeSnapshotResult
result = record {
  snapshot_id = "s1";
  draw_id = "d1";
  ticket_count = 2;
  hash_algorithm = "SHA-256";
  snapshot_hash = committed.snapshot_hash;
  merkle_root = committed.merkle_root;
  finalized_at = 50;
  already_finalized = false;
}

finalized_now : finalize digest 50 built "d1" ≡ ok (done, result)
unfolding finalize finalize_building entries_of assert_continuous_positions are_continuous
finalized_now = refl

one_ticket_lost :
    finalize digest 50
      (record built { entries = record { snapshot_id = "s1"; entry = first_ticket } ∷ [] })
      "d1"
    ≡ err (conflict "Snapshot entry count does not match ticket count")
unfolding finalize entries_of
one_ticket_lost = refl

finalize-IsCommitted_example :
    (s : LockedSnapshotRow) × IsCommitted digest built "d1" s result
    × ((i : ℕ) (e : CanonicalSnapshotEntry)
        → get_elem? (entries_of built s.id) i ≡ some e
        → e.position ≡ i + 1)
finalize-IsCommitted_example = finalize-IsCommitted digest 50 built "d1" finalized_now

finalize-again_example : finalize digest 60 done "d1" ≡ ok (done, as_before result)
finalize-again_example = finalize-again digest 50 60 built "d1" digest_hex (refl, tt) finalized_now

finalized_again : finalize digest 60 done "d1" ≡ ok (done, as_before result)
finalized_again = finalize-again digest 50 60 built "d1" digest_hex (refl, tt) finalized_now

finalize-binding_example : (entries_of built "s1" ≡ entries_of done "s1") ⊎ Collision digest
finalize-binding_example =
    finalize-binding digest 50 60 built done "d1" snapshot (finalized_row 50 committed snapshot)
      finalized_now finalized_again refl refl refl refl
