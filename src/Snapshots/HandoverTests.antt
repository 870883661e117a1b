-- ===== src/Snapshots/HandoverTests.antt =====
-- A draw of two active tickets and a voided one, built and finalized, and the theorem at it.
use amazingchance.Base.{◌≡◌, refl, true, false, [], ◌∷◌, ◌++◌, List, ok, err, conflict, codes}
use amazingchance.Draws.Types.{sales_closed}
use amazingchance.Draws.Tests.{draw}
use amazingchance.Snapshots.Cryptography.{Bytes}
use amazingchance.Snapshots.Tests.{digest}
use amazingchance.Snapshots.Finalizer.{SnapshotTables, FinalizeSnapshotResult, finalize}
use amazingchance.Snapshots.Builder.{
  SoldTicket, SoldPurchase, BuildSnapshotResult, comes_later, active_tickets,
  create_owner_public_ref, entry_rows, build_new, build,
}
use amazingchance.Snapshots.Handover.{build-finalize}

abbrev sold : SoldTicket
sold = record {
  id = "t1";
  public_id = codes "TKT-1";
  user_id = "u1";
  purchase_id = "b1";
  draw_id = "d1";
  number_in_draw = 1;
  is_active = true;
}

abbrev tickets : List SoldTicket
tickets =
    record sold { id = "t3"; public_id = codes "TKT-3"; number_in_draw = 3 }
    ∷ record sold { id = "t2"; number_in_draw = 2; is_active = false }
    ∷ sold
    ∷ []

abbrev keyed : Bytes → Bytes → Bytes
keyed secret text = digest (secret ++ text)

abbrev before : SnapshotTables
before = record { snapshots = []; entries = []; draws = record draw { status = sales_closed } ∷ [] }

built :
    (u : SnapshotTables) × (r : BuildSnapshotResult) × (build keyed
        (codes "secret")
        40
        "s1"
        []
        tickets
        before
        "d1"
      ≡ ok (u, r))
    × (r.already_built ≡ false)
    × (r.ticket_count ≡ 2)
unfolding build build_new active_tickets comes_later entry_rows create_owner_public_ref
built = (_, _, refl, refl, refl)

abbrev unresolved : SoldPurchase
unresolved = record { id = "b1"; draw_id = "d1"; is_unresolved = true }

refused :
    build keyed (codes "secret") 40 "s1" (unresolved ∷ []) tickets before "d1"
    ≡ err (
        conflict
          "Snapshot cannot be built while active tickets belong to unresolved refund or manual-review purchases")
unfolding build build_new
refused = refl

build-finalize_example :
    (w : SnapshotTables) × (q : FinalizeSnapshotResult) × (finalize digest 50 built.0 "d1"
      ≡ ok (w, q))
    × (q.ticket_count ≡ built.1.ticket_count)
    × (q.already_finalized ≡ false)
build-finalize_example =
    build-finalize keyed (codes "secret") 40 "s1" [] tickets before "d1" digest 50 tt tt refl
      built.2 built.3
