-- ===== src/Snapshots/Builder.antt =====
-- SnapshotBuilderService of snapshot-builder.service.ts. The HMAC of node:crypto is a parameter. A row
-- of a snapshot keeps no time of its building.
use amazingchance.Base.{
  ℕ, ◌+◌, String, Bool, true, false, not, ◌&&◌, ◌||◌, none, List, [], ◌∷◌, ◌++◌, length, filter,
  find, any, update_where, count_where, order_by, ltb, str_eq, ◌==◌, codes, Outcome, ok, conflict,
  not_found, ◌>>=◌, ◌>>◌, throw_if, or_throw, if_found,
}
use amazingchance.Draws.Types.{LotteryDraw, sales_closed, snapshot_building, same_status, has_id}
use amazingchance.Draws.Transitions.{at_status, with_status}
use amazingchance.Snapshots.Cryptography.{Bytes}
use amazingchance.Snapshots.Finalizer.{
  SnapshotStatus, building, LockedSnapshotRow, SnapshotEntryRow, SnapshotTables, of_draw,
}

-- A row of `tickets`.
pub record SoldTicket : Type 0 where
  pub id : String
  pub public_id : Bytes
  pub user_id : String
  pub purchase_id : String
  pub draw_id : String
  pub number_in_draw : ℕ
  pub is_active : Bool

-- A row of `purchases`, with whether it is in `REFUND_PENDING` or `MANUAL_REVIEW`.
pub record SoldPurchase : Type 0 where
  pub id : String
  pub draw_id : String
  pub is_unresolved : Bool

pub record BuildSnapshotResult : Type 0 where
  pub snapshot_id : String
  pub draw_id : String
  pub ticket_count : ℕ
  pub status : SnapshotStatus
  pub already_built : Bool

abbrev pub canonical_format : Bytes
canonical_format = codes "AMAZING_CHANCE_TICKET_SNAPSHOT_V1"

-- `a < b` on texts, by code points.
abbrev pub text_ltb : Bytes → Bytes → Bool
text_ltb [] [] = false
text_ltb [] (d ∷ ds) = true
text_ltb (c ∷ cs) [] = false
text_ltb (c ∷ cs) (d ∷ ds) = ltb c d || (c == d && text_ltb cs ds)

-- `orderBy: [{ numberInDraw: 'asc' }, { id: 'asc' }]`
unfoldable pub comes_later : SoldTicket → SoldTicket → Bool
comes_later x y =
    ltb y.number_in_draw x.number_in_draw
    || (x.number_in_draw == y.number_in_draw && text_ltb (codes y.id) (codes x.id))

unfoldable pub active_tickets : String → List SoldTicket → List SoldTicket
unfolding comes_later
active_tickets draw_id tickets =
    order_by comes_later (filter (λ t. str_eq t.draw_id draw_id && t.is_active) tickets)

-- A purchase of the draw whose refund or review is open while it has an active ticket.
abbrev pub is_blocking : String → List SoldTicket → SoldPurchase → Bool
is_blocking draw_id tickets p =
    str_eq p.draw_id draw_id
    && p.is_unresolved
    && any (λ t. str_eq t.purchase_id p.id && t.is_active) tickets

module _ (hmac : Bytes → Bytes → Bytes) (owner_secret : Bytes) where
  unfoldable pub create_owner_public_ref : String → String → Bytes
  create_owner_public_ref draw_id user_id =
      hmac owner_secret (codes draw_id ++ b':' ∷ codes user_id)

  -- `tickets.map((ticket, index) => ...)`, from an index on.
  unfoldable pub entry_rows : String → String → ℕ → List SoldTicket → List SnapshotEntryRow
  unfolding create_owner_public_ref
  entry_rows snapshot_id draw_id index [] = []
  entry_rows snapshot_id draw_id index (t ∷ ts) =
      record {
        snapshot_id = snapshot_id;
        entry = record {
          position = index + 1;
          ticket_public_id = t.public_id;
          owner_public_ref = create_owner_public_ref draw_id t.user_id;
        };
      }
      ∷ entry_rows snapshot_id draw_id (index + 1) ts

  -- The snapshot of a draw that has none.
  unfoldable pub build_new :
      ℕ
      → String
      → List SoldPurchase
      → List SoldTicket
      → SnapshotTables
      → LotteryDraw
      → Outcome (SnapshotTables × BuildSnapshotResult)
  unfolding active_tickets entry_rows
  build_new now new_id purchases all_tickets db draw = do
    throw_if (not (same_status draw.status sales_closed))
        (conflict "Snapshot cannot be built for a draw in its status")
    throw_if (any (is_blocking draw.id all_tickets) purchases) (
        conflict
          "Snapshot cannot be built while active tickets belong to unresolved refund or manual-review purchases")
    let tickets = active_tickets draw.id all_tickets
    let snapshot : LockedSnapshotRow = record {
      id = new_id;
      draw_id = draw.id;
      status = building;
      ticket_count = length tickets;
      canonical_format = canonical_format;
      hash_algorithm = "SHA-256";
      snapshot_hash = none;
      merkle_root = none;
      finalized_at = none;
    }
    throw_if (not (count_where (at_status draw.id (sales_closed ∷ [])) db.draws == 1))
        (conflict "Draw state changed while snapshot was being built")
    ok (
      record {
        snapshots = snapshot ∷ db.snapshots;
        entries = entry_rows new_id draw.id 0 tickets ++ db.entries;
        draws =
            update_where (at_status draw.id (sales_closed ∷ [])) (with_status now snapshot_building)
              db.draws;
      },
      record {
        snapshot_id = new_id;
        draw_id = draw.id;
        ticket_count = length tickets;
        status = building;
        already_built = false;
      },
    )

  unfoldable pub existing_snapshot :
      SnapshotTables → LockedSnapshotRow → Outcome BuildSnapshotResult
  existing_snapshot db existing = do
    throw_if
        (not
          (count_where (λ e. str_eq e.snapshot_id existing.id) db.entries == existing.ticket_count))
        (conflict "Existing snapshot has an inconsistent entry count")
    ok (record {
      snapshot_id = existing.id;
      draw_id = existing.draw_id;
      ticket_count = existing.ticket_count;
      status = existing.status;
      already_built = true;
    })

  unfoldable pub build :
      ℕ
      → String
      → List SoldPurchase
      → List SoldTicket
      → SnapshotTables
      → String
      → Outcome (SnapshotTables × BuildSnapshotResult)
  unfolding build_new existing_snapshot
  build now new_id purchases tickets db draw_id = do
    draw ← or_throw (find (has_id draw_id) db.draws) (not_found "Lottery draw not found")
    if_found (find (of_draw draw_id) db.snapshots)
        (λ existing. existing_snapshot db existing >>= λ r. ok (db, r))
        (build_new now new_id purchases tickets db draw)
